-- ===== src/Executor/InPlace.antt =====
-- src/executor/in_place.rs: one scheduler and one poller on the calling thread.
use fibers_rs.Prelude.{
  ℕ, ◌+◌, ◌<◌, ◌≡◌, refl, subst, Option, none, some, List, [], ◌∷◌, ◌++◌, map, arith, false, ◌⊎◌,
  inl, inr,
}
use fibers_rs.Prelude.HashMap.{len, get}
use fibers_rs.Prelude.Usize.{usize_mod}
use fibers_rs.Prelude.Results.{Result, ok, err, Fault, diverges, ◌>>=◌}
use fibers_rs.Collections.Tree.{SplayMap}
use fibers_rs.Collections.ListMap.{key_ord}
use fibers_rs.Fiber.State.{Run, Unpark}
use fibers_rs.Fiber.Schedule.{Machine}
use fibers_rs.Fiber.Context
use fibers_rs.Fiber.Context.{Turn, done, waiting}
use fibers_rs.Fiber.Invariant.{Inv}
use fibers_rs.Fiber.Turns.{IsReady, IsTurn, returned, blocked, run_once_lem}
use fibers_rs.Poll.Mio.{Mio}
use fibers_rs.Poll.Poller as Pollers
use fibers_rs.Poll.Poller.{
  Poller, Request, register, deregister, monitor, set_timeout, cancel_timeout, Effect, replied,
  expired, exited, Fail, fault, io,
}
use fibers_rs.Executor.Delivery.{deliver, deliver-kept, AllWoken, deliver-AllWoken}
use fibers_rs.Poll.Poller.Waiting.{IsArmed}
use fibers_rs.Poll.Poller.Requests.{none_exempt, unmoved-IsArmed}
use fibers_rs.Poll.Poller.Events.{Handled}
use fibers_rs.Poll.Poller.Events
use fibers_rs.Poll.Poller.Whole.{IsNext, poll-Handled}

pub record InPlaceExecutor (F P : Type 0) : Type 0 where
  pub scheduler : Machine F
  pub poller : P

-- What `poll` returned, with the executor as it is then; a panic ends the call.
abbrev pub polled_result :
    {F P E : Type 0}
    → Machine F
    → Result (Unit {0}) (Fail E) × P
    → Result (Result (Unit {0}) E × InPlaceExecutor F P) Fault
polled_result m (ok u, p) = ok (ok tt, record { scheduler = m; poller = p })
polled_result m (err (io e), p) = ok (err e, record { scheduler = m; poller = p })
polled_result m (err (fault f), p) = err f

-- What fibers send to the poller while the scheduler runs comes after what its channel holds. The
-- effects that the poller has then are those of the poll that follows.
abbrev pub with_requests : {W R P H : Type 0} → Poller W R P H → List (Request W R) → Poller W R P H
with_requests p sent = record p { requests = p.requests ++ sent; effects = [] }

-- The sender that an effect uses up: that of a monitor, or of a reply or a timeout.
abbrev pub sender_of : {W R : Type 0} → Effect W R → W ⊎ R
sender_of (replied reply token) = inr reply
sender_of (expired reply) = inr reply
sender_of (exited monitored) = inl monitored

module _ {W R IoError : Type 0} (M : Mio IoError) (S : SplayMap (ℕ × ℕ) R key_ord) where
  -- The senders that the first request of a poll drops: those of a registrant that is removed, and of a
  -- timeout that is cancelled.
  abbrev pub dropped_by : Poller W R M.Poll S.Map → Request W R → List (W ⊎ R)
  dropped_by p (register evented reply) = []
  dropped_by p (deregister token) = elim (get p.registrants token) [
    | none ↦ []
    | some r ↦ map inl (r.read_waitings ++ r.write_waitings)
  ]
  dropped_by p (monitor token interest notifier) = []
  dropped_by p (set_timeout timeout_id expiry_time reply) = []
  dropped_by p (cancel_timeout timeout_id expiry_time) =
      elim (S.get p.timeout_queue.inner (expiry_time, timeout_id)) [
        | none ↦ []
        | some reply ↦ inr reply ∷ []
      ]

  -- The senders that a poll uses up or drops, where `p` is the poller before, and `p'` after it.
  abbrev pub senders_of_poll : Poller W R M.Poll S.Map → Poller W R M.Poll S.Map → List (W ⊎ R)
  senders_of_poll p p' = elim p.requests [
    | [] ↦ map sender_of p'.effects
    | q ∷ rest ↦ dropped_by p q ++ map sender_of p'.effects
  ]

module _ {F W R IoError : Type 0} (poll_fiber : F → Run F) (M : Mio IoError)
    (S : SplayMap (ℕ × ℕ) R key_ord) (unpark_of : W ⊎ R → Option Unpark) where
  -- The poll of the executor, after the scheduler's turn: it notifies the fibers that wait for what it
  -- sends and drops, which sends to the scheduler. `unpark_of` is what the notifier of a sender's channel
  -- holds, an `Unpark` of the fiber that waits there.
  unfoldable pub poll_and_notify :
      Machine F
      → Poller W R M.Poll S.Map
      → ℕ
      → Result (Result (Unit {0}) IoError × InPlaceExecutor F (Poller W R M.Poll S.Map)) Fault
  poll_and_notify m p now =
      let x = Pollers.poll M S p now (some 1) in
      polled_result (deliver m (map unpark_of (senders_of_poll M S p x.1))) x

  -- `run_once`: `sent` is what the fibers send to the poller meanwhile, `now` the time. The scheduler
  -- does not block, so that no request reaches it while it waits.
  unfoldable pub run_once :
      InPlaceExecutor F (Poller W R M.Poll S.Map)
      → List (Request W R)
      → ℕ
      → Result (Result (Unit {0}) IoError × InPlaceExecutor F (Poller W R M.Poll S.Map)) Fault
  run_once ex sent now = Context.run_once poll_fiber ex.scheduler false [] >>= λ t. elim t [
    | waiting m ↦ err diverges
    | done m ↦ poll_and_notify m (with_requests ex.poller sent) now
  ]

  -- The outcomes of a turn of the executor `from` in which its fibers send this; `m` is the scheduler
  -- before the poll, whose fibers are woken then.
  pub data Once (from : InPlaceExecutor F (Poller W R M.Poll S.Map)) (sent : List (Request W R))
      (r : Result (Result (Unit {0}) IoError × InPlaceExecutor F (Poller W R M.Poll S.Map)) Fault)
      : Type 0 where
    worked :
        (m : Machine F) (ex : InPlaceExecutor F (Poller W R M.Poll S.Map))
        → Context.run_once poll_fiber from.scheduler false [] ≡ ok (done m)
        → r ≡ ok (ok tt, ex)
        → Inv none ex.scheduler
        → ex.scheduler.context.fiber ≡ none
        → AllWoken m
            (map unpark_of (senders_of_poll M S (with_requests from.poller sent) ex.poller))
            ex.scheduler
        → IsArmed M S none_exempt ex.poller
        → Once from sent r
    io_failed :
        (e : IoError) (m : Machine F) (ex : InPlaceExecutor F (Poller W R M.Poll S.Map))
        → Context.run_once poll_fiber from.scheduler false [] ≡ ok (done m)
        → r ≡ ok (err e, ex)
        → Inv none ex.scheduler
        → ex.scheduler.context.fiber ≡ none
        → AllWoken m
            (map unpark_of (senders_of_poll M S (with_requests from.poller sent) ex.poller))
            ex.scheduler
        → Once from sent r

  after_poll :
      (ex : InPlaceExecutor F (Poller W R M.Poll S.Map)) (sent : List (Request W R)) (now : ℕ)
      (m : Machine F) (x : Result (Unit {0}) (Fail IoError) × Poller W R M.Poll S.Map)
      → Context.run_once poll_fiber ex.scheduler false [] ≡ ok (done m)
      → Pollers.poll M S (with_requests ex.poller sent) now (some 1) ≡ x
      → Inv none m
      → m.context.fiber ≡ none
      → Handled M S x
      → Once ex sent (poll_and_notify m (with_requests ex.poller sent) now)
  unfolding poll_and_notify
  after_poll ex sent now m (r, p') ran is inv free (Events.done good armed) =
      let us = map unpark_of (senders_of_poll M S (with_requests ex.poller sent) p') in
      let (inv', free') = deliver-kept m us inv free in
      worked m (record { scheduler = deliver m us; poller = p' }) ran (ground (arith, is, good))
        inv' free' (deliver-AllWoken m us inv free) armed
  after_poll ex sent now m (r, p') ran is inv free (Events.failed e bad) =
      let us = map unpark_of (senders_of_poll M S (with_requests ex.poller sent) p') in
      let (inv', free') = deliver-kept m us inv free in
      io_failed e m (record { scheduler = deliver m us; poller = p' }) ran (ground (arith, is, bad))
        inv' free' (deliver-AllWoken m us inv free)

  after_turn :
      (ex : InPlaceExecutor F (Poller W R M.Poll S.Map)) (sent : List (Request W R)) (now : ℕ)
      (t : Turn F)
      → Context.run_once poll_fiber ex.scheduler false [] ≡ ok t
      → IsTurn poll_fiber false t
      → Handled M S (Pollers.poll M S (with_requests ex.poller sent) now (some 1))
      → Once ex sent (run_once ex sent now)
  unfolding run_once
  after_turn ex sent now t ran (returned m inv free) handled =
      let is : poll_and_notify m (with_requests ex.poller sent) now ≡ run_once ex sent now =
        ground (arith, ran) in
      subst (Once ex sent) is (after_poll ex sent now m _ ran refl inv free handled)
  after_turn ex sent now t ran (blocked m ready may a b) handled = absurd (ground (arith, may))

  -- A turn of the executor neither panics nor waits for ever, whatever the fibers do:
  -- it succeeds, or the operating system has failed. In both cases the scheduler keeps its invariant, and
  -- every fiber that waits for something that the poll sends or drops, with an `Unpark` of its own in the
  -- notifier of that channel, can run and is queued or about to be woken. In the first case everybody
  -- who still waits for an event is armed. Before, the scheduler must be ready with fewer than
  -- 2^64 - 1 fibers, everybody who waits must be armed, and the next request of the poller be in order.
  pub run_once-Once :
      (ex : InPlaceExecutor F (Poller W R M.Poll S.Map)) (sent : List (Request W R)) (now : ℕ)
      → IsReady ex.scheduler
      → len ex.scheduler.fibers + 1 < usize_mod
      → IsArmed M S none_exempt ex.poller
      → IsNext M S ex.poller (ex.poller.requests ++ sent)
      → Once ex sent (run_once ex sent now)
  run_once-Once ex sent now ready room armed next =
      let (t, ran, turn) = run_once_lem poll_fiber ex.scheduler false [] ready room in
      let p = with_requests ex.poller sent in
      after_turn ex sent now t ran turn
        (poll-Handled M S p now (some 1) next (unmoved-IsArmed M S ex.poller p refl refl armed))
