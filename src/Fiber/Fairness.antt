-- ===== src/Fiber/Fairness.antt =====
-- The run queue of a scheduler (src/fiber/schedule.rs) is fair: fibers are polled in the order in which
-- they were queued, one in each call of `run_once`.
mod Tests
use mathlib.Core.List.{append_assoc, append-nil}
use fibers_rs.Prelude.{
  ℕ, suc, ◌+◌, ◌<◌, ◌≡◌, refl, sym, ap, subst, ◌∙◌, inl, inr, Bool, true, false, ◌||◌, Option, none,
  some, List, [], ◌∷◌, ◌++◌, length, arith,
}
use fibers_rs.Prelude.HashMap.{get, len}
use fibers_rs.Prelude.Usize.{usize_mod}
use fibers_rs.Prelude.Results.{Result, ok, Fault, Poll}
use fibers_rs.Fiber.State.{FiberId, FiberState, Run}
use fibers_rs.Fiber.Schedule.{Request, Machine}
use fibers_rs.Fiber.Context.{run_fiber, receive, run_next, Turn, done, run_loop, run_once}
use fibers_rs.Fiber.Scheduling.{popped}
use fibers_rs.Fiber.Requests.{rest_of, nothing, one, receive_lem}
use fibers_rs.Fiber.Running.{RunFiber, Ended, finished, requeued, waits}
use fibers_rs.Fiber.Turns.{IsReady, Handled-IsReady, RunNext, idles, runs, run_next_lem}

module _ {F : Type 0} (poll : F → Run F) where
  -- A call of `run_once` that polls the fiber `id`; `queue` is still in the run queue after it, in the
  -- same order.
  pub data Polls (id : FiberId) (queue : List FiberId) (r : Result (Turn F) Fault) : Type 0 where
    polls :
        (m1 m2 : Machine F) (l : List FiberId)
        → r ≡ ok (done m2)
        → run_fiber poll m1 id ≡ ok m2
        → m2.run_queue ≡ queue ++ l
        → Polls id queue r

  ended_last :
      {m m' : Machine F} {id : FiberId} {f : FiberState F} {r : Poll (Unit {0}) (Unit {0})}
      {task : F}
      → Ended m id f r task m'
      → (l : List FiberId) × (m'.run_queue ≡ m.run_queue ++ l)
  ended_last {m} (finished a b q) = ([], q ∙ sym (append-nil m.run_queue))
  ended_last {id = id} (requeued a b c q) = (id ∷ [], q)
  ended_last {m} (waits a b c q) = ([], q ∙ sym (append-nil m.run_queue))

  -- `run_next` with a run queue that is not empty.
  next_in_order :
      (m : Machine F) (did : Bool) (id : FiberId) (queue : List FiberId)
      → m.run_queue ≡ id ∷ queue
      → IsReady m
      → (m1 : Machine F) × (m2 : Machine F) × (l : List FiberId) × (run_next poll m did
          ≡ ok (m2, true))
        × (run_fiber poll m1 id ≡ ok m2)
        × (m2.run_queue ≡ queue ++ l)
  next_in_order m did id queue q ready = elim (run_next_lem poll m did ready) [
    | idles e res ↦ absurd (ground (arith, q, e))
    | runs a rest f e at_id (run, res) ↦
        let same : id ≡ a = ground (arith, q, e) in
        let tail : rest ≡ queue = ground (arith, q, e) in
        let (l, last) = ended_last run.ended.outcome in
        let m1 = record m { scheduler = popped m.scheduler a rest f } in
        (
          m1,
          run.ended.after,
          l,
          res,
          subst (λ i. run_fiber poll m1 i ≡ ok run.ended.after) (sym same) run.ended.result,
          last ∙ ap (λ z. z ++ l) (run.same_queue ∙ tail),
        )
  ]

  -- `run_once` does one round then, whether it may block or not.
  one_round :
      (m m1 m2 : Machine F) (block got : Bool) (arrivals : List (Request F))
      → receive m ≡ ok (m1, got)
      → run_next poll m1 got ≡ ok (m2, true)
      → run_once poll m block arrivals ≡ ok (done m2)
  unfolding run_once run_loop
  one_round m m1 m2 block got arrivals r n = ground (arith, r, n)

  received_queue :
      (m m1 : Machine F) (got : Bool) (id : FiberId) (queue : List FiberId) (new : List FiberId)
      (block : Bool) (arrivals : List (Request F))
      → receive m ≡ ok (m1, got)
      → m1.run_queue ≡ m.run_queue ++ new
      → m.run_queue ≡ id ∷ queue
      → IsReady m1
      → Polls id queue (run_once poll m block arrivals)
  received_queue m m1 got id queue new block arrivals r last q ready =
      let (m0, m2, l, ran, fiber, after) =
        next_in_order m1 got id (queue ++ new) (last ∙ ap (λ z. z ++ new) q) ready in
      polls m0 m2 (new ++ l) (one_round m m1 m2 block got arrivals r ran) fiber
        (after ∙ append_assoc queue new l)

  -- A call of `run_once` polls the fiber at the head of the run queue, whatever requests there are.
  run_once_in_order :
      (m : Machine F) (block : Bool) (arrivals : List (Request F)) (id : FiberId)
      (queue : List FiberId)
      → IsReady m
      → len m.fibers < usize_mod
      → m.run_queue ≡ id ∷ queue
      → Polls id queue (run_once poll m block arrivals)
  run_once_in_order m block arrivals id queue ready room q = elim (receive_lem m ready.inv room) [
    | nothing e res ↦
        received_queue m m false id queue [] block arrivals res (sym (append-nil m.run_queue)) q
          ready
    | one r rest e h res ↦
        let (new, last) = h.queued_last in
        received_queue m h.after true id queue new block arrivals res last q
          (Handled-IsReady m rest ready h)
  ]

  -- Calls of `run_once` that return, on a ready scheduler with fewer than 2^64 fibers; between two of
  -- them other threads do what they like, but only this thread has the run queue.
  pub data Calls : ℕ → Machine F → Machine F → Type 0 where
    no_call : (m : Machine F) → Calls 0 m m
    called :
        {n : ℕ} (m m1 m2 m3 : Machine F) (block : Bool) (arrivals : List (Request F))
        → IsReady m
        → len m.fibers < usize_mod
        → run_once poll m block arrivals ≡ ok (done m1)
        → m2.run_queue ≡ m1.run_queue
        → Calls n m2 m3
        → Calls (suc n) m m3

  comes_forward :
      (before after : List FiberId) (id : FiberId) (m m' : Machine F)
      → m.run_queue ≡ before ++ id ∷ after
      → Calls (length before) m m'
      → (rest : List FiberId) × (m'.run_queue ≡ id ∷ rest)
  comes_forward [] after id m _ q (no_call _) = (after, q)
  comes_forward (b ∷ before) after id m m' q
        (called _ m1 m2 _ block arrivals ready room r same calls) =
      elim (run_once_in_order m block arrivals b (before ++ id ∷ after) ready room q) [
        | polls m0 mm l res fiber later ↦
            let is : mm ≡ m1 = ground (arith, res, r) in
            comes_forward before (after ++ l) id m2 m'
              (same
                ∙ ap (λ (x : Machine F). x.run_queue) (sym is)
                ∙ later
                ∙ append_assoc before (id ∷ after) l)
              calls
      ]

  -- No fiber is starved: when a fiber is in the run queue with k fibers before it, the call of `run_once`
  -- after the next k calls polls it and returns, whatever these and other fibers do, and whatever
  -- requests arrive. Each call must find the scheduler ready, with fewer than 2^64 fibers and with the
  -- run queue that the call before has left.
  pub queued_fiber_runs :
      (before after : List FiberId) (id : FiberId) (m m' : Machine F) (block : Bool)
      (arrivals : List (Request F))
      → m.run_queue ≡ before ++ id ∷ after
      → Calls (length before) m m'
      → IsReady m'
      → len m'.fibers < usize_mod
      → (m1 : Machine F) × (m2 : Machine F) × (run_once poll m' block arrivals ≡ ok (done m2))
        × (run_fiber poll m1 id ≡ ok m2)
  queued_fiber_runs before after id m m' block arrivals q calls ready room =
      let (rest, front) = comes_forward before after id m m' q calls in
      elim (run_once_in_order m' block arrivals id rest ready room front) [
        | polls m1 m2 l r fiber later ↦ (m1, m2, r, fiber)
      ]
