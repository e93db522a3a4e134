-- ===== src/Sync/Mpsc/Refined.antt =====
-- The channel of src/sync/mpsc.rs, in every interleaving of its threads, is the queue of Sync/Mpsc/Queue.
use fibers_rs.Prelude.{
  ℕ, zero, suc, ◌-◌, ◌<◌, ◌≤◌, ◌≡◌, refl, sym, ap, subst, ◌∙◌, Option, none, some, List, [], ◌∷◌,
  arith,
}
use fibers_rs.Prelude.Results.{ok, Poll}
use fibers_rs.Fiber.Schedule.{Machine}
use fibers_rs.Sync.Nbchan.{Mpsc}
use fibers_rs.Sync.Halves.{Channel}
use fibers_rs.Sync.Mpsc.{
  first_recv, second_recv, put, drop_inner, clone_sender, channel, poll_result,
}
use fibers_rs.Sync.Mpsc.Steps.{
  System, Step, receives, begins, awaits, retries, puts, notifies, clones, begins_drop, ends_drop,
  moves, Reach, start, later,
}
use fibers_rs.Sync.Mpsc.Queue.{
  Action, Queue, Does, send, take, end, wait, add, lose, silent, new, next, Runs, seen, sends,
  sees_nothing, action, trace, view,
}

module _ {T : Type 0} where
  -- What the first look of `poll` at the channel has seen.
  abbrev action_of : Option (Poll (Option T) (Unit {0})) → Action T
  action_of none = sees_nothing
  action_of (some p) = seen p

  Does-same :
      {a : Action T} {q r r' : Queue T}
      → Does a q r
      → r.messages ≡ r'.messages
      → r.senders ≡ r'.senders
      → Does a q r'
  Does-same {a} {q} {r} {r'} d m n =
      let same : r ≡ r' = ground (arith, m, n) in subst (Does a q) same d

module _ {T : Type 0} (N : Mpsc T) where
  try_recv-Does :
      (c : N.Chan) → Does (seen (poll_result (N.try_recv c).0)) (view N c) (view N (N.try_recv c).1)
  unfolding poll_result
  try_recv-Does c = by_queue (N.queue c) (N.senders c) refl refl
    where
      by_queue :
          (q : List T) (k : ℕ)
          → N.queue c ≡ q
          → N.senders c ≡ k
          → Does (seen (poll_result (N.try_recv c).0)) (view N c) (view N (N.try_recv c).1)
      by_queue (t ∷ rest) k is_q is_k =
          let (head, tail, same) = N.try_recv-cons c t rest is_q in
          rw (head) (Does-same (take (view N c) t rest is_q) (sym tail) (sym same))
      by_queue [] zero is_q is_k =
          rw (N.try_recv-disconnected c is_q is_k) (end (view N c) is_q is_k)
      by_queue [] (suc k) is_q is_k =
          rw (N.try_recv-empty c is_q (omega (arith, is_k)))
            (wait (view N c) is_q (omega (arith, is_k)))

  senders-try_recv : (c : N.Chan) → N.senders (N.try_recv c).1 ≡ N.senders c
  senders-try_recv c = by_queue (N.queue c) (N.senders c) refl refl
    where
      by_queue :
          (q : List T) (k : ℕ)
          → N.queue c ≡ q
          → N.senders c ≡ k
          → N.senders (N.try_recv c).1 ≡ N.senders c
      by_queue (t ∷ rest) k is_q is_k = (N.try_recv-cons c t rest is_q).2
      by_queue [] zero is_q is_k = ap (λ x. N.senders x.1) (N.try_recv-disconnected c is_q is_k)
      by_queue [] (suc k) is_q is_k =
          ap (λ x. N.senders x.1) (N.try_recv-empty c is_q (omega (arith, is_k)))

  first_recv-action :
      (ch d : Channel N.Chan) (r : Option (Poll (Option T) (Unit {0})))
      → first_recv N ch ≡ (r, d)
      → (d.inner ≡ (N.try_recv ch.inner).1)
        × (action_of r ≡ seen (poll_result (N.try_recv ch.inner).0))
  unfolding first_recv poll_result
  first_recv-action ch d r e = ground (arith, e)

  first_recv-Does :
      (ch d : Channel N.Chan) (r : Option (Poll (Option T) (Unit {0})))
      → first_recv N ch ≡ (r, d)
      → Does (action_of r) (view N ch.inner) (view N d.inner)
  first_recv-Does ch d r e =
      let (inner, act) = first_recv-action ch d r e in rw (inner, act) (try_recv-Does ch.inner)

  senders-first_recv :
      (ch d : Channel N.Chan) (r : Option (Poll (Option T) (Unit {0})))
      → first_recv N ch ≡ (r, d)
      → N.senders d.inner ≡ N.senders ch.inner
  senders-first_recv ch d r e =
      ap N.senders (first_recv-action ch d r e).0 ∙ senders-try_recv ch.inner

  second_recv-Does :
      (ch d : Channel N.Chan) (p : Poll (Option T) (Unit {0}))
      → second_recv N ch ≡ (p, d)
      → Does (seen p) (view N ch.inner) (view N d.inner) × (N.senders d.inner ≡ N.senders ch.inner)
  unfolding second_recv
  second_recv-Does ch d p e =
      let act : seen p ≡ seen (poll_result (N.try_recv ch.inner).0) = ground (arith, e) in
      let inner : d.inner ≡ (N.try_recv ch.inner).1 = ground (arith, e) in
      (rw (inner, act) (try_recv-Does ch.inner), ap N.senders inner ∙ senders-try_recv ch.inner)

  put-Does :
      (ch d : Channel N.Chan) (t : T)
      → put N ch t ≡ (ok tt, d)
      → 0 < N.senders ch.inner
      → Does (sends t) (view N ch.inner) (view N d.inner) × (N.senders d.inner ≡ N.senders ch.inner)
  unfolding put
  put-Does ch d t e l =
      let taken : (N.send ch.inner t).0 ≡ ok tt = ground (arith, e) in
      let inner : d.inner ≡ (N.send ch.inner t).1 = ground (arith, e) in
      let senders : N.senders d.inner ≡ N.senders ch.inner =
        ap N.senders inner ∙ N.senders-send ch.inner t in
      (
        Does-same (send (view N ch.inner) t l)
            (sym (ap N.queue inner ∙ N.queue-send ch.inner t taken)) (sym senders),
        senders,
      )

  module _ {F : Type 0} where
    Step-balanced :
        {s s' : System N.Chan T F}
        → Step N s s'
        → s.dropping ≤ N.senders s.chan.inner
        → s'.dropping ≤ N.senders s'.chan.inner
    unfolding first_recv second_recv put clone_sender drop_inner
    Step-balanced (receives s ch p o e) h =
        subst (λ k. s.dropping ≤ k) (sym (senders-first_recv s.chan ch (some p) e)) h
    Step-balanced (begins s ch o e) h =
        subst (λ k. s.dropping ≤ k) (sym (senders-first_recv s.chan ch none e)) h
    Step-balanced (awaits s n m o e) h = h
    Step-balanced (retries s ch p o e) h = omega (arith, (second_recv-Does s.chan ch p e).1)
    Step-balanced (puts s ch t l e) h = omega (arith, (put-Does s.chan ch t e (omega arith)).1)
    Step-balanced (notifies s n m k q e) h = h
    Step-balanced (clones s l) h = omega (arith, (N.clone_sender-view s.chan.inner).1)
    Step-balanced (begins_drop s n m l e) h = omega arith
    Step-balanced (ends_drop s k q) h = omega (arith, (N.drop_sender-view s.chan.inner).1)
    Step-balanced (moves s m) h = h

    Step-Does :
        {s s' : System N.Chan T F}
        → (st : Step N s s') → s.dropping ≤ N.senders s.chan.inner
        → Does (action N st) (view N s.chan.inner) (view N s'.chan.inner)
    unfolding first_recv second_recv put clone_sender drop_inner
    Step-Does (receives s ch p o e) h = first_recv-Does s.chan ch (some p) e
    Step-Does (begins s ch o e) h = first_recv-Does s.chan ch none e
    Step-Does (awaits s n m o e) h = silent _
    Step-Does (retries s ch p o e) h = (second_recv-Does s.chan ch p e).0
    Step-Does (puts s ch t l e) h = (put-Does s.chan ch t e (omega arith)).0
    Step-Does (notifies s n m k q e) h = silent _
    Step-Does (clones s l) h =
        Does-same (add _ (omega arith)) (sym (N.clone_sender-view s.chan.inner).0)
          (omega (arith, (N.clone_sender-view s.chan.inner).1))
    Step-Does (begins_drop s n m l e) h = silent _
    Step-Does (ends_drop s k q) h =
        Does-same (lose _ (N.senders s.chan.inner - 1) (omega arith))
          (sym (N.drop_sender-view s.chan.inner).0) (sym (N.drop_sender-view s.chan.inner).1)
    Step-Does (moves s m) h = silent _

    Reach-balanced :
        {m : Machine F} {s : System N.Chan T F} → Reach N m s → s.dropping ≤ N.senders s.chan.inner
    unfolding channel
    Reach-balanced start = ground (arith, N.new-view)
    Reach-balanced (later r st) = Step-balanced st (Reach-balanced r)

    -- In every interleaving, what the senders and the receiver have done and seen is a run of the
    -- queue that starts empty with one sender, and ends with the messages and the senders that the
    -- channel has now. So a message comes out once and in order, the receiver sees the end exactly
    -- when no message and no sender is left, and it never fails.
    pub Reach-Runs :
        {m : Machine F} {s : System N.Chan T F} (r : Reach N m s)
        → Runs (trace N r) (view N s.chan.inner)
    unfolding channel
    Reach-Runs start =
        let (no_message, one, alive) = N.new-view in
        let same : record { messages = []; senders = 1 } ≡ view N N.new =
          ground (arith, no_message, one) in
        subst (Runs []) same new
    Reach-Runs (later r st) = next (Reach-Runs r) (Step-Does st (Reach-balanced r))
