-- ===== src/Sync/Mpsc/Receiving.antt =====
-- One call of `Receiver::poll`, `Sender::send` or the drop of a half (src/sync/mpsc.rs) while no
-- other thread uses the channel.
use fibers_rs.Prelude.{
  ℕ, zero, suc, ◌<◌, ◌≡◌, refl, Option, none, some, List, [], ◌∷◌, ◌++◌, arith, true,
}
use fibers_rs.Prelude.HashMap.{get}
use fibers_rs.Prelude.Results.{ok, Poll, ready, not_ready}
use fibers_rs.Fiber.State.{FiberId, FiberState, Unpark, context_id}
use fibers_rs.Fiber.Schedule.{Machine, CurrentScheduler}
use fibers_rs.Fiber.Context.{as_context, take_held, is_runnable}
use fibers_rs.Fiber.Invariant.{Inv}
use fibers_rs.Fiber.Calls.{Keeps}
use fibers_rs.Sync.Nbchan.{Mpsc}
use fibers_rs.Sync.Notifier.{Notifier, await_notification, await_notification_lem, notify_lem}
use fibers_rs.Sync.Halves.{Channel, Spins}
use fibers_rs.Sync.Mpsc.{poll_result, first_recv, second_recv, poll, put, send}

module _ {T F : Type 0} (N : Mpsc T) where
  -- The outcomes of `poll` in the fiber `id` of the scheduler `s`.
  pub data Polled (ch : Channel N.Chan) (m : Machine F) (s : CurrentScheduler) (id : FiberId)
      : Spins (Poll (Option T) (Unit {0}) × Channel N.Chan × Machine F) → Type 0 where
    message :
        (t : T) (rest : List T) (c : N.Chan)
        → N.queue ch.inner ≡ t ∷ rest
        → N.queue c ≡ rest
        → Polled ch m s id (ok (some (ok (ready (some t)), record ch { inner = c }, m)))
    ended :
        N.queue ch.inner ≡ []
        → N.senders ch.inner ≡ 0
        → Polled ch m s id (ok (some (ok (ready none), ch, m)))
    waits :
        (n : Notifier) (m' : Machine F) (u : Unpark)
        → N.queue ch.inner ≡ []
        → 0 < N.senders ch.inner
        → n.unpark.inner ≡ some (some u)
        → context_id u ≡ (s.id, id)
        → Keeps m m'
        → Polled ch m s id (ok (some (ok not_ready, record ch { notifier = n }, m')))

  poll-cons :
      (ch : Channel N.Chan) (m : Machine F) (t : T) (rest : List T)
      → N.queue ch.inner ≡ t ∷ rest
      → poll N ch m
        ≡ ok (some (ok (ready (some t)), record ch { inner = (N.try_recv ch.inner).1 }, m))
  unfolding poll first_recv poll_result
  poll-cons ch m t rest e = ground (arith, N.try_recv-cons ch.inner t rest e)

  poll-disconnected :
      (ch : Channel N.Chan) (m : Machine F)
      → N.queue ch.inner ≡ []
      → N.senders ch.inner ≡ 0
      → poll N ch m ≡ ok (some (ok (ready none), ch, m))
  unfolding poll first_recv poll_result
  poll-disconnected ch m e z = ground (arith, N.try_recv-disconnected ch.inner e z)

  poll-empty :
      (ch : Channel N.Chan) (m m' : Machine F) (n : Notifier)
      → N.queue ch.inner ≡ []
      → 0 < N.senders ch.inner
      → await_notification ch.notifier m ≡ ok (some (n, m'))
      → poll N ch m ≡ ok (some (ok not_ready, record ch { notifier = n }, m'))
  unfolding poll first_recv second_recv poll_result
  poll-empty ch m m' n e z a = ground (arith, N.try_recv-empty ch.inner e z, a)

  -- `poll`, called in a fiber while no other thread uses the channel, does not loop or panic; it takes
  -- the oldest message, or ends the stream if there is none and no sender, or else leaves in the
  -- notifier an `Unpark` of the fiber, keeps the scheduler's invariant, and is not ready.
  pub poll_lem :
      (ch : Channel N.Chan) (m : Machine F) (unpark : Option Unpark) (s : CurrentScheduler)
      (id : FiberId) (f : FiberState F)
      → ch.notifier.unpark.inner ≡ some unpark
      → as_context m.context ≡ some (s, id)
      → get m.fibers id ≡ some f
      → Inv m.context.fiber m
      → Polled ch m s id (poll N ch m)
  poll_lem ch m unpark s id f free e at_id inv =
      by_queue (N.queue ch.inner) (N.senders ch.inner) refl refl
    where
      by_queue :
          (q : List T) (k : ℕ)
          → N.queue ch.inner ≡ q
          → N.senders ch.inner ≡ k
          → Polled ch m s id (poll N ch m)
      by_queue (t ∷ rest) k is_q is_k =
          rw (poll-cons ch m t rest is_q)
            (message t rest (N.try_recv ch.inner).1 is_q (N.try_recv-cons ch.inner t rest is_q).1)
      by_queue [] zero is_q is_k = rw (poll-disconnected ch m is_q is_k) (ended is_q is_k)
      by_queue [] (suc k) is_q is_k =
          let (n, m', u, r, cell, named, keeps) =
            await_notification_lem ch.notifier m unpark s id f free e at_id inv in
          let z : 0 < N.senders ch.inner = omega (arith, is_k) in
          rw (poll-empty ch m m' n is_q z r) (waits n m' u is_q z cell named keeps)

  -- `send` to a receiver that waits, while no other thread uses the channel, does not loop or panic:
  -- the message comes last in the queue, and the fiber of the receiver can run then.
  pub send_lem :
      (ch : Channel N.Chan) (m : Machine F) (t : T) (u : Unpark) (rest : List Unpark) (i : FiberId)
      (f : FiberState F)
      → N.has_receiver ch.inner ≡ true
      → ch.notifier.unpark.inner ≡ some (some u)
      → take_held u m.held ≡ some rest
      → get m.fibers i ≡ some f
      → f.unparks ≡ u.unparks
      → Inv m.context.fiber m
      → (ch' : Channel N.Chan) × (m' : Machine F) × (send N ch m t ≡ ok (some (ok tt, ch', m')))
        × (N.queue ch'.inner ≡ N.queue ch.inner ++ t ∷ [])
        × (ch'.notifier.unpark.inner ≡ some none)
        × (get m'.fibers i ≡ some f)
        × (is_runnable m' f ≡ true)
  unfolding send put
  send_lem ch m t u rest i f alive cell found at_i same inv =
      let (n, m', r, empty_cell, there, run, _) =
        notify_lem ch.notifier m u rest i f cell found at_i same inv in
      let sent = N.send-result ch.inner t alive in
      (
        record { inner = (N.send ch.inner t).1; notifier = n },
        m',
        ground (arith, sent, r),
        N.queue-send ch.inner t sent,
        empty_cell,
        there,
        run,
      )
