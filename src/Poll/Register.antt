-- ===== src/Poll/Register.antt =====
-- src/io/poll/poller.rs: the future `Register`, and the reply of the poller that ends it.
use fibers_rs.Prelude.{ℕ, ◌≡◌, Bool, true, false, some, List, arith}
use fibers_rs.Prelude.HashMap.{get}
use fibers_rs.Prelude.Results.{Result, ok, err, panic, Poll, ready}
use fibers_rs.SyncAtomic.{AtomicCell}
use fibers_rs.Fiber.State.{FiberId, FiberState, Unpark}
use fibers_rs.Fiber.Schedule.{Machine}
use fibers_rs.Fiber.Context.{take_held, is_runnable}
use fibers_rs.Fiber.Invariant.{Inv}
use fibers_rs.Sync.Notifier.{notify_lem}
use fibers_rs.Sync.Halves.{Channel, Spins}
use fibers_rs.Sync.Oneshot.{Nb, RecvError, poll, send, put_value, first_try, value_result}

pub record EventedHandle (A : Type 0) : Type 0 where
  pub token : ℕ
  pub inner : AtomicCell A

module _ {A F : Type 0} (N : Nb (EventedHandle A)) where
  -- The closure that the poller calls with the token; it panics when it is called again.
  unfoldable pub reply :
      Bool
      → AtomicCell A
      → Channel N.Chan
      → Machine F
      → ℕ
      → Spins (Result (Unit {0}) (EventedHandle A) × Channel N.Chan × Machine F)
  unfolding send
  reply false evented tx m token = err panic
  reply true evented tx m token = send N tx m (record { token = token; inner = evented })

  -- `Register::poll`
  unfoldable pub poll_register :
      Channel N.Chan
      → Machine F
      → Spins (Poll (EventedHandle A) RecvError × Channel N.Chan × Machine F)
  unfolding poll
  poll_register rx m = poll N rx m

  poll_register-value :
      (rx : Channel N.Chan) (m : Machine F) (handle : EventedHandle A)
      → N.value rx.inner ≡ some handle
      → poll_register rx m
        ≡ ok (some (ok (ready handle), record rx { inner = (N.try_recv rx.inner).1 }, m))
  unfolding poll_register poll first_try value_result
  poll_register-value rx m handle e = ground (arith, N.try_recv-value rx.inner handle e)

  -- The reply of the poller, while no other thread uses the channel, does not loop or panic and wakes
  -- the fiber that waits for the registration, whose next poll returns the handle of its object with
  -- the token of the poller.
  pub reply-poll_register :
      (evented : AtomicCell A) (ch : Channel N.Chan) (m : Machine F) (token : ℕ) (u : Unpark)
      (rest : List Unpark) (i : FiberId) (f : FiberState F)
      → N.has_receiver ch.inner ≡ true
      → ch.notifier.unpark.inner ≡ some (some u)
      → take_held u m.held ≡ some rest
      → get m.fibers i ≡ some f
      → f.unparks ≡ u.unparks
      → Inv m.context.fiber m
      → (ch' : Channel N.Chan) × (m' : Machine F) × (reply true evented ch m token
          ≡ ok (some (ok tt, ch', m')))
        × (get m'.fibers i ≡ some f)
        × (is_runnable m' f ≡ true)
        × ((m2 : Machine F)
            → poll_register ch' m2
              ≡ ok (
                  some (
                    ok (ready (record { token = token; inner = evented })),
                    record ch' { inner = (N.try_recv ch'.inner).1 },
                    m2,
                  )))
  unfolding reply send put_value
  reply-poll_register evented ch m token u rest i f alive cell found at_i same inv =
      let (n, m', r, empty_cell, there, run, _) =
        notify_lem ch.notifier m u rest i f cell found at_i same inv in
      let handle : EventedHandle A = record { token = token; inner = evented } in
      let (sent, value, _, _) = N.send-view ch.inner handle alive in
      let ch' : Channel N.Chan = record { inner = (N.send ch.inner handle).1; notifier = n } in
      (ch', m', ground (arith, sent, r), there, run, λ m2. poll_register-value ch' m2 handle value)
