-- ===== src/Sync/Oneshot/Monitoring.antt =====
-- Monitors (src/sync/oneshot.rs): what the monitoring side sees of the monitored one.
use fibers_rs.Prelude.{
  ◌≡◌, ◌∙◌, true, false, Option, none, some, List, arith, Bool-cases, Option-cases, inl, inr,
}
use fibers_rs.Prelude.HashMap.{get}
use fibers_rs.Prelude.Results.{Result, ok, err, Poll, ready, not_ready}
use fibers_rs.Fiber.State.{FiberId, FiberState, Unpark, context_id}
use fibers_rs.Fiber.Schedule.{Machine, CurrentScheduler}
use fibers_rs.Fiber.Context.{as_context, take_held, is_runnable}
use fibers_rs.Fiber.Invariant.{Inv}
use fibers_rs.Fiber.Calls.{Keeps}
use fibers_rs.Sync.Notifier.{
  Notifier, await_notification, await_notification_lem, notify_lem, IsWoken,
}
use fibers_rs.Sync.Halves.{Channel, Spins}
use fibers_rs.Sync.Oneshot.{
  Nb, MonitorError, aborted, failed, value_result, monitored, poll, send, exit, drop_sender,
  poll_monitor,
}

module _ {T E F : Type 0} (N : Nb (Result T E)) where
  -- The outcomes of `Monitor::poll` in the fiber `id` of the scheduler `s`.
  pub data Monitoring (ch : Channel N.Chan) (m : Machine F) (s : CurrentScheduler) (id : FiberId)
      : Spins (Poll T (MonitorError E) × Channel N.Chan × Machine F) → Type 0 where
    succeeded :
        (v : T) (c : N.Chan)
        → N.value ch.inner ≡ some (ok v)
        → Monitoring ch m s id (ok (some (ok (ready v), record ch { inner = c }, m)))
    unsuccessful :
        (e : E) (c : N.Chan)
        → N.value ch.inner ≡ some (err e)
        → Monitoring ch m s id (ok (some (err (failed e), record ch { inner = c }, m)))
    abandoned :
        N.value ch.inner ≡ none
        → N.has_sender ch.inner ≡ false
        → Monitoring ch m s id (ok (some (err aborted, ch, m)))
    waits :
        (n : Notifier) (m' : Machine F) (u : Unpark)
        → N.value ch.inner ≡ none
        → N.has_sender ch.inner ≡ true
        → n.unpark.inner ≡ some (some u)
        → context_id u ≡ (s.id, id)
        → Keeps m m'
        → Monitoring ch m s id (ok (some (ok not_ready, record ch { notifier = n }, m')))

  pub poll_monitor-value :
      (ch : Channel N.Chan) (m : Machine F) (r : Result T E)
      → N.value ch.inner ≡ some r
      → poll_monitor N ch m
        ≡ ok (some (monitored (ok (ready r)), record ch { inner = (N.try_recv ch.inner).1 }, m))
  unfolding poll_monitor poll value_result
  poll_monitor-value ch m r e = ground (arith, N.try_recv-value ch.inner r e)

  pub poll_monitor-disconnected :
      (ch : Channel N.Chan) (m : Machine F)
      → N.value ch.inner ≡ none
      → N.has_sender ch.inner ≡ false
      → poll_monitor N ch m ≡ ok (some (err aborted, ch, m))
  unfolding poll_monitor poll value_result monitored
  poll_monitor-disconnected ch m e z = ground (arith, N.try_recv-disconnected ch.inner e z)

  pub poll_monitor-empty :
      (ch : Channel N.Chan) (m m' : Machine F) (n : Notifier)
      → N.value ch.inner ≡ none
      → N.has_sender ch.inner ≡ true
      → await_notification ch.notifier m ≡ ok (some (n, m'))
      → poll_monitor N ch m ≡ ok (some (ok not_ready, record ch { notifier = n }, m'))
  unfolding poll_monitor poll value_result monitored
  poll_monitor-empty ch m m' n e z a = ground (arith, N.try_recv-empty ch.inner e z, a)

  -- A monitor, polled in a fiber while no other thread uses its channel, does not loop or panic. It
  -- returns the value or the error with which the monitored side has exited; that the target aborted, if
  -- the monitored side is gone without a result; else it is not ready, has left an `Unpark` of the fiber
  -- in the notifier, and keeps the scheduler's invariant.
  pub poll_monitor_lem :
      (ch : Channel N.Chan) (m : Machine F) (unpark : Option Unpark) (s : CurrentScheduler)
      (id : FiberId) (f : FiberState F)
      → ch.notifier.unpark.inner ≡ some unpark
      → as_context m.context ≡ some (s, id)
      → get m.fibers id ≡ some f
      → Inv m.context.fiber m
      → Monitoring ch m s id (poll_monitor N ch m)
  unfolding monitored
  poll_monitor_lem ch m unpark s id f free e at_id inv = elim (Option-cases (N.value ch.inner)) [
    | inr (r, is_r) ↦ by_value r is_r
    | inl is_none ↦ elim (Bool-cases (N.has_sender ch.inner)) [
      | inl connected ↦
          let (n, m', u, q, cell, named, keeps) =
            await_notification_lem ch.notifier m unpark s id f free e at_id inv in
          rw (poll_monitor-empty ch m m' n is_none connected q)
            (waits n m' u is_none connected cell named keeps)
      | inr gone ↦ rw (poll_monitor-disconnected ch m is_none gone) (abandoned is_none gone)
    ]
  ]
    where
      by_value :
          (r : Result T E) → N.value ch.inner ≡ some r → Monitoring ch m s id (poll_monitor N ch m)
      by_value (ok v) is_r =
          rw (poll_monitor-value ch m (ok v) is_r) (succeeded v (N.try_recv ch.inner).1 is_r)
      by_value (err x) is_r =
          rw (poll_monitor-value ch m (err x) is_r) (unsuccessful x (N.try_recv ch.inner).1 is_r)

  -- `exit`, while no other thread uses the channel, does not loop or panic and wakes the fiber that waits
  -- at the monitor: the fiber can run then, and is being polled, queued, or about to be woken; the next
  -- poll of the monitor returns the result.
  pub exit-poll_monitor :
      (ch : Channel N.Chan) (m : Machine F) (result : Result T E) (u : Unpark) (rest : List Unpark)
      (i : FiberId) (f : FiberState F)
      → N.has_receiver ch.inner ≡ true
      → ch.notifier.unpark.inner ≡ some (some u)
      → take_held u m.held ≡ some rest
      → get m.fibers i ≡ some f
      → f.unparks ≡ u.unparks
      → Inv m.context.fiber m
      → (ch' : Channel N.Chan) × (m' : Machine F) × (exit N ch m result ≡ ok (some (tt, ch', m')))
        × (get m'.fibers i ≡ some f)
        × (is_runnable m' f ≡ true)
        × IsWoken m.context.fiber m' i f
        × ((m2 : Machine F)
            → poll_monitor N ch' m2
              ≡ ok (
                  some (
                    monitored (ok (ready result)),
                    record ch' { inner = (N.try_recv ch'.inner).1 },
                    m2,
                  )))
  unfolding exit send
  exit-poll_monitor ch m result u rest i f alive cell found at_i same inv =
      let (n, m', r, empty_cell, there, run, woken) =
        notify_lem ch.notifier m u rest i f cell found at_i same inv in
      let (sent, value, _, _) = N.send-view ch.inner result alive in
      let ch' : Channel N.Chan = record { inner = (N.send ch.inner result).1; notifier = n } in
      (
        ch',
        m',
        ground (arith, sent, r),
        there,
        run,
        woken,
        λ m2. poll_monitor-value ch' m2 result value,
      )

  -- The monitored side goes without a result, while no other thread uses the channel: that does not loop
  -- or panic, and wakes the fiber that waits at the monitor: it can run then, and is being polled,
  -- queued, or about to be woken; the next poll of the monitor fails, since the target has aborted.
  pub drop_sender-poll_monitor :
      (ch : Channel N.Chan) (m : Machine F) (u : Unpark) (rest : List Unpark) (i : FiberId)
      (f : FiberState F)
      → N.value ch.inner ≡ none
      → ch.notifier.unpark.inner ≡ some (some u)
      → take_held u m.held ≡ some rest
      → get m.fibers i ≡ some f
      → f.unparks ≡ u.unparks
      → Inv m.context.fiber m
      → (ch' : Channel N.Chan) × (m' : Machine F) × (drop_sender N ch m ≡ ok (some (tt, ch', m')))
        × (get m'.fibers i ≡ some f)
        × (is_runnable m' f ≡ true)
        × IsWoken m.context.fiber m' i f
        × ((m2 : Machine F) → poll_monitor N ch' m2 ≡ ok (some (err aborted, ch', m2)))
  unfolding drop_sender
  drop_sender-poll_monitor ch m u rest i f nothing cell found at_i same inv =
      let (n, m', r, empty_cell, there, run, woken) =
        notify_lem ch.notifier m u rest i f cell found at_i same inv in
      let (value, sender) = N.drop_sender-view ch.inner in
      let ch' : Channel N.Chan = record { inner = N.drop_sender ch.inner; notifier = n } in
      (
        ch',
        m',
        ground (arith, r),
        there,
        run,
        woken,
        λ m2. poll_monitor-disconnected ch' m2 (value ∙ nothing) sender,
      )
