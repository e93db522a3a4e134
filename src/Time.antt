-- ===== src/Time.antt =====
-- src/time.rs: `Timeout` and `TimeoutAfter`, over `Timeout` of src/io/poll/poller.rs.
pub mod Polled
mod Tests
use fibers_rs.Prelude.{ℕ, ◌-◌, Bool, true, false, Option, none, some, leb, if◌then◌else◌}
use fibers_rs.Prelude.Results.{Result, ok, err, Poll, ready, not_ready}
use fibers_rs.Sync.Oneshot.{RecvError}
use fibers_rs.Poll.Handles as Handles
use fibers_rs.Poll.Handles.{Polling, CancelTimeout, cancel}

-- What a timeout uses of its oneshot channel: the two halves of a new one, and `poll` of the receiver.
pub record Oneshots (R : Type 0) : Type 1 where
  pub World : Type 0
  pub Receiver : Type 0
  pub channel : World → R × Receiver × World
  pub poll_receiver : Receiver → World → Poll (Unit {0}) RecvError × Receiver × World

-- `Timeout` of the poller
pub record PollerTimeout (Rx : Type 0) : Type 0 where
  pub cancel_on_drop : Option CancelTimeout
  pub rx : Rx

-- `Timeout`; times and durations are numbers.
pub record Timeout (Rx : Type 0) : Type 0 where
  pub start : ℕ
  pub duration : ℕ
  pub inner : Option (PollerTimeout Rx)

-- The clock at the two places where `poll` looks at it, and whether a fiber runs it.
pub record Moment : Type 0 where
  pub elapsed_at : ℕ
  pub set_at : ℕ
  pub in_fiber : Bool

module _ {R : Type 0} (O : Oneshots R) where
  open O use {World, Receiver, channel, poll_receiver}

  -- `timeout`
  unfoldable pub timeout : ℕ → ℕ → Timeout Receiver
  timeout now delay_from_now = record { start = now; duration = delay_from_now; inner = none }

  -- `Timeout::poll` of the poller
  unfoldable pub poll_inner :
      PollerTimeout Receiver → World → Poll (Unit {0}) RecvError × PollerTimeout Receiver × World
  poll_inner t w =
      let (result, rx, w1) = poll_receiver t.rx w in
      elim result [
        | err e ↦ (err e, record { cancel_on_drop = none; rx = rx }, w1)
        | ok a ↦ elim a [
          | ready u ↦ (ok (ready tt), record { cancel_on_drop = none; rx = rx }, w1)
          | not_ready ↦ (ok not_ready, record t { rx = rx }, w1)
        ]
      ]

  module _ {W P H : Type 0} where
    -- `set_timeout` of the poller, with its channel
    unfoldable pub set_timeout :
        Polling W R P H → World → ℕ → ℕ → PollerTimeout Receiver × Polling W R P H × World
    set_timeout p w now rest =
        let (tx, rx, w1) = channel w in
        let (c, p1) = Handles.set_timeout p now rest tx in
        (record { cancel_on_drop = some c; rx = rx }, p1, w1)

    -- `Drop for Timeout` of the poller
    unfoldable pub drop_inner : PollerTimeout Receiver → Polling W R P H → Polling W R P H
    drop_inner t p = elim t.cancel_on_drop [ none ↦ p | some c ↦ cancel p c ]

    -- `Timeout::poll`; what it gives when `inner` is there
    unfoldable pub poll_set :
        Timeout Receiver
        → PollerTimeout Receiver
        → Polling W R P H
        → World
        → Poll (Unit {0}) RecvError × Timeout Receiver × Polling W R P H × World
    unfolding poll_inner
    poll_set t inner p w =
        let (result, inner', w1) = poll_inner inner w in
        (result, record t { inner = some inner' }, p, w1)

    unfoldable pub poll :
        Moment
        → Timeout Receiver
        → Polling W R P H
        → World
        → Poll (Unit {0}) RecvError × Timeout Receiver × Polling W R P H × World
    poll m t p w = elim t.inner [
      | some inner ↦ poll_set t inner p w
      | none ↦
          let elapsed = m.elapsed_at - t.start in
          if leb t.duration elapsed
          then (ok (ready tt), t, p, w)
          else if m.in_fiber
          then (let (inner, p1, w1) = set_timeout p w m.set_at (t.duration - elapsed) in
              poll_set (record t { inner = some inner }) inner p1 w1)
          else (ok not_ready, t, p, w)
    ]

    -- `TimeoutAfter::poll`, after the `poll` of its future with the result `future`
    unfoldable pub poll_after :
        {V E : Type 0}
        → Moment
        → Poll V E
        → Timeout Receiver
        → Polling W R P H
        → World
        → Poll V (Option E) × Timeout Receiver × Polling W R P H × World
    unfolding poll
    poll_after m future t p w = elim future [
      | err e ↦ (err (some e), t, p, w)
      | ok a ↦ elim a [
        | ready v ↦ (ok (ready v), t, p, w)
        | not_ready ↦
            let (r, t1, p1, w1) = poll m t p w in
            elim r [
              | err e ↦ (err none, t1, p1, w1)
              | ok b ↦ elim b [
                | ready u ↦ (err none, t1, p1, w1)
                | not_ready ↦ (ok not_ready, t1, p1, w1)
              ]
            ]
      ]
    ]
