-- ===== src/Sync/Oneshot.antt =====
-- src/sync/oneshot.rs: the channel for one value, and the monitors made of it. The channel of the
-- `nbchan` crate is a parameter.
pub mod Monitoring
pub mod Links
pub mod Linking
pub mod Outside
pub mod Cell
pub mod Steps
pub mod Refined
use fibers_rs.Prelude.{ℕ, ◌≡◌, Bool, true, false, Option, none, some}
use fibers_rs.Prelude.Results.{Result, ok, err, Fault, Poll, ready, not_ready}
use fibers_rs.Fiber.Schedule.{Machine}
use fibers_rs.Sync.Nbchan.{TryRecvError, empty, disconnected}
use fibers_rs.Sync.Notifier.{Notifier, new_notifier, await_notification, notify}
use fibers_rs.Sync.Halves.{Channel, Spins, then_finish}

-- `nbchan::oneshot`, seen through the value that it holds and whether its halves live. `send` uses up
-- the sender.
pub record Nb (T : Type 0) : Type 1 where
  pub Chan : Type 0
  pub value : Chan → Option T
  pub has_sender : Chan → Bool
  pub has_receiver : Chan → Bool
  pub new : Chan
  pub send : Chan → T → Result (Unit {0}) T × Chan
  pub try_recv : Chan → Result T TryRecvError × Chan
  pub drop_sender : Chan → Chan
  pub drop_receiver : Chan → Chan
  pub new-view : (value new ≡ none) × (has_sender new ≡ true) × (has_receiver new ≡ true)
  pub send-view :
      (c : Chan) (t : T)
      → has_receiver c ≡ true
      → ((send c t).0 ≡ ok tt)
        × (value (send c t).1 ≡ some t)
        × (has_sender (send c t).1 ≡ false)
        × (has_receiver (send c t).1 ≡ true)
  pub send-closed : (c : Chan) (t : T) → has_receiver c ≡ false → (send c t).0 ≡ err t
  pub try_recv-value :
      (c : Chan) (t : T)
      → value c ≡ some t
      → ((try_recv c).0 ≡ ok t) × (value (try_recv c).1 ≡ none)
  pub try_recv-empty :
      (c : Chan) → value c ≡ none → has_sender c ≡ true → try_recv c ≡ (err empty, c)
  pub try_recv-disconnected :
      (c : Chan) → value c ≡ none → has_sender c ≡ false → try_recv c ≡ (err disconnected, c)
  pub drop_sender-view :
      (c : Chan) → (value (drop_sender c) ≡ value c) × (has_sender (drop_sender c) ≡ false)
  pub drop_receiver-view : (c : Chan) → has_receiver (drop_receiver c) ≡ false

-- `RecvError` has one value.
pub data RecvError : Type 0 where
  recv_error : RecvError

pub data MonitorError (E : Type 0) : Type 0 where
  aborted : MonitorError E
  failed : E → MonitorError E

module _ {E : Type 0} where
  unfoldable pub map_error : {T : Type 0} → MonitorError E → (E → T) → MonitorError T
  map_error aborted f = aborted
  map_error (failed e) f = failed (f e)

  unfoldable pub unwrap_or_else : MonitorError E → (Unit {0} → E) → E
  unwrap_or_else aborted f = f tt
  unwrap_or_else (failed e) f = e

  unfoldable pub unwrap_or : MonitorError E → E → E
  unfolding unwrap_or_else
  unwrap_or m or_error = unwrap_or_else m (λ u. or_error)

-- The `match` on the last result of `try_recv`
unfoldable pub value_result : {T : Type 0} → Result T TryRecvError → Poll T RecvError
value_result (err empty) = ok not_ready
value_result (err disconnected) = err recv_error
value_result (ok t) = ok (ready t)

-- `Monitor::poll` after the `poll` of its receiver
unfoldable pub monitored : {T E : Type 0} → Poll (Result T E) RecvError → Poll T (MonitorError E)
monitored (err e) = err aborted
monitored (ok not_ready) = ok not_ready
monitored (ok (ready (err e))) = err (failed e)
monitored (ok (ready (ok v))) = ok (ready v)

module _ {T : Type 0} (N : Nb T) where
  unfoldable pub channel : Channel N.Chan
  channel = record { inner = N.new; notifier = new_notifier }

  -- `poll` up to the first result; `none`: the channel was empty.
  unfoldable pub first_try : Channel N.Chan → Option (Poll T RecvError) × Channel N.Chan
  first_try ch =
      let (r, c) = N.try_recv ch.inner in
      elim r [
        | ok t ↦ (some (value_result (ok t)), record ch { inner = c })
        | err e ↦ elim e [
          | disconnected ↦ (some (value_result (err disconnected)), record ch { inner = c })
          | empty ↦ (none, record ch { inner = c })
        ]
      ]

  -- `poll` from the second `try_recv` on.
  unfoldable pub second_try : Channel N.Chan → Poll T RecvError × Channel N.Chan
  second_try ch = let (r, c) = N.try_recv ch.inner in (value_result r, record ch { inner = c })

  -- `self.inner.take().expect("Never fails").send(t)`
  unfoldable pub put_value : Channel N.Chan → T → Result (Unit {0}) T × Channel N.Chan
  put_value ch t = let (r, c) = N.send ch.inner t in (r, record ch { inner = c })

  -- The drop of the field `inner` of a sender that has sent nothing.
  unfoldable pub drop_tx : Channel N.Chan → Channel N.Chan
  drop_tx ch = record ch { inner = N.drop_sender ch.inner }

  module _ {F : Type 0} where
    unfoldable pub poll :
        Channel N.Chan → Machine F → Spins (Poll T RecvError × Channel N.Chan × Machine F)
    unfolding first_try second_try
    poll ch m =
        let (r, ch') = first_try ch in
        elim r [
          | some p ↦ ok (some (p, ch', m))
          | none ↦ then_finish await_notification ch' m second_try
        ]

    -- `Sender::send`; the sender, whose `inner` is taken, is dropped at its end and notifies.
    unfoldable pub send :
        Channel N.Chan → Machine F → T → Spins (Result (Unit {0}) T × Channel N.Chan × Machine F)
    unfolding put_value
    send ch m t = let (r, ch') = put_value ch t in then_finish notify ch' m (λ d. (r, d))

    -- The drop of a sender that has sent nothing, with that of its fields.
    unfoldable pub drop_sender :
        Channel N.Chan → Machine F → Spins (Unit {0} × Channel N.Chan × Machine F)
    unfolding drop_tx
    drop_sender ch m = then_finish notify ch m (λ d. (tt, drop_tx d))

    unfoldable pub drop_receiver :
        Channel N.Chan → Machine F → Spins (Unit {0} × Channel N.Chan × Machine F)
    drop_receiver ch m =
        then_finish notify ch m (λ d. (tt, record d { inner = N.drop_receiver d.inner }))

-- A monitor channel is a channel of results.
module _ {T E F : Type 0} (N : Nb (Result T E)) where
  -- `Monitored::exit`
  unfoldable pub exit :
      Channel N.Chan → Machine F → Result T E → Spins (Unit {0} × Channel N.Chan × Machine F)
  unfolding send
  exit ch m result = elim (send N ch m result) [
    | err e ↦ err e
    | ok w ↦ elim w [ none ↦ ok none | some (r, ch', m') ↦ ok (some (tt, ch', m')) ]
  ]

  -- `Monitor::poll`
  unfoldable pub poll_monitor :
      Channel N.Chan → Machine F → Spins (Poll T (MonitorError E) × Channel N.Chan × Machine F)
  unfolding poll
  poll_monitor ch m = elim (poll N ch m) [
    | err e ↦ err e
    | ok w ↦ elim w [ none ↦ ok none | some (p, ch', m') ↦ ok (some (monitored p, ch', m')) ]
  ]
