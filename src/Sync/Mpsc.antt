-- ===== src/Sync/Mpsc.antt =====
-- src/sync/mpsc.rs: the channel whose receiver waits in a fiber.
pub mod Receiving
pub mod Steps
pub mod Order
pub mod Queue
pub mod Refined
use fibers_rs.Prelude.{ℕ, Bool, Option, none, some}
use fibers_rs.Prelude.Results.{Result, ok, err, Poll, ready, not_ready}
use fibers_rs.Fiber.Schedule.{Machine}
use fibers_rs.Sync.Nbchan.{Mpsc, TryRecvError, empty, disconnected, TrySendError, full, closed}
use fibers_rs.Sync.Halves.{Channel, Spins, then_finish}
use fibers_rs.Sync.Notifier.{new_notifier, await_notification, notify}

-- The `match` on the last result of `try_recv`
unfoldable pub poll_result : {T : Type 0} → Result T TryRecvError → Poll (Option T) (Unit {0})
poll_result (err empty) = ok not_ready
poll_result (err disconnected) = ok (ready none)
poll_result (ok t) = ok (ready (some t))

-- What `start_send` returns.
pub data AsyncSink (T : Type 0) : Type 0 where
  accepted : AsyncSink T
  refused : T → AsyncSink T

module _ {T : Type 0} (N : Mpsc T) where
  unfoldable pub channel : Channel N.Chan
  channel = record { inner = N.new; notifier = new_notifier }

  unfoldable pub sync_channel : ℕ → Channel N.Chan
  sync_channel bound = record { inner = N.sync_new bound; notifier = new_notifier }

  -- `poll` up to the first result; `none`: the channel was empty.
  unfoldable pub first_recv : Channel N.Chan → Option (Poll (Option T) (Unit {0})) × Channel N.Chan
  first_recv ch =
      let (r, c) = N.try_recv ch.inner in
      elim r [
        | ok t ↦ (some (poll_result (ok t)), record ch { inner = c })
        | err e ↦ elim e [
          | empty ↦ (none, record ch { inner = c })
          | disconnected ↦ (some (poll_result (err disconnected)), record ch { inner = c })
        ]
      ]

  -- `poll` from the second `try_recv` on.
  unfoldable pub second_recv : Channel N.Chan → Poll (Option T) (Unit {0}) × Channel N.Chan
  second_recv ch = let (r, c) = N.try_recv ch.inner in (poll_result r, record ch { inner = c })

  unfoldable pub is_disconnected : Channel N.Chan → Bool
  is_disconnected ch = N.is_disconnected ch.inner

  unfoldable pub clone_sender : Channel N.Chan → Channel N.Chan
  clone_sender ch = record ch { inner = N.clone_sender ch.inner }

  -- `self.inner.send(t)?`
  unfoldable pub put : Channel N.Chan → T → Result (Unit {0}) T × Channel N.Chan
  put ch t = let (r, c) = N.send ch.inner t in (r, record ch { inner = c })

  -- The drop of the field `inner` of a sender.
  unfoldable pub drop_inner : Channel N.Chan → Channel N.Chan
  drop_inner ch = record ch { inner = N.drop_sender ch.inner }

  module _ {F : Type 0} where
    -- `Receiver::poll`
    unfoldable pub poll :
        Channel N.Chan → Machine F → Spins (Poll (Option T) (Unit {0}) × Channel N.Chan × Machine F)
    poll ch m =
        let (r, ch') = first_recv ch in
        elim r [
          | some p ↦ ok (some (p, ch', m))
          | none ↦ then_finish await_notification ch' m second_recv
        ]

    -- `Sender::send`
    unfoldable pub send :
        Channel N.Chan → Machine F → T → Spins (Result (Unit {0}) T × Channel N.Chan × Machine F)
    send ch m t =
        let (r, ch') = put ch t in
        elim r [
          | err e ↦ ok (some (err e, ch', m))
          | ok u ↦ then_finish notify ch' m (λ c. (ok tt, c))
        ]

    -- `SyncSender::start_send`
    unfoldable pub start_send :
        Channel N.Chan → Machine F → T → Spins (Result (AsyncSink T) T × Channel N.Chan × Machine F)
    start_send ch m item =
        let (r, c) = N.try_send ch.inner item in
        elim r [
          | ok u ↦ then_finish notify (record ch { inner = c }) m (λ d. (ok accepted, d))
          | err e ↦ elim e [
            | full t ↦ ok (some (ok (refused t), record ch { inner = c }, m))
            | closed t ↦ ok (some (err t, record ch { inner = c }, m))
          ]
        ]

    -- `Drop for Sender` and `Drop for SyncSender`, with the drop of the fields after it.
    unfoldable pub drop_sender :
        Channel N.Chan → Machine F → Spins (Unit {0} × Channel N.Chan × Machine F)
    drop_sender ch m = then_finish notify ch m (λ c. (tt, drop_inner c))

    -- `Drop for Receiver`, with the drop of its fields.
    unfoldable pub drop_receiver :
        Channel N.Chan → Machine F → Spins (Unit {0} × Channel N.Chan × Machine F)
    drop_receiver ch m =
        then_finish notify ch m (λ c. (tt, record c { inner = N.drop_receiver c.inner }))
