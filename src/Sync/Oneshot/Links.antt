-- ===== src/Sync/Oneshot/Links.antt =====
-- src/sync/oneshot.rs: link pairs, two monitor channels with which each of two sides sees how the other
-- one ends.
use fibers_rs.Prelude.{none, some}
use fibers_rs.Prelude.Results.{Result, ok, Poll, ◌>>=◌}
use fibers_rs.Fiber.Schedule.{Machine}
use fibers_rs.Sync.Halves.{Channel, Spins}
use fibers_rs.Sync.Oneshot.{
  Nb, MonitorError, channel, exit, drop_sender, drop_receiver, poll_monitor,
}

-- `Monitored` and `Monitor` are the two ends of a channel of results.
unfoldable pub monitor : {T E : Type 0} (N : Nb (Result T E)) → Channel N.Chan
unfolding channel
monitor N = channel N

-- A link, with the channels that it shares with its peer.
pub record Link (C0 C1 : Type 0) : Type 0 where
  pub tx : Channel C0
  pub rx : Channel C1

abbrev pub peer : {C0 C1 : Type 0} → Link C0 C1 → Link C1 C0
peer l = record { tx = l.rx; rx = l.tx }

module _ {T0 E0 T1 E1 : Type 0} (N0 : Nb (Result T0 E0)) (N1 : Nb (Result T1 E1)) where
  unfoldable pub link : Link N0.Chan N1.Chan × Link N1.Chan N0.Chan
  unfolding monitor
  link =
      let chan0 = monitor N0 in
      let chan1 = monitor N1 in
      (record { tx = chan0; rx = chan1 }, record { tx = chan1; rx = chan0 })

  module _ {F : Type 0} where
    -- The drop of the field `rx`.
    unfoldable pub drop_rx :
        Link N0.Chan N1.Chan → Machine F → Spins (Unit {0} × Link N0.Chan N1.Chan × Machine F)
    unfolding drop_receiver
    drop_rx l m = drop_receiver N1 l.rx m >>= λ w. elim w [
      | none ↦ ok none
      | some (u, rx, m') ↦ ok (some (tt, record l { rx = rx }, m'))
    ]

    -- `Link::exit`; the rest of the link is dropped.
    unfoldable pub exit_link :
        Link N0.Chan N1.Chan
        → Machine F
        → Result T0 E0
        → Spins (Unit {0} × Link N0.Chan N1.Chan × Machine F)
    unfolding exit drop_rx
    exit_link l m result = exit N0 l.tx m result >>= λ w. elim w [
      | none ↦ ok none
      | some (u, tx, m') ↦ drop_rx (record l { tx = tx }) m'
    ]

    -- The drop of a link: that of `tx`, then that of `rx`.
    unfoldable pub drop_link :
        Link N0.Chan N1.Chan → Machine F → Spins (Unit {0} × Link N0.Chan N1.Chan × Machine F)
    unfolding drop_sender drop_rx
    drop_link l m = drop_sender N0 l.tx m >>= λ w. elim w [
      | none ↦ ok none
      | some (u, tx, m') ↦ drop_rx (record l { tx = tx }) m'
    ]

    -- `Link::poll`
    unfoldable pub poll_link :
        Link N0.Chan N1.Chan
        → Machine F
        → Spins (Poll T1 (MonitorError E1) × Link N0.Chan N1.Chan × Machine F)
    unfolding poll_monitor
    poll_link l m = poll_monitor N1 l.rx m >>= λ w. elim w [
      | none ↦ ok none
      | some (r, rx, m') ↦ ok (some (r, record l { rx = rx }, m'))
    ]
