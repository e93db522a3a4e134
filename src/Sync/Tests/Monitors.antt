-- ===== src/Sync/Tests/Monitors.antt =====
-- Monitors and links (src/sync/oneshot.rs): the theorems about them at concrete inputs.
use fibers_rs.Prelude.{ℕ, ◌≡◌, refl, true, none, some, []}
use fibers_rs.Prelude.HashMap.{get}
use fibers_rs.Prelude.Results.{Result, ok, err}
use fibers_rs.Fiber.Schedule.{Machine}
use fibers_rs.Fiber.Context.{is_runnable, take_held}
use fibers_rs.Fiber.Threads.{machine, Reach-IsSafe}
use fibers_rs.Sync.Notifier.{IsWoken, new_notifier}
use fibers_rs.Sync.Halves.{Channel}
use fibers_rs.Sync.Oneshot
use fibers_rs.Sync.Oneshot.{Nb, exit, poll_monitor, monitored, aborted}
use fibers_rs.Sync.Oneshot.Links.{Link, peer, drop_link, poll_link}
use fibers_rs.Sync.Oneshot.Linking.{drop_link-peer}
use fibers_rs.Sync.CellChan.{cell_chan}
use fibers_rs.Sync.Tests.{poll, fiber0, waiter0, parked_world}
use fibers_rs.SyncAtomic

abbrev cells : Nb (Result ℕ ℕ)
cells = cell_chan (Result ℕ ℕ)

-- Fiber 0 waits at a monitor.
abbrev monitored0 : Channel cells.Chan
monitored0 = record {
  inner = cells.new;
  notifier = record { unpark = record { inner = some (some waiter0) } };
}

-- Fiber 0 waits at its half of a link pair; the other half has not been polled.
abbrev linked0 : Link cells.Chan cells.Chan
linked0 = record { tx = monitored0; rx = Oneshot.channel cells }

drop_link-peer_example :
    (l : Link cells.Chan cells.Chan) × (m : Machine ℕ) × (drop_link cells cells linked0
        (machine parked_world.world)
      ≡ ok (some (tt, l, m)))
    × (get m.fibers 0 ≡ some fiber0)
    × (is_runnable m fiber0 ≡ true)
    × IsWoken (machine parked_world.world).context.fiber m 0 fiber0
    × ((m2 : Machine ℕ) → poll_link cells cells (peer l) m2 ≡ ok (some (err aborted, peer l, m2)))
unfolding parked_world take_held get Oneshot.channel new_notifier SyncAtomic.new
drop_link-peer_example =
    drop_link-peer cells cells linked0 (machine parked_world.world) none waiter0 [] 0 fiber0 refl
      refl refl refl refl refl (Reach-IsSafe poll parked_world.reach).0
