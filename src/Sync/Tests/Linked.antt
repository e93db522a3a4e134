-- ===== src/Sync/Tests/Linked.antt =====
-- Linked fibers (src/fiber/mod.rs) over small link pairs: the theorems about them at concrete inputs.
use fibers_rs.Prelude.{ℕ, ◌≡◌, refl, true, none, some, []}
use fibers_rs.Prelude.HashMap.{get}
use fibers_rs.Prelude.Results.{Result, ok, err, ready, not_ready, Poll}
use fibers_rs.Fiber.Schedule.{Machine}
use fibers_rs.Fiber.Context.{is_runnable, take_held}
use fibers_rs.Fiber.Threads.{machine, Reach-IsSafe}
use fibers_rs.Fiber.Linked.{poll_linked}
use fibers_rs.Fiber.Linked.Ending.{link_half, poll_linked-peer, drop_link-poll_linked}
use fibers_rs.Sync.Notifier.{IsWoken, Notifier, new_notifier}
use fibers_rs.Sync.Oneshot.{Nb, channel, monitored}
use fibers_rs.Sync.Oneshot.Links.{Link, peer, drop_link, poll_link}
use fibers_rs.Sync.CellChan.{cell_chan}
use fibers_rs.Sync.Tests.{poll, fiber0, waiter0, parked_world}
use fibers_rs.SyncAtomic

abbrev results : Nb (Result ℕ ℕ)
results = cell_chan (Result ℕ ℕ)

abbrev units : Nb (Result (Unit {0}) (Unit {0}))
units = cell_chan (Result (Unit {0}) (Unit {0}))

-- Fiber 0 waits there.
abbrev awaited0 : Notifier
awaited0 = record { unpark = record { inner = some (some waiter0) } }

abbrev Shared : Type 0
Shared = Link results.Chan units.Chan × Machine ℕ

-- A future that fails with its state, and one that is never ready.
abbrev fails : ℕ → Shared → Poll ℕ ℕ × ℕ × Shared
fails n s = (err n, n, s)

abbrev never : ℕ → Shared → Poll ℕ ℕ × ℕ × Shared
never n s = (ok not_ready, n, s)

-- Fiber 0 waits for the end of the linked fiber.
abbrev watched : Link results.Chan units.Chan
watched = record { tx = record { inner = results.new; notifier = awaited0 }; rx = channel units }

poll_linked-peer_example :
    (l : Link results.Chan units.Chan) × (m : Machine ℕ) × (poll_linked fails
        (link_half results units)
        (some (4, tt))
        (watched, machine parked_world.world)
      ≡ ok (ok (ready tt), none, (l, m)))
    × (get m.fibers 0 ≡ some fiber0)
    × (is_runnable m fiber0 ≡ true)
    × IsWoken (machine parked_world.world).context.fiber m 0 fiber0
    × ((m2 : Machine ℕ)
        → (after : Link units.Chan results.Chan) × (poll_link units results (peer l) m2
            ≡ ok (some (monitored (ok (ready (err 4))), after, m2))))
unfolding parked_world take_held get channel new_notifier SyncAtomic.new
poll_linked-peer_example =
    poll_linked-peer results units fails 4 4 watched (machine parked_world.world)
      (machine parked_world.world) (err 4) none waiter0 [] 0 fiber0 refl refl refl refl refl refl
      refl (Reach-IsSafe poll parked_world.reach).0

-- Fiber 0 is the linked fiber, and waits.
abbrev owned : Link units.Chan results.Chan
owned = record { tx = record { inner = units.new; notifier = awaited0 }; rx = channel results }

drop_link-poll_linked_example :
    (l : Link units.Chan results.Chan) × (m : Machine ℕ) × (drop_link units results owned
        (machine parked_world.world)
      ≡ ok (some (tt, l, m)))
    × (get m.fibers 0 ≡ some fiber0)
    × (is_runnable m fiber0 ≡ true)
    × IsWoken (machine parked_world.world).context.fiber m 0 fiber0
    × ((m1 : Machine ℕ)
        → (s : Shared) × (poll_linked never (link_half results units) (some (4, tt)) (peer l, m1)
            ≡ ok (ok (ready tt), none, s)))
unfolding parked_world take_held get channel new_notifier SyncAtomic.new
drop_link-poll_linked_example =
    drop_link-poll_linked results units never owned (machine parked_world.world) none waiter0 [] 0
      fiber0 4 (λ s. (4, s.1, refl)) refl refl refl refl refl refl
      (Reach-IsSafe poll parked_world.reach).0
