-- ===== src/Sync/Tests/Values.antt =====
-- A value sent through the channel of src/sync/oneshot.rs while its receiver waits.
use fibers_rs.Prelude.{ℕ, ◌≡◌, ◌≢◌, refl, none, [], ◌∷◌, arith}
use fibers_rs.Prelude.HashMap.{get, insert}
use fibers_rs.Fiber.Context.{park_current, as_context, current_context_id}
use fibers_rs.Fiber.Threads.{machine}
use fibers_rs.SyncAtomic.{try_borrow_mut, drop_borrow, swap}
use fibers_rs.SyncAtomic
use fibers_rs.Sync.Notifier.{new_notifier, await_notification, borrow_round, awaited}
use fibers_rs.Sync.CellChan.{cell_chan, try_recv}
use fibers_rs.Sync.CellChan
use fibers_rs.Sync.Oneshot.{Nb, channel, first_try, second_try, put_value, value_result}
use fibers_rs.Sync.Oneshot.Cell.{Runs, full, gives, sees_nothing, internal}
use fibers_rs.Sync.Oneshot.Steps.{
  System, Reach, start, later, begins, awaits, retries, puts, notifying,
}
use fibers_rs.Sync.Oneshot.Refined.{Reach-Trace, no_lost_value}
use fibers_rs.Sync.Tests.{polling_world, parked_world, waiter0}

abbrev cells : Nb ℕ
cells = cell_chan ℕ

record ReachedCell : Type 0 where
  system : System cells.Chan ℕ ℕ
  reach : Reach cells (machine polling_world.world) system

-- The receiver is not ready, and then the sender has put the value and not yet notified.
late_value : ReachedCell
unfolding polling_world parked_world channel first_try second_try put_value await_notification
    borrow_round awaited current_context_id park_current as_context get insert new_notifier
    try_borrow_mut drop_borrow try_recv CellChan.send value_result SyncAtomic.new swap
late_value = record {
  system = _;
  reach =
      later
        (later (later (later start (begins _ _ refl refl)) (awaits _ _ _ refl refl))
          (retries _ _ _ refl refl))
        (puts _ _ 5 refl refl);
}

Reach-Trace_example : Runs {T = ℕ} (sees_nothing ∷ internal ∷ sees_nothing ∷ gives 5 ∷ []) (full 5)
unfolding late_value
Reach-Trace_example = Reach-Trace cells late_value.reach

late_value-there : cells.value late_value.system.chan.inner ≢ none
unfolding late_value
late_value-there e = ground (arith, e)

no_lost_value_example : late_value.system.sender ≡ notifying
unfolding late_value
no_lost_value_example = no_lost_value cells late_value.reach waiter0 refl refl late_value-there
