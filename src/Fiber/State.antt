-- ===== src/Fiber/State.antt =====
-- src/fiber/mod.rs: a fiber's state in its scheduler, the park and unpark counters, and the calls
-- that a future makes of this library while it is polled.
use fibers_rs.Prelude.{ℕ, Bool, false, Option}
use fibers_rs.Prelude.Results.{Poll}

abbrev pub FiberId : Type 0
FiberId = ℕ

abbrev pub SchedulerId : Type 0
SchedulerId = ℕ

abbrev pub ContextId : Type 0
ContextId = SchedulerId × FiberId

-- `unparks` names the shared counter (`Arc<AtomicUsize>`); the counters' values are in `Machine`.
pub record FiberState (F : Type 0) : Type 0 where
  pub fiber_id : FiberId
  pub task : F
  pub parks : ℕ
  pub unparks : ℕ
  pub in_run_queue : Bool

-- The handle of the scheduler is left out: it is that of the scheduler that `scheduler_id` names.
pub record Unpark : Type 0 where
  pub fiber_id : FiberId
  pub unparks : ℕ
  pub scheduler_id : SchedulerId

unfoldable pub context_id : Unpark → ContextId
context_id u = (u.scheduler_id, u.fiber_id)

-- `FiberState::new`, given the name of a new counter.
unfoldable pub new_state : {F : Type 0} → FiberId → F → ℕ → FiberState F
new_state fiber_id task unparks = record {
  fiber_id = fiber_id;
  task = task;
  parks = 0;
  unparks = unparks;
  in_run_queue = false;
}

-- What `poll` of a fiber's future does, seen from the library: the calls that it makes, each with
-- what follows on its answer, and at the end the result and the future that is left.
pub data Run (F : Type 0) : Type 0 where
  returns : Poll (Unit {0}) (Unit {0}) → F → Run F
  -- `with_current_context(|c| c.park())`
  park : (Option Unpark → Run F) → Run F
  -- `with_current_context(|c| c.context_id())`
  get_context_id : (Option ContextId → Run F) → Run F
  -- `yield_poll()`
  yield_poll : Run F → Run F
  -- `with_current_context(|c| ..)` with a use of `c.poller()` that may find the poller gone
  lose_poller : Run F → Run F
  -- `SchedulerHandle::spawn_boxed`, `SchedulerHandle::wakeup`, and the drop of an `Unpark`
  spawn_boxed : F → Run F → Run F
  wakeup : FiberId → Run F → Run F
  drop_unpark : Unpark → Run F → Run F
