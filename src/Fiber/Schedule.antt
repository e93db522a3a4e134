-- ===== src/Fiber/Schedule.antt =====
-- src/fiber/schedule.rs with `FiberState` of src/fiber/mod.rs: one scheduler, the thread that runs it
-- and the objects that it shares with other threads.
use fibers_rs.Prelude.{
  ℕ, ◌+◌, true, false, not, Option, none, some, List, [], ◌∷◌, ◌++◌, length, ◌==◌, if◌then◌else◌,
}
use fibers_rs.Prelude.HashMap.{HashMap, get, contains_key, insert, len}
use fibers_rs.Prelude.Usize.{free_id, wrapping_add}
use fibers_rs.Prelude.Results.{Result, ok, err, Fault, panic, diverges, ◌>>=◌}
use fibers_rs.Poll.Handle.{PollerHandle}
use fibers_rs.Fiber.State.{FiberId, SchedulerId, FiberState, new_state, Unpark}

pub data Request (F : Type 0) : Type 0 where
  spawn : F → Request F
  wake_up : FiberId → Request F

-- `requests` is the content of the channel `request_tx`, `request_rx` (`std::sync::mpsc`), oldest
-- first: the scheduler holds a sender, so the channel is never disconnected.
pub record Scheduler (F : Type 0) : Type 0 where
  pub scheduler_id : SchedulerId
  pub next_id : FiberId
  pub fibers : HashMap (FiberState F)
  pub run_queue : List FiberId
  pub requests : List (Request F)
  pub poller : PollerHandle

-- The handle of a scheduler is its channel, and so is left out.
pub record CurrentScheduler : Type 0 where
  pub id : SchedulerId
  pub poller : PollerHandle

-- The raw pointer `*mut FiberState` is the identifier of the fiber.
pub record InnerContext : Type 0 where
  pub scheduler : Option CurrentScheduler
  pub fiber : Option FiberId

-- A scheduler, `CURRENT_CONTEXT` of its thread, and the counters behind the `Arc<AtomicUsize>`s.
-- What the program has no variable for: `held` lists the `Unpark` objects that exist, `sending` the
-- wake-ups of drops that are between `fetch_add` and `send`, and `owner` the fiber for which a counter
-- was made. No operation of the scheduler reads `owner` or `sending`.
pub record Machine (F : Type 0) : Type 0 where
  pub scheduler : Scheduler F
  pub open scheduler use {scheduler_id, next_id, fibers, run_queue, requests}
  pub context : InnerContext
  pub counters : ℕ → ℕ
  pub next_counter : ℕ
  pub held : List Unpark
  pub sending : List FiberId
  pub owner : ℕ → FiberId

abbrev pub update : (ℕ → ℕ) → ℕ → ℕ → ℕ → ℕ
update f a v j = if a == j then v else f j

-- `InnerContext::new`
unfoldable pub new_context : InnerContext
new_context = record { scheduler = none; fiber = none }

module _ {F : Type 0} where
  -- `Scheduler::new`; the first argument is `NEXT_SCHEDULER_ID`, which comes back increased.
  unfoldable pub new_scheduler : SchedulerId → PollerHandle → Scheduler F × SchedulerId
  new_scheduler next_scheduler_id poller = (
    record {
      scheduler_id = next_scheduler_id;
      next_id = 0;
      fibers = [];
      run_queue = [];
      requests = [];
      poller = poller;
    },
    wrapping_add next_scheduler_id 1,
  )

  -- A new scheduler on a thread of its own.
  unfoldable pub start : SchedulerId → PollerHandle → Machine F
  unfolding new_scheduler new_context
  start next_scheduler_id poller = record {
    scheduler = (new_scheduler next_scheduler_id poller).0;
    context = new_context;
    counters = λ a. 0;
    next_counter = 0;
    held = [];
    sending = [];
    owner = λ a. 0;
  }

  unfoldable pub run_queue_len : Scheduler F → ℕ
  run_queue_len s = length s.run_queue

  unfoldable pub fiber_count : Scheduler F → ℕ
  fiber_count s = len s.fibers

  -- `next_fiber_id`; the fuel is enough (`free_id_total`).
  unfoldable pub next_fiber_id : Scheduler F → Result (FiberId × Scheduler F) Fault
  next_fiber_id s = elim (free_id (len s.fibers + 1) (contains_key s.fibers) s.next_id) [
    | none ↦ err diverges
    | some (id, next) ↦ ok (id, record s { next_id = next })
  ]

  unfoldable pub schedule : Scheduler F → FiberId → Result (Scheduler F) Fault
  schedule s fiber_id = elim (get s.fibers fiber_id) [
    | none ↦ err panic
    | some fiber ↦ ok (
        if not fiber.in_run_queue
        then record s {
          run_queue = s.run_queue ++ fiber_id ∷ [];
          fibers = insert s.fibers fiber_id (record fiber { in_run_queue = true });
        }
        else s)
  ]

  -- The loop of `next_runnable` over the run queue.
  unfoldable pub pop_runnable : List FiberId → Scheduler F → Option FiberId × Scheduler F
  pop_runnable [] s = (none, record s { run_queue = [] })
  pop_runnable (fiber_id ∷ queue) s = elim (get s.fibers fiber_id) [
    | none ↦ pop_runnable queue s
    | some fiber ↦ (
      some fiber_id,
      record s {
        run_queue = queue;
        fibers = insert s.fibers fiber_id (record fiber { in_run_queue = false });
      },
    )
  ]

  unfoldable pub next_runnable : Scheduler F → Option FiberId × Scheduler F
  unfolding pop_runnable
  next_runnable s = pop_runnable s.run_queue s

  unfoldable pub spawn_fiber : Machine F → F → Result (Machine F) Fault
  spawn_fiber m task = do
    r ← next_fiber_id m.scheduler
    let fiber = new_state r.0 task m.next_counter
    let s = r.1
    s' ← schedule (record s { fibers = insert s.fibers r.0 fiber }) r.0
    ok (record m {
      scheduler = s';
      counters = update m.counters m.next_counter 0;
      owner = update m.owner m.next_counter r.0;
      next_counter = m.next_counter + 1;
    })

  unfoldable pub handle_request : Machine F → Request F → Result (Machine F) Fault
  handle_request m (spawn task) = spawn_fiber m task
  handle_request m (wake_up fiber_id) =
      if contains_key m.fibers fiber_id
      then (do s ← schedule m.scheduler fiber_id; ok (record m { scheduler = s }))
      else ok m

  -- `request_tx.send(..)` by any holder of a handle
  unfoldable pub send : Machine F → Request F → Machine F
  send m r = record m { scheduler = record (m.scheduler) { requests = m.requests ++ r ∷ [] } }
