-- ===== src/Fiber/Tests.antt =====
-- Small runs of the scheduler (src/fiber), and its theorems at concrete inputs.
use fibers_rs.Prelude.{
  ℕ, zero, suc, ◌+◌, ◌<◌, ◌≡◌, refl, ◌⊎◌, true, false, none, some, [], ◌∷◌, arith, count,
}
use fibers_rs.Prelude.HashMap.{get, insert, remove, contains_key, len, is_some}
use fibers_rs.Prelude.Usize.{free_id}
use fibers_rs.Prelude.Results.{ok, not_ready, ready}
use fibers_rs.Poll.Handle.{PollerHandle}
use fibers_rs.Fiber.State.{FiberState, Unpark, Run, returns, park, yield_poll, new_state}
use fibers_rs.Fiber.Schedule.{
  spawn, wake_up, Machine, Scheduler, start, new_scheduler, new_context, handle_request,
  spawn_fiber, next_fiber_id, schedule, next_runnable, pop_runnable, send,
}
use fibers_rs.Fiber.Context.{
  begin_fiber, end_fiber, call, park_current, as_context, switch_context, cancel_park,
  poller_is_alive, no_fiber, is_runnable, is_not_ready, begin_drop, run_once, run_fiber, Turn,
}
use fibers_rs.Fiber.Invariant.{pending, here, held_at, Inv}
use fibers_rs.Fiber.Turns.{IsReady, IsTurn, run_once_lem}
use fibers_rs.Fiber.Scheduling.{popped, popped-Inv}
use fibers_rs.Fiber.Requests.{Spawned, spawn_fiber_lem}
use fibers_rs.Fiber.Running.{RunFiber, run_fiber_lem}
use fibers_rs.Fiber.Threads.{
  World, machine, Reach, new, later, receives, starts, calls, ends, drops, asks, no_lost_wakeup,
  IsSafe, Step-IsSafe, Reach-IsSafe, with_machine, parks_balance, context_pointer_valid, polled_id,
  start-Inv,
}

-- A future that parks once, then yields once, and then is done.
abbrev poll : ℕ → Run ℕ
poll zero = park (λ u. returns (ok not_ready) 1)
poll (suc zero) = yield_poll (returns (ok not_ready) 2)
poll (suc (suc n)) = returns (ok (ready tt)) n

abbrev alive : PollerHandle
alive = record { is_alive = true }

record Reached : Type 0 where
  world : World ℕ
  reach : Reach poll 7 alive world

-- Spawned, and about to run.
queued_world : Reached
unfolding start new_scheduler new_context send handle_request spawn_fiber next_fiber_id free_id len
    get contains_key insert remove schedule new_state
queued_world = record {
  world = _;
  reach = later (later new (asks _ (spawn 0))) (receives _ _ _ _ refl (omega arith) refl);
}

-- Polled once, parked, and its `Unpark` dropped by another thread: its wake-up is not sent yet.
unpark0 : Unpark
unpark0 = record { fiber_id = 0; unparks = 0; scheduler_id = 7 }

woken_world : Reached
unfolding queued_world unpark0 next_runnable pop_runnable begin_fiber switch_context poller_is_alive
    no_fiber cancel_park call park_current as_context end_fiber is_not_ready is_runnable begin_drop
woken_world = record {
  world = _;
  reach =
      later
        (later
          (later (later queued_world.reach (starts _ _ _ _ _ refl refl)) (calls _ _ _ _ _ refl))
          (ends _ _ _ _ _ refl))
        (drops _ unpark0 [] (here refl));
}

fiber0 : FiberState ℕ
fiber0 = record { fiber_id = 0; task = 1; parks = 1; unparks = 0; in_run_queue = false }

no_lost_wakeup_example :
    (count 0 (machine woken_world.world).run_queue ≡ 1)
    ⊎ (0 < pending (machine woken_world.world) 0)
unfolding woken_world fiber0 is_runnable
no_lost_wakeup_example = no_lost_wakeup poll woken_world.reach 0 fiber0 refl refl refl

Step-IsSafe_example :
    IsSafe poll (with_machine queued_world.world (send (machine queued_world.world) (wake_up 0)))
Step-IsSafe_example =
    Step-IsSafe poll (asks queued_world.world (wake_up 0)) (Reach-IsSafe poll queued_world.reach)

parks_balance_example :
    (machine woken_world.world).counters 0 + held_at 0 (machine woken_world.world).held ≡ 1
unfolding woken_world fiber0
parks_balance_example = parks_balance poll woken_world.reach 0 fiber0 refl

-- The first `poll` of the fiber has begun.
polling_world : Reached
unfolding queued_world next_runnable pop_runnable begin_fiber switch_context poller_is_alive
    no_fiber cancel_park
polling_world = record { world = _; reach = later queued_world.reach (starts _ _ _ _ _ refl refl) }

context_pointer_valid_example :
    (is_some (get (machine polling_world.world).fibers 0) ≡ true)
    × (polled_id poll polling_world.world ≡ some 0)
unfolding polling_world
context_pointer_valid_example = context_pointer_valid poll polling_world.reach 0 refl

abbrev fresh : Machine ℕ
fresh = start 7 alive

fresh-Inv : Inv none fresh
fresh-Inv = start-Inv poll 7 alive

fresh-IsReady : IsReady fresh
unfolding start new_scheduler new_context switch_context poller_is_alive
fresh-IsReady = record { inv = start-Inv poll 7 alive; free = refl; alive = refl }

run_once_lem_example :
    (t : Turn ℕ) × (run_once poll fresh true (spawn 0 ∷ []) ≡ ok t) × IsTurn poll true t
unfolding start new_scheduler len
run_once_lem_example = run_once_lem poll fresh true (spawn 0 ∷ []) fresh-IsReady (omega arith)

spawn_fiber_lem_example : Spawned fresh 0 (spawn_fiber fresh 0)
unfolding start new_scheduler len
spawn_fiber_lem_example = spawn_fiber_lem fresh 0 fresh-Inv (omega arith)

-- The next identifier is the last one and is taken: the search goes on at 0.
abbrev wrapping_scheduler : Scheduler ℕ
wrapping_scheduler = record {
  scheduler_id = 7;
  next_id = 18446744073709551615;
  fibers = (18446744073709551615, new_state 18446744073709551615 0 0) ∷ [];
  run_queue = [];
  requests = [];
  poller = alive;
}

next_fiber_id_wraps :
    next_fiber_id wrapping_scheduler ≡ ok (0, record wrapping_scheduler { next_id = 1 })
unfolding next_fiber_id free_id len contains_key get
next_fiber_id_wraps = refl

abbrev queued_machine : Machine ℕ
queued_machine = machine queued_world.world

abbrev queued0 : FiberState ℕ
queued0 = record { fiber_id = 0; task = 0; parks = 0; unparks = 0; in_run_queue = true }

abbrev popped_machine : Machine ℕ
popped_machine = record queued_machine { scheduler = popped queued_machine.scheduler 0 [] queued0 }

popped_machine-Inv : Inv (some 0) popped_machine
unfolding queued_world
popped_machine-Inv =
    popped-Inv queued_machine 0 [] queued0 refl refl (Reach-IsSafe poll queued_world.reach).0

run_fiber_lem_example :
    RunFiber poll popped_machine 0
      (record queued0 { in_run_queue = false })
      (run_fiber poll popped_machine 0)
unfolding queued_world switch_context poller_is_alive
run_fiber_lem_example =
    run_fiber_lem poll popped_machine 0 (record queued0 { in_run_queue = false }) refl refl refl
      refl popped_machine-Inv
