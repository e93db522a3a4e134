-- ===== src/Executor/Tests.antt =====
-- Small executors (src/executor), and the theorems about them at concrete inputs.
use fibers_rs.Prelude.{
  ℕ, suc, ◌+◌, ◌≡◌, ◌≢◌, refl, Bool, true, false, [], ◌∷◌, length, arith, ◌⊎◌, List, inl, inr,
  Option, some, none,
}
use fibers_rs.Prelude.HashMap.{insert, contains_key, get, len}
use fibers_rs.Prelude.Results.{Result, ok, err, Fault, Poll, ready, not_ready}
use fibers_rs.Poll.ListMio.{list_mio}
use fibers_rs.Poll.Handle.{PollerHandle}
use fibers_rs.Poll.Mio.{Ready}
use fibers_rs.Collections.Tree.{SplayMap}
use fibers_rs.Collections.ListMap.{key_ord, list_map}
use fibers_rs.Collections.ListMap as ListMap
use fibers_rs.Prelude.Usize.{free_id}
use fibers_rs.Fiber.State.{new_state, Run, returns, park, Unpark}
use fibers_rs.Fiber.Schedule.{start, new_scheduler, new_context, spawn, wake_up, Request}
use fibers_rs.Fiber.Schedule as Schedule
use fibers_rs.Fiber.Context as Context
use fibers_rs.Poll.Poller as Pollers
use fibers_rs.Collections.Drain.{drain}
use fibers_rs.Collections.{pop_if, heap_len}
use fibers_rs.Fiber.Context.{switch_context, poller_is_alive}
use fibers_rs.Fiber.Calls.{send-Inv}
use fibers_rs.Fiber.Turns.{IsReady}
use fibers_rs.Fiber.Threads.{start-Inv}
use fibers_rs.Poll.Poller.{Registrant, Poller, monitor, read, mio_interest}
use fibers_rs.Poll.Poller.Waiting.{IsArmed}
use fibers_rs.Poll.Poller.Requests.{none_exempt}
use fibers_rs.Executor.InPlace as InPlace
use fibers_rs.Executor.InPlace.{InPlaceExecutor, Once, run_once-Once}
use fibers_rs.Executor.ThreadPool.{
  ThreadPool, run_once, assign, spawn_boxed, with_thread_count, start_schedulers, new_pollers,
}
use fibers_rs.Executor.ThreadPool.Rounds.{
  Ran, run_once-Ran, none_yet, one_more, Got, run_once_spread,
}
use fibers_rs.Executor.ThreadPool.Starting.{unused, spawned, with_thread_count-Ran}
use fibers_rs.Executor.Futures.{run_future, Stopped, run_future-Stopped, run, run-Failed, Failed}

-- Three schedulers, the second of which is next, and two fibers to deal out.
abbrev pool0 : ThreadPool ℕ ℕ
pool0 = record {
  schedulers = (10 ∷ []) ∷ [] ∷ [] ∷ [];
  links = 50 ∷ 60 ∷ 70 ∷ [];
  spawn_queue = 20 ∷ 21 ∷ [];
  round = 1;
  steps = 5;
}

-- Every link is fine, and counts its polls.
abbrev all_fine : ℕ → Bool × ℕ
all_fine n = (false, n + 1)

run_once-Ran_example : Ran all_fine pool0 (run_once all_fine pool0)
run_once-Ran_example = run_once-Ran all_fine pool0 (omega arith) refl

abbrev pool1 : ThreadPool ℕ ℕ
pool1 = record pool0 {
  schedulers = (10 ∷ []) ∷ (20 ∷ []) ∷ [] ∷ [];
  links = 51 ∷ 60 ∷ 70 ∷ [];
  spawn_queue = 21 ∷ [];
  round = 2;
  steps = 6;
}

pool0_turn : run_once all_fine pool0 ≡ ok (ok tt, pool1)
unfolding run_once assign
pool0_turn = refl

abbrev pool3 : ThreadPool ℕ ℕ
pool3 = record pool1 {
  schedulers = (10 ∷ []) ∷ (20 ∷ []) ∷ (21 ∷ []) ∷ [];
  links = 51 ∷ 61 ∷ 70 ∷ [];
  spawn_queue = [];
  round = 3;
  steps = 7;
}

pool1_turn : run_once all_fine pool1 ≡ ok (ok tt, pool3)
unfolding run_once assign
pool1_turn = refl

run_once_spread_example : (a b : ℕ) × (a ≢ b) × Got pool0 pool1 a × Got pool1 pool3 b
run_once_spread_example =
    run_once_spread all_fine 0 1 pool0 pool0 pool1 pool1 pool3 (ok tt) (ok tt) (none_yet pool0)
      pool0_turn (one_more 0 pool0 pool1 pool1 (ok tt) pool0_turn (none_yet pool1)) pool1_turn
      (omega arith) (omega arith) (omega arith) refl (omega arith)

abbrev new_poller : ℕ → Result ℕ (Unit {0}) × ℕ
new_poller n = (ok n, n + 1)

abbrev pool2 : ThreadPool ℕ ℕ
pool2 = record {
  schedulers = [] ∷ [] ∷ [];
  links = 100 ∷ 101 ∷ [];
  spawn_queue = [];
  round = 0;
  steps = 0;
}

-- The link to the thread of a poller's scheduler
abbrev new_link : ℕ → ℕ
new_link n = n + 100

pool2_made : with_thread_count new_poller new_link 2 0 ≡ ok (ok pool2, 2)
unfolding with_thread_count start_schedulers new_pollers
pool2_made = refl

with_thread_count-Ran_example :
    (length (spawn_boxed pool2 30).schedulers ≡ 2)
    × (length (spawn_boxed pool2 30).links ≡ 2)
    × Ran all_fine (spawn_boxed pool2 30) (run_once all_fine (spawn_boxed pool2 30))
with_thread_count-Ran_example =
    with_thread_count-Ran new_poller new_link 2 0 2 all_fine pool2 (spawn_boxed pool2 30) pool2_made
      (spawned pool2 (spawn_boxed pool2 30) 30 (unused (spawn_boxed pool2 30)))

-- A reader and a writer wait for object 5.
abbrev timeouts : SplayMap (ℕ × ℕ) ℕ key_ord
timeouts = list_map (ℕ × ℕ) ℕ key_ord

abbrev both : Ready
both = record { readable = true; writable = true }

abbrev registrant0 : Registrant ℕ
registrant0 = record {
  is_first = false;
  evented = 5;
  read_waitings = 31 ∷ [];
  write_waitings = 32 ∷ [];
}

abbrev poller0 : Poller ℕ ℕ list_mio.Poll timeouts.Map
poller0 = record {
  os_poll = (5, (0, both)) ∷ [];
  requests = [];
  next_token = 1;
  registrants = (0, registrant0) ∷ [];
  timeout_queue = record { inner = ((9, 0), 70) ∷ [] };
  effects = [];
}

poller0-IsArmed : IsArmed list_mio timeouts none_exempt poller0
unfolding get mio_interest
poller0-IsArmed = record {
  armed = λ t r e wanted free. ground (arith, e, wanted);
  apart = λ t u r s e f q. ground (arith, e, f);
  first = λ t r e f. ground (arith, e, f);
  known = λ e t i q. (registrant0, ground (arith, q), ground (arith, q));
}

-- Every fiber parks, and waits.
abbrev poll_fiber : ℕ → Run ℕ
poll_fiber n = park (λ u. returns (ok not_ready) n)

abbrev alive : PollerHandle
alive = record { is_alive = true }

-- A fiber has been spawned.
abbrev executor0 : InPlaceExecutor ℕ (Poller ℕ ℕ list_mio.Poll timeouts.Map)
executor0 = record { scheduler = Schedule.send (start 7 alive) (spawn 0); poller = poller0 }

executor0-IsReady : IsReady executor0.scheduler
unfolding start new_scheduler new_context switch_context poller_is_alive Schedule.send
executor0-IsReady = record {
  inv = send-Inv (start 7 alive) (spawn 0) (start-Inv poll_fiber 7 alive);
  free = refl;
  alive = refl;
}

-- Fiber 0 waits for object 5 to be read, and nobody for anything else.
abbrev unpark_of : ℕ ⊎ ℕ → Option Unpark
unpark_of (inl monitored) = some (record { fiber_id = 0; scheduler_id = 7; unparks = 0 })
unpark_of (inr reply) = none

run_once-Once_example :
    Once poll_fiber list_mio timeouts unpark_of executor0
      (monitor 0 read 33 ∷ [])
      (InPlace.run_once poll_fiber list_mio timeouts unpark_of executor0 (monitor 0 read 33 ∷ []) 5)
unfolding start new_scheduler len get contains_key Schedule.send
run_once-Once_example =
    run_once-Once poll_fiber list_mio timeouts unpark_of executor0 (monitor 0 read 33 ∷ []) 5
      executor0-IsReady (omega arith) poller0-IsArmed (refl, tt)

abbrev requests_after :
    Result (Result (Unit {0}) ℕ × InPlaceExecutor ℕ (Poller ℕ ℕ list_mio.Poll timeouts.Map)) Fault
    → List (Request ℕ)
requests_after (ok (r, ex)) = ex.scheduler.requests
requests_after (err e) = []

-- Fiber 0 parks; the event at object 5 wakes it in the same turn.
woken_by_event :
    requests_after
      (InPlace.run_once poll_fiber list_mio timeouts unpark_of executor0 (monitor 0 read 33 ∷ []) 5)
    ≡ wake_up 0 ∷ []
unfolding InPlace.run_once InPlace.poll_and_notify Context.run_once Context.run_loop
    Context.run_next Context.run_fiber Context.receive Context.end_fiber Context.begin_fiber
    Context.is_runnable Context.cancel_park Context.switch_context Context.exec Context.drop_held
    Context.begin_drop Context.park_current Context.as_context Context.take_held
    Context.is_not_ready Context.poller_is_alive Context.no_fiber Context.current_context_id
    Schedule.send Schedule.handle_request Schedule.spawn_fiber Schedule.next_runnable
    Schedule.pop_runnable Schedule.schedule Schedule.next_fiber_id Schedule.fiber_count
    Schedule.run_queue_len start new_scheduler new_context len get contains_key Pollers.poll
    Pollers.poll_events Pollers.handle_events Pollers.handle_event Pollers.os_timeout Pollers.expire
    Pollers.handle_request Pollers.register_again Pollers.mio_register Pollers.notified
    Pollers.without_notified Pollers.add_waiting mio_interest drain pop_if heap_len ListMap.size
    ListMap.get ListMap.smallest ListMap.smaller insert free_id new_state
woken_by_event = refl

-- A future that is ready when the executor has counted to 3.
abbrev count_turn : ℕ → Result (Result (Unit {0}) ℕ × ℕ) Fault
count_turn n = ok (ok tt, n + 1)

abbrev when_three : ℕ → Poll ℕ ℕ × ℕ
when_three (suc (suc (suc n))) = (ok (ready n), suc (suc (suc n)))
when_three n = (ok not_ready, n)

run_future-Stopped_example :
    Stopped count_turn when_three 2 1 (run_future count_turn when_three 2 1)
run_future-Stopped_example = run_future-Stopped count_turn when_three 2 1

abbrev fails_at_two : ℕ → Result (Result (Unit {0}) ℕ × ℕ) Fault
fails_at_two (suc (suc n)) = ok (err n, 9)
fails_at_two n = ok (ok tt, n + 1)

run-Failed_example : Failed fails_at_two 1 9 (err 0)
unfolding run
run-Failed_example = run-Failed fails_at_two 5 1 9 (err 0) refl
