-- ===== src/Fiber/Fairness/Tests.antt =====
-- Two queued fibers (src/fiber/schedule.rs): the second one is polled by the second call of `run_once`.
use fibers_rs.Prelude.{ℕ, ◌≡◌, refl, sym, subst, ap, ◌<◌, true, false, none, [], ◌∷◌, arith}
use fibers_rs.Prelude.HashMap.{get, contains_key, insert, remove, len}
use fibers_rs.Prelude.Usize.{free_id, usize_mod}
use fibers_rs.Prelude.Results.{ok, not_ready}
use fibers_rs.Poll.Handle.{PollerHandle}
use fibers_rs.Fiber.State.{Run, returns, yield_poll, new_state}
use fibers_rs.Fiber.Schedule.{
  Machine, spawn, start, new_scheduler, new_context, handle_request, spawn_fiber, next_fiber_id,
  schedule, next_runnable, pop_runnable,
}
use fibers_rs.Fiber.Context.{
  switch_context, poller_is_alive, run_once, run_loop, run_next, run_fiber, receive, begin_fiber,
  end_fiber, exec, cancel_park, no_fiber, is_runnable, is_not_ready, yield_current, as_context,
  Turn, done,
}
use fibers_rs.Fiber.Invariant.{Inv}
use fibers_rs.Fiber.Requests.{rest_of, handle_request_lem}
use fibers_rs.Fiber.Turns.{IsReady, IsTurn, returned, blocked, run_once_lem, Handled-IsReady}
use fibers_rs.Fiber.Threads.{start-Inv}
use fibers_rs.Fiber.Fairness.{no_call, called, queued_fiber_runs}

-- A future that yields each time.
abbrev poll : ℕ → Run ℕ
poll n = yield_poll (returns (ok not_ready) n)

abbrev alive : PollerHandle
alive = record { is_alive = true }

abbrev fresh : Machine ℕ
fresh = start 7 alive

fresh-IsReady : IsReady fresh
unfolding start new_scheduler new_context switch_context poller_is_alive
fresh-IsReady = record { inv = start-Inv poll 7 alive; free = refl; alive = refl }

record TwoQueued : Type 0 where
  first : Machine ℕ
  second : Machine ℕ
  after : Machine ℕ
  spawned : handle_request fresh (spawn 3) ≡ ok first
  both : handle_request first (spawn 4) ≡ ok second
  ran : run_once poll second false [] ≡ ok (done after)

two : TwoQueued
unfolding start new_scheduler new_context handle_request spawn_fiber next_fiber_id free_id len get
    contains_key insert remove schedule new_state run_once run_loop receive run_next next_runnable
    pop_runnable run_fiber begin_fiber switch_context poller_is_alive no_fiber cancel_park exec
    yield_current as_context end_fiber is_not_ready is_runnable
two = record { first = _; second = _; after = _; spawned = refl; both = refl; ran = refl }

handled-IsReady :
    (m m1 : Machine ℕ) (task : ℕ)
    → IsReady m
    → len m.fibers < usize_mod
    → m.requests ≡ []
    → handle_request m (spawn task) ≡ ok m1
    → IsReady m1
handled-IsReady m m1 task ready_m room none_sent e =
    let same : rest_of m [] ≡ m = ground (arith, none_sent) in
    let h =
      handle_request_lem (rest_of m []) (spawn task) (subst (Inv none) (sym same) ready_m.inv)
        room in
    let is : h.after ≡ m1 =
      ground (arith, h.result, ap (λ x. handle_request x (spawn task)) same, e) in
    subst IsReady is (Handled-IsReady m [] ready_m h)

turn-Inv : (m : Machine ℕ) (t : Turn ℕ) → t ≡ done m → IsTurn poll false t → Inv none m
turn-Inv m t e (returned x inv free) = subst (Inv none) (ground (arith, e)) inv
turn-Inv m t e (blocked x is_ready may no_request no_fiber) = absurd (ground (arith, may))

first-IsReady : IsReady two.first
unfolding start new_scheduler len
first-IsReady = handled-IsReady fresh two.first 3 fresh-IsReady (omega arith) refl two.spawned

second-IsReady : IsReady two.second
unfolding two len
second-IsReady = handled-IsReady two.first two.second 4 first-IsReady (omega arith) refl two.both

after-Inv : Inv none two.after
unfolding two len
after-Inv =
    let (t, ran, turn) = run_once_lem poll two.second false [] second-IsReady (omega arith) in
    turn-Inv two.after t (ground (arith, ran, two.ran)) turn

after-IsReady : IsReady two.after
unfolding two switch_context poller_is_alive
after-IsReady = record { inv = after-Inv; free = refl; alive = refl }

queued_fiber_runs_example :
    (m1 : Machine ℕ) × (m2 : Machine ℕ) × (run_once poll two.after true (spawn 5 ∷ [])
      ≡ ok (done m2))
    × (run_fiber poll m1 1 ≡ ok m2)
unfolding two len
queued_fiber_runs_example =
    queued_fiber_runs poll (0 ∷ []) [] 1 two.second two.after true (spawn 5 ∷ []) refl
      (called two.second two.after two.after two.after false [] second-IsReady (omega arith) two.ran
        refl (no_call two.after))
      after-IsReady (omega arith)
