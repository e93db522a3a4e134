-- ===== src/Fiber/Context.antt =====
-- src/fiber/schedule.rs, the execution context and `run_fiber`, `run_once`, with the methods of
-- `FiberState` and `Unpark` in src/fiber/mod.rs that they call.
use mathlib.Core.Option
use fibers_rs.Prelude.{
  ℕ, zero, suc, ◌+◌, ◌-◌, Bool, true, false, ◌&&◌, ◌||◌, not, Option, none, some, List, [], ◌∷◌,
  ◌++◌, ltb, ◌==◌, if◌then◌else◌,
}
use fibers_rs.Prelude.HashMap.{get, insert, remove}
use fibers_rs.Prelude.Results.{
  Result, ok, err, Fault, panic, diverges, assert, Poll, ready, not_ready, ◌>>=◌,
}
use fibers_rs.Poll.Handle.{mark_dead}
use fibers_rs.Fiber.State.{
  FiberId, ContextId, FiberState, Unpark, Run, returns, park, get_context_id, yield_poll,
  lose_poller, spawn_boxed, wakeup, drop_unpark,
}
use fibers_rs.Fiber.Schedule.{
  Request, spawn, wake_up, CurrentScheduler, InnerContext, Machine, update, schedule, next_runnable,
  handle_request, send,
}

-- `InnerContext::as_context`, and so `with_current_context(|c| c)`.
unfoldable pub as_context : InnerContext → Option (CurrentScheduler × FiberId)
as_context c = elim c.scheduler [
  | none ↦ none
  | some s ↦ elim c.fiber [ none ↦ none | some fiber ↦ some (s, fiber) ]
]

abbrev pub same_unpark : Unpark → Unpark → Bool
same_unpark u v =
    u.fiber_id == v.fiber_id && (u.unparks == v.unparks && u.scheduler_id == v.scheduler_id)

-- Takes one object out of those that exist.
unfoldable pub take_held : Unpark → List Unpark → Option (List Unpark)
take_held u [] = none
take_held u (v ∷ held) =
    let rest = take_held u held in
    if same_unpark u v then some held else Option.map (λ l. v ∷ l) rest

-- `matches!(r, Ok(Async::NotReady))`
unfoldable pub is_not_ready : Poll (Unit {0}) (Unit {0}) → Bool
is_not_ready (ok not_ready) = true
is_not_ready (ok (ready v)) = false
is_not_ready (err e) = false

unfoldable pub poller_is_alive : InnerContext → Bool
poller_is_alive c = elim c.scheduler [ none ↦ false | some s ↦ s.poller.is_alive ]

unfoldable pub no_fiber : InnerContext → Bool
no_fiber c = elim c.fiber [ none ↦ true | some id ↦ false ]

module _ {F : Type 0} where
  abbrev pub put_fiber : Machine F → FiberId → FiberState F → Machine F
  put_fiber m id f = record m { scheduler = record (m.scheduler) { fibers = insert m.fibers id f } }

  -- `Context::context_id`
  unfoldable pub current_context_id : Machine F → Option ContextId
  current_context_id m = Option.map (λ c. (c.0.id, c.1)) (as_context m.context)

  -- `Context::park`, with `FiberState::park`
  unfoldable pub park_current : Machine F → Option Unpark × Machine F
  park_current m = elim (as_context m.context) [
    | none ↦ (none, m)
    | some (s, id) ↦ elim (get m.fibers id) [
      | none ↦ (none, m)
      | some f ↦
          let u : Unpark = record {
            fiber_id = f.fiber_id;
            unparks = f.unparks;
            scheduler_id = s.id;
          } in
          let m' = put_fiber m id (record f { parks = f.parks + 1 }) in
          (some u, record m' { held = u ∷ m.held })
    ]
  ]

  -- `yield_poll`, with `FiberState::yield_once`
  unfoldable pub yield_current : Machine F → Machine F
  yield_current m = elim (as_context m.context) [
    | none ↦ m
    | some (s, id) ↦ elim (get m.fibers id) [
      | none ↦ m
      | some f ↦
          let m' = put_fiber m id (record f { parks = f.parks + 1 }) in
          record m' { counters = update m.counters f.unparks (m.counters f.unparks + 1) }
    ]
  ]

  -- A use of `Context::poller` after which the handle is marked as dead.
  unfoldable pub lose_current_poller : Machine F → Machine F
  lose_current_poller m = elim (as_context m.context) [
    | none ↦ m
    | some (s, id) ↦ record m {
      context = record (m.context) { scheduler = some (record s { poller = mark_dead s.poller }) };
    }
  ]

  -- The first half of `Drop for Unpark`: the object is gone, and `fetch_add` has found `old`.
  -- The second component says whether the wake-up has to be sent.
  unfoldable pub begin_drop : Machine F → Unpark → List Unpark → Machine F × Bool
  begin_drop m u held =
      let old = m.counters u.unparks in
      (record m { held = held; counters = update m.counters u.unparks (old + 1) }, old == 0)

  -- The whole of it. An object that does not exist cannot be dropped.
  unfoldable pub drop_held : Machine F → Unpark → Machine F
  drop_held m u = elim (take_held u m.held) [
    | none ↦ m
    | some held ↦
        let (m', first) = begin_drop m u held in if first then send m' (wake_up u.fiber_id) else m'
  ]

  -- One call of a future, with what it goes on with.
  unfoldable pub call : Run F → Machine F → Option (Run F × Machine F)
  call (returns r f) m = none
  call (park k) m = let (u, m') = park_current m in some (k u, m')
  call (get_context_id k) m = some (k (current_context_id m), m)
  call (yield_poll k) m = some (k, yield_current m)
  call (lose_poller k) m = some (k, lose_current_poller m)
  call (spawn_boxed f k) m = some (k, send m (spawn f))
  call (wakeup id k) m = some (k, send m (wake_up id))
  call (drop_unpark u k) m = some (k, drop_held m u)

  -- `poll` of a future from its first call to its result.
  unfoldable pub exec : Run F → Machine F → Machine F × Poll (Unit {0}) (Unit {0}) × F
  exec (returns r f) m = (m, r, f)
  exec (park k) m = let (u, m') = park_current m in exec (k u) m'
  exec (get_context_id k) m = exec (k (current_context_id m)) m
  exec (yield_poll k) m = exec k (yield_current m)
  exec (lose_poller k) m = exec k (lose_current_poller m)
  exec (spawn_boxed f k) m = exec k (send m (spawn f))
  exec (wakeup id k) m = exec k (send m (wake_up id))
  exec (drop_unpark u k) m = exec k (drop_held m u)

  -- `InnerContext::switch`, where the context is not yet that of this scheduler.
  unfoldable pub switch_context : Machine F → InnerContext
  switch_context m =
      let own : CurrentScheduler = record { id = m.scheduler_id; poller = m.scheduler.poller } in
      elim m.context.scheduler [
        | none ↦ record (m.context) { scheduler = some own }
        | some s ↦
            if s.id == m.scheduler_id
            then m.context
            else record (m.context) { scheduler = some own }
      ]

  -- The start of `FiberState::run_once`: a pair of a park and an unpark cancels.
  unfoldable pub cancel_park : Machine F → FiberId → FiberState F → Machine F
  cancel_park m id f =
      let left = m.counters f.unparks in
      if ltb 0 f.parks && ltb 0 left
      then (let m' = put_fiber m id (record f { parks = f.parks - 1 }) in
          record m' { counters = update m.counters f.unparks (left - 1) })
      else m

  unfoldable pub is_runnable : Machine F → FiberState F → Bool
  is_runnable m f = f.parks == 0 || ltb 0 (m.counters f.unparks)

  -- `run_fiber` up to the call of `poll`.
  unfoldable pub begin_fiber : Machine F → FiberId → Result (Machine F × F) Fault
  begin_fiber m id = do
    let c = switch_context m
    _ ← assert (poller_is_alive c)
    _ ← assert (no_fiber c)
    elim (get m.fibers id) [
      | none ↦ err panic
      | some f ↦ ok (cancel_park (record m { context = record c { fiber = some id } }) id f, f.task)
    ]

  -- `run_fiber` from the return of `poll` on; `task` is the future as the call left it.
  unfoldable pub end_fiber :
      Machine F → FiberId → Poll (Unit {0}) (Unit {0}) → F → Result (Machine F) Fault
  end_fiber m id r task = elim (get m.fibers id) [
    | none ↦ err panic
    | some f ↦
        let m1 = record m { context = record (m.context) { fiber = none } } in
        let m2 = put_fiber m1 id (record f { task = task }) in
        let requeue : Result (Machine F) Fault = (do
          s ← schedule m2.scheduler id
          ok (record m2 { scheduler = s })) in
        if not (is_not_ready r)
        then ok (record m2 { scheduler = record (m2.scheduler) { fibers = remove m2.fibers id } })
        else if is_runnable m2 f
        then requeue
        else ok m2
  ]

  -- The first part of the loop in `Scheduler::run_once`: a request. The second component is
  -- `did_something`.
  unfoldable pub receive : Machine F → Result (Machine F × Bool) Fault
  receive m = elim m.requests [
    | [] ↦ ok (m, false)
    | r ∷ rest ↦ do
      m' ← handle_request (record m { scheduler = record (m.scheduler) { requests = rest } }) r
      ok (m', true)
  ]

-- How `run_once` ends: it returns, or its thread waits in `recv` for a request.
pub data Turn (F : Type 0) : Type 0 where
  done waiting : Machine F → Turn F

-- `poll` of the futures is the program's users' code.
module _ {F : Type 0} (poll : F → Run F) where
  unfoldable pub run_fiber : Machine F → FiberId → Result (Machine F) Fault
  run_fiber m id = do
    b ← begin_fiber m id
    let (m', r, task) = exec (poll b.1) b.0
    end_fiber m' id r task

  -- The second part of the loop in `run_once`: a fiber.
  unfoldable pub run_next : Machine F → Bool → Result (Machine F × Bool) Fault
  run_next m did =
      let (next, s) = next_runnable m.scheduler in
      elim next [
        | none ↦ ok (record m { scheduler = s }, did)
        | some id ↦ do m' ← run_fiber (record m { scheduler = s }) id; ok (m', true)
      ]

  -- The loop of `run_once`, with fuel. `arrivals` are the requests that other threads send while the
  -- thread waits in `recv`.
  unfoldable pub run_loop : ℕ → Bool → List (Request F) → Bool → Machine F → Result (Turn F) Fault
  run_loop zero block arrivals did m = err diverges
  run_loop (suc n) block arrivals did m = do
    a ← receive m
    b ← run_next a.0 (did || a.1)
    let m' = b.0
    elim (not block || b.1) [
      | true ↦ ok (done m')
      | false ↦ elim (m'.requests ++ arrivals) [
        | [] ↦ ok (waiting m')
        | r ∷ rest ↦
            handle_request (record m' { scheduler = record (m'.scheduler) { requests = rest } }) r
            >>= λ m''. run_loop n block [] true m''
      ]
    ]

  unfoldable pub run_once : Machine F → Bool → List (Request F) → Result (Turn F) Fault
  run_once m block_if_idle arrivals = run_loop 2 block_if_idle arrivals false m
