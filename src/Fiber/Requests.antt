-- ===== src/Fiber/Requests.antt =====
-- Requests to the scheduler (src/fiber/schedule.rs): spawning a fiber under a new identifier, waking
-- one up, and receiving either.
use mathlib.Core.List.{append-nil}
use fibers_rs.Prelude.{
  ℕ, ◌+◌, ◌<◌, ◌≤◌, ◌≡◌, ◌≢◌, refl, sym, ◌∙◌, ap, inl, inr, Bool, true, false, none, some, List, [],
  ◌∷◌, ◌++◌, arith, count, All, Option-cases, List-cases, Bool-cases,
}
use fibers_rs.Prelude.HashMap.{
  get, contains_key, insert, len, get-insert, len-insert_le, len-insert_present,
}
use fibers_rs.Prelude.Usize.{usize_mod, free_id_total, wrapping_add}
use fibers_rs.Prelude.Results.{Result, ok, Fault}
use fibers_rs.Fiber.State.{FiberId, FiberState, Unpark, new_state}
use fibers_rs.Fiber.Schedule.{
  Request, spawn, wake_up, Scheduler, Machine, update, next_fiber_id, spawn_fiber, handle_request,
}
use fibers_rs.Fiber.Context.{receive, switch_context}
use fibers_rs.Fiber.Invariant.{queued, IsOwned, Inv, held_at-fresh}
use fibers_rs.Fiber.Scheduling.{
  scheduled, schedule-scheduled, scheduled-Inv, received-Inv, absent-Inv, target,
}

module _ {F : Type 0} where
  -- The machine with the new fiber, before it is scheduled.
  abbrev added : Machine F → F → FiberId → FiberId → Machine F
  added m task id next = record m {
    scheduler = record (m.scheduler) {
      next_id = next;
      fibers = insert m.fibers id (new_state id task m.next_counter);
    };
    counters = update m.counters m.next_counter 0;
    owner = update m.owner m.next_counter id;
    next_counter = m.next_counter + 1;
  }

  added-IsOwned :
      (m : Machine F) (task : F) (id next : FiberId) (held : List Unpark)
      → All (IsOwned m) held
      → All (IsOwned (added m task id next)) held
  added-IsOwned m task id next [] h = tt
  added-IsOwned m task id next (u ∷ held) h = (ground arith, added-IsOwned m task id next held h.1)

  added-Inv :
      (m : Machine F) (task : F) (id next : FiberId)
      → next < usize_mod
      → get m.fibers id ≡ none
      → Inv none m
      → Inv (some id) (added m task id next)
  unfolding new_state
  added-Inv m task id next fits fresh inv = record {
    next_fits = fits;
    queue = λ i. ground (
      arith,
      get-insert m.fibers id (new_state id task m.next_counter) i,
      inv.queue i,
      ap queued fresh,
    );
    known = λ i g q. ground (
      arith,
      get-insert m.fibers id (new_state id task m.next_counter) i,
      inv.known i g,
      held_at-fresh m m.held inv.owned,
    );
    owned = added-IsOwned m task id next m.held inv.owned;
  }

  -- With fewer than 2^64 fibers `next_fiber_id` ends, wrapping round if it must: it returns the first
  -- identifier from `next_id` on that no live fiber has, and `next_id` is the one after it.
  pub next_fiber_id_lem :
      (s : Scheduler F)
      → s.next_id < usize_mod
      → len s.fibers < usize_mod
      → (k : ℕ) × (next_fiber_id s
          ≡ ok (wrapping_add s.next_id k, record s { next_id = wrapping_add s.next_id (k + 1) }))
        × (contains_key s.fibers (wrapping_add s.next_id k) ≡ false)
        × ((i : ℕ) → i < k → contains_key s.fibers (wrapping_add s.next_id i) ≡ true)
  unfolding next_fiber_id
  next_fiber_id_lem s fits room =
      let f = free_id_total s.fibers s.next_id fits room in
      (f.skipped, rw (f.result, next_fiber_id), f.free, f.taken)

  spawn_fiber-added :
      (m : Machine F) (task : F) (id next : FiberId)
      → next_fiber_id m.scheduler ≡ ok (id, record (m.scheduler) { next_id = next })
      → (let fiber = new_state id task m.next_counter in
          let m1 = added m task id next in
          (get m1.fibers id ≡ some fiber)
          × (spawn_fiber m task ≡ ok (record m1 { scheduler = scheduled m1.scheduler id fiber })))
  unfolding spawn_fiber
  spawn_fiber-added m task id next e =
      let fiber = new_state id task m.next_counter in
      let at_id : get (added m task id next).fibers id ≡ some fiber =
        get-insert m.fibers id fiber id ∙ ground arith in
      (at_id, rw (e, schedule-scheduled (added m task id next).scheduler id fiber at_id))

  -- How `spawn_fiber` ends.
  pub record Spawned (m : Machine F) (task : F) (r : Result (Machine F) Fault) : Type 0 where
    pub id : FiberId
    pub after : Machine F
    pub result : r ≡ ok after
    pub fits : id < usize_mod
    pub fresh : get m.fibers id ≡ none
    pub fiber :
        get after.fibers id
        ≡ some (record (new_state id task m.next_counter) { in_run_queue = true })
    pub others : (j : FiberId) → j ≢ id → get after.fibers j ≡ get m.fibers j
    pub last : after.run_queue ≡ m.run_queue ++ id ∷ []
    pub keeps : Inv none after
    pub same_context : after.context ≡ m.context
    pub same_switch : switch_context after ≡ switch_context m
    pub grows : len after.fibers ≤ len m.fibers + 1

  -- With the invariant and fewer than 2^64 fibers, `spawn_fiber` succeeds: the new fiber has an
  -- identifier that no live fiber had, is marked as queued and is last in the run queue, the other
  -- fibers are as before, and the invariant holds.
  pub spawn_fiber_lem :
      (m : Machine F) (task : F)
      → Inv none m
      → len m.fibers < usize_mod
      → Spawned m task (spawn_fiber m task)
  spawn_fiber_lem m task inv room =
      let (k, found, free, _) = next_fiber_id_lem m.scheduler inv.next_fits room in
      let id : FiberId = wrapping_add m.next_id k in
      let next : FiberId = wrapping_add m.next_id (k + 1) in
      let fresh : get m.fibers id ≡ none = unfold contains_key in ground (arith, free) in
      let fiber = new_state id task m.next_counter in
      let m1 = added m task id next in
      let (at_id, result) = spawn_fiber-added m task id next found in
      record {
        id = id;
        after = record m1 { scheduler = scheduled m1.scheduler id fiber };
        result = result;
        fits = omega arith;
        fresh = fresh;
        fiber =
            unfold new_state in
            ground (arith, get-insert m1.fibers id (record fiber { in_run_queue = true }) id);
        others = λ j ne.
            unfold new_state in
            ground (
              arith,
              get-insert m1.fibers id (record fiber { in_run_queue = true }) j,
              get-insert m.fibers id fiber j,
            );
        last = unfold new_state in ground arith;
        keeps = scheduled-Inv m1 id fiber at_id (added-Inv m task id next (omega arith) fresh inv);
        same_context = refl;
        same_switch = unfold new_state switch_context in refl;
        grows =
            let there : contains_key m1.fibers id ≡ true = unfold contains_key in rw at_id in
            unfold new_state in
            omega (
              arith,
              len-insert_le m.fibers id fiber,
              len-insert_present m1.fibers id (record fiber { in_run_queue = true }) there,
            );
      }

  -- How a request is handled.
  pub record Handled (m : Machine F) (r : Result (Machine F) Fault) : Type 0 where
    pub after : Machine F
    pub result : r ≡ ok after
    pub keeps : Inv none after
    pub same_context : after.context ≡ m.context
    pub same_switch : switch_context after ≡ switch_context m
    pub grows : len after.fibers ≤ len m.fibers + 1
    pub queued_last : (l : List FiberId) × (after.run_queue ≡ m.run_queue ++ l)

  scheduled_facts :
      (m : Machine F) (id : FiberId) (f : FiberState F)
      → get m.fibers id ≡ some f
      → (let m' = record m { scheduler = scheduled m.scheduler id f } in
          (switch_context m' ≡ switch_context m) × (len m'.fibers ≤ len m.fibers + 1))
  unfolding switch_context
  scheduled_facts m id f at_id =
      let there : contains_key m.fibers id ≡ true = unfold contains_key in rw at_id in
      ground (arith, len-insert_present m.fibers id (record f { in_run_queue = true }) there)

  scheduled_last :
      (s : Scheduler F) (id : FiberId) (f : FiberState F)
      → (l : List FiberId) × ((scheduled s id f).run_queue ≡ s.run_queue ++ l)
  scheduled_last s id f = elim (Bool-cases f.in_run_queue) [
    | inl there ↦ ([], ground (arith, there, append-nil s.run_queue))
    | inr out ↦ (id ∷ [], ground (arith, out))
  ]

  -- A request is handled without a fault, and leaves every fiber queued or awake.
  pub handle_request_lem :
      (m : Machine F) (r : Request F)
      → Inv (target r) m
      → len m.fibers < usize_mod
      → Handled m (handle_request m r)
  unfolding handle_request
  handle_request_lem m (spawn task) inv room =
      let s = spawn_fiber_lem m task inv room in
      record {
        after = s.after;
        result = s.result;
        keeps = s.keeps;
        same_context = s.same_context;
        same_switch = s.same_switch;
        grows = s.grows;
        queued_last = (s.id ∷ [], s.last);
      }
  handle_request_lem m (wake_up id) inv room = elim (Option-cases (get m.fibers id)) [
    | inl gone ↦ record {
      after = m;
      result = unfold contains_key in rw gone;
      keeps = absent-Inv m id gone inv;
      same_context = refl;
      same_switch = refl;
      grows = omega arith;
      queued_last = ([], sym (append-nil m.run_queue));
    }
    | inr (f, at_id) ↦
        let (switch, grows) = scheduled_facts m id f at_id in
        record {
          after = record m { scheduler = scheduled m.scheduler id f };
          result = unfold contains_key in rw (at_id, schedule-scheduled m.scheduler id f at_id);
          keeps = scheduled-Inv m id f at_id inv;
          same_context = refl;
          same_switch = switch;
          grows = grows;
          queued_last = scheduled_last m.scheduler id f;
        }
  ]

  -- Handling the wake-up of a live fiber succeeds, and the fiber is then in the run queue once,
  -- whether it was there before or not, if the invariant held but for that fiber's wake-up.
  pub wake_up-queued :
      (m : Machine F) (id : FiberId) (f : FiberState F)
      → Inv (some id) m
      → get m.fibers id ≡ some f
      → (m' : Machine F) × (handle_request m (wake_up id) ≡ ok m') × (count id m'.run_queue ≡ 1)
  unfolding handle_request
  wake_up-queued m id f inv at_id =
      let m' = record m { scheduler = scheduled m.scheduler id f } in
      let keeps = scheduled-Inv m id f at_id inv in
      (
        m',
        unfold contains_key in rw (at_id, schedule-scheduled m.scheduler id f at_id),
        ground (
          arith,
          keeps.queue id,
          at_id,
          get-insert m.fibers id (record f { in_run_queue = true }) id,
        ),
      )

  -- The machine without the request at the head of its channel.
  abbrev pub rest_of : Machine F → List (Request F) → Machine F
  rest_of m rest = record m { scheduler = record (m.scheduler) { requests = rest } }

  -- `receive` takes the oldest request if there is one, and never faults.
  pub data Receive (m : Machine F) (res : Result (Machine F × Bool) Fault) : Type 0 where
    nothing : m.requests ≡ [] → res ≡ ok (m, false) → Receive m res
    one :
        (r : Request F) (rest : List (Request F))
        → m.requests ≡ r ∷ rest
        → (h : Handled (rest_of m rest) (handle_request (rest_of m rest) r))
        → res ≡ ok (h.after, true)
        → Receive m res

  pub receive_lem : (m : Machine F) → Inv none m → len m.fibers < usize_mod → Receive m (receive m)
  unfolding receive
  receive_lem m inv room = elim (List-cases m.requests) [
    | inl e ↦ nothing e (ground (arith, e))
    | inr (r, rest, e) ↦
        let h = handle_request_lem (rest_of m rest) r (received-Inv m r rest e inv) room in
        one r rest e h (ground (arith, e, h.result))
  ]
