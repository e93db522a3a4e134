-- ===== src/Fiber/Scheduling.antt =====
-- The operations of the scheduler (src/fiber/schedule.rs) keep the invariant and do not fault.
use fibers_rs.Prelude.{
  ℕ, ◌≡◌, ap, inl, inr, true, false, not, Option, none, some, List, [], ◌∷◌, ◌++◌, arith, ◌==◌,
  if◌then◌else◌, count, count_by-append, Option-cases, List-cases, count_by,
}
use fibers_rs.Prelude.HashMap.{get, insert, get-insert}
use fibers_rs.Prelude.Results.{ok}
use fibers_rs.Fiber.State.{FiberId, FiberState}
use fibers_rs.Fiber.Schedule.{
  Request, spawn, wake_up, Scheduler, Machine, schedule, pop_runnable, next_runnable,
}
use fibers_rs.Fiber.Invariant.{is_wake_up, Known, Inv}

module _ {F : Type 0} where
  -- The state in which `schedule` leaves the scheduler.
  abbrev pub scheduled : Scheduler F → FiberId → FiberState F → Scheduler F
  scheduled s id f =
      if not f.in_run_queue
      then record s {
        run_queue = s.run_queue ++ id ∷ [];
        fibers = insert s.fibers id (record f { in_run_queue = true });
      }
      else s

  pub schedule-scheduled :
      (s : Scheduler F) (id : FiberId) (f : FiberState F)
      → get s.fibers id ≡ some f
      → schedule s id ≡ ok (scheduled s id f)
  unfolding schedule
  schedule-scheduled s id f e = ground (arith, e)

  pub scheduled-Inv :
      (m : Machine F) (id : FiberId) (f : FiberState F)
      → get m.fibers id ≡ some f
      → Inv (some id) m
      → Inv none (record m { scheduler = scheduled m.scheduler id f })
  scheduled-Inv m id f e inv = record {
    next_fits = ground (arith, inv.next_fits);
    queue = λ i. ground (
      arith,
      inv.queue i,
      get-insert m.fibers id (record f { in_run_queue = true }) i,
      count_by-append (λ (j : ℕ). j == i) m.run_queue (id ∷ []),
    );
    known = λ i g q. ground (
      arith,
      get-insert m.fibers id (record f { in_run_queue = true }) i,
      inv.known i g,
      inv.known id f e,
    );
    owned = inv.owned;
  }

  -- The state in which `next_runnable` leaves the scheduler when it returns `id`.
  abbrev pub popped : Scheduler F → FiberId → List FiberId → FiberState F → Scheduler F
  popped s id queue f = record s {
    run_queue = queue;
    fibers = insert s.fibers id (record f { in_run_queue = false });
  }

  pub popped-Inv :
      (m : Machine F) (id : FiberId) (queue : List FiberId) (f : FiberState F)
      → m.run_queue ≡ id ∷ queue
      → get m.fibers id ≡ some f
      → Inv none m
      → Inv (some id) (record m { scheduler = popped m.scheduler id queue f })
  popped-Inv m id queue f e at_id inv = record {
    next_fits = inv.next_fits;
    queue = λ i. ground (
      arith,
      ap (count i) e,
      inv.queue i,
      get-insert m.fibers id (record f { in_run_queue = false }) i,
    );
    known = λ i g q. ground (
      arith,
      get-insert m.fibers id (record f { in_run_queue = false }) i,
      inv.known i g,
      inv.known id f at_id,
    );
    owned = inv.owned;
  }

  -- Every entry of the run queue is a live fiber, so the first one is taken.
  pub data NextRunnable (m : Machine F) : Option FiberId × Scheduler F → Type 0 where
    idle : m.run_queue ≡ [] → NextRunnable m (none, m.scheduler)
    next :
        (id : FiberId) (queue : List FiberId) (f : FiberState F)
        → m.run_queue ≡ id ∷ queue
        → get m.fibers id ≡ some f
        → NextRunnable m (some id, popped m.scheduler id queue f)

  pub next_runnable_lem :
      {cur : Option FiberId} (m : Machine F)
      → Inv cur m
      → NextRunnable m (next_runnable m.scheduler)
  unfolding next_runnable
  next_runnable_lem m inv = elim (List-cases m.run_queue) [
    | inl e ↦
        let q : pop_runnable m.run_queue m.scheduler ≡ (none, m.scheduler) = rw (e, pop_runnable) in
        rw q (idle e)
    | inr (id, queue, e) ↦ elim (Option-cases (get m.fibers id)) [
      | inl gone ↦ absurd (ground (arith, inv.queue id, ap (count id) e))
      | inr (f, at_id) ↦
          let q : pop_runnable m.run_queue m.scheduler ≡ (some id, popped m.scheduler id queue f) =
            rw (e, pop_runnable, at_id) in
          rw q (next id queue f e at_id)
    ]
  ]

  -- The request at the head of the channel is taken out; only its target may lack a wake-up then.
  abbrev pub target : Request F → Option FiberId
  target (spawn task) = none
  target (wake_up id) = some id

  pub received-Inv :
      (m : Machine F) (r : Request F) (rest : List (Request F))
      → m.requests ≡ r ∷ rest
      → Inv none m
      → Inv (target r) (record m { scheduler = record (m.scheduler) { requests = rest } })
  received-Inv m r rest e inv = record {
    next_fits = inv.next_fits;
    queue = inv.queue;
    known = λ i g q. received-Known m r rest e i g (inv.known i g q);
    owned = inv.owned;
  }
    where
      received-Known :
          (m : Machine F) (r : Request F) (rest : List (Request F))
          → m.requests ≡ r ∷ rest
          → (i : FiberId) (g : FiberState F) → Known none m i g
          → Known (target r) (record m { scheduler = record (m.scheduler) { requests = rest } }) i g
      received-Known m (spawn task) rest e i g k = ground (arith, ap (count_by (is_wake_up i)) e)
      received-Known m (wake_up id) rest e i g k = ground (arith, ap (count_by (is_wake_up i)) e)

  -- A fiber that does not exist needs no wake-up.
  pub absent-Inv :
      (m : Machine F) (id : FiberId) → get m.fibers id ≡ none → Inv (some id) m → Inv none m
  absent-Inv m id e inv = record {
    next_fits = inv.next_fits;
    queue = inv.queue;
    known = λ i g q. ground (arith, inv.known i g q);
    owned = inv.owned;
  }
