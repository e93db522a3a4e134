-- ===== src/Fiber/Running.antt =====
-- `run_fiber` and `run_once` (src/fiber/schedule.rs): a fiber is polled once, and is then removed,
-- queued again or left to wait.
use fibers_rs.Prelude.{
  ◌-◌, ◌≡◌, refl, sym, subst, ◌∙◌, ap, inl, inr, true, false, ◌&&◌, Option, none, some, [], ◌∷◌,
  ◌++◌, arith, ltb, count, Option-cases, Bool-cases,
}
use fibers_rs.Prelude.HashMap.{get, remove, get-insert, get-remove, is_some}
use fibers_rs.Prelude.Results.{Result, ok, Fault, Poll}
use fibers_rs.Fiber.State.{FiberId, FiberState, Run}
use fibers_rs.Fiber.Schedule.{InnerContext, Machine}
use fibers_rs.Fiber.Context.{
  put_fiber, exec, switch_context, cancel_park, is_runnable, is_not_ready, poller_is_alive,
  no_fiber, begin_fiber, end_fiber, run_fiber,
}
use fibers_rs.Fiber.Invariant.{Inv}
use fibers_rs.Fiber.Scheduling.{scheduled, schedule-scheduled, scheduled-Inv}
use fibers_rs.Fiber.Calls.{exec-Keeps, context-Inv}

module _ {F : Type 0} where
  switch_context-fiber : (m : Machine F) → (switch_context m).fiber ≡ m.context.fiber
  unfolding switch_context
  switch_context-fiber m = ground arith

  cancel_park-Inv :
      (m : Machine F) (id : FiberId) (f : FiberState F)
      → get m.fibers id ≡ some f
      → Inv (some id) m
      → Inv (some id) (cancel_park m id f)
  unfolding cancel_park
  cancel_park-Inv m id f at_id inv =
      elim (Bool-cases (ltb 0 f.parks && ltb 0 (m.counters f.unparks))) [
        | inr none_left ↦ rw none_left inv
        | inl both ↦ rw both (record {
          next_fits = inv.next_fits;
          queue = λ i.
              ground
                (arith, inv.queue i, get-insert m.fibers id (record f { parks = f.parks - 1 }) i);
          known = λ i g q. ground (
            arith,
            get-insert m.fibers id (record f { parks = f.parks - 1 }) i,
            inv.known i g,
            inv.known id f at_id,
          );
          owned = inv.owned;
        })
      ]

  task-Inv :
      {cur : Option FiberId} (m : Machine F) (id : FiberId) (f : FiberState F) (task : F)
      → get m.fibers id ≡ some f
      → Inv cur m
      → Inv cur (put_fiber m id (record f { task = task }))
  task-Inv m id f task at_id inv = record {
    next_fits = inv.next_fits;
    queue = λ i. ground (arith, inv.queue i, get-insert m.fibers id (record f { task = task }) i);
    known = λ i g q. ground (
      arith,
      get-insert m.fibers id (record f { task = task }) i,
      inv.known i g,
      inv.known id f at_id,
    );
    owned = inv.owned;
  }

  remove-Inv :
      (m : Machine F) (id : FiberId)
      → count id m.run_queue ≡ 0
      → Inv (some id) m
      → Inv none (record m { scheduler = record (m.scheduler) { fibers = remove m.fibers id } })
  remove-Inv m id out inv = record {
    next_fits = inv.next_fits;
    queue = λ i. ground (arith, inv.queue i, get-remove m.fibers id i);
    known = λ i g q. ground (arith, get-remove m.fibers id i, inv.known i g);
    owned = inv.owned;
  }

  parked-Inv :
      (m : Machine F) (id : FiberId) (f : FiberState F)
      → get m.fibers id ≡ some f
      → is_runnable m f ≡ false
      → Inv (some id) m
      → Inv none m
  unfolding is_runnable
  parked-Inv m id f at_id idle inv = record {
    next_fits = inv.next_fits;
    queue = inv.queue;
    known = λ i g q. ground (arith, inv.known i g q);
    owned = inv.owned;
  }

  -- The three ways in which `run_fiber` ends, for the fiber `f` as `poll` left it.
  pub data Ended (m : Machine F) (id : FiberId) (f : FiberState F) (r : Poll (Unit {0}) (Unit {0}))
      (task : F) (m' : Machine F) : Type 0 where
    finished :
        is_not_ready r ≡ false
        → get m'.fibers id ≡ none
        → m'.run_queue ≡ m.run_queue
        → Ended m id f r task m'
    requeued :
        is_not_ready r ≡ true
        → is_runnable m f ≡ true
        → get m'.fibers id ≡ some (record f { task = task; in_run_queue = true })
        → m'.run_queue ≡ m.run_queue ++ id ∷ []
        → Ended m id f r task m'
    waits :
        is_not_ready r ≡ true
        → is_runnable m f ≡ false
        → get m'.fibers id ≡ some (record f { task = task })
        → m'.run_queue ≡ m.run_queue
        → Ended m id f r task m'

  pub record EndFiber (m : Machine F) (id : FiberId) (f : FiberState F)
      (r : Poll (Unit {0}) (Unit {0})) (task : F) (res : Result (Machine F) Fault) : Type 0 where
    pub after : Machine F
    pub result : res ≡ ok after
    pub keeps : Inv none after
    pub left_fiber : after.context.fiber ≡ none
    pub outcome : Ended m id f r task after

  pub end_fiber_lem :
      (m : Machine F) (id : FiberId) (f : FiberState F) (r : Poll (Unit {0}) (Unit {0})) (task : F)
      → get m.fibers id ≡ some f
      → f.in_run_queue ≡ false
      → Inv (some id) m
      → EndFiber m id f r task (end_fiber m id r task)
  unfolding end_fiber
  end_fiber_lem m id f r task at_id flag inv = elim (Bool-cases (is_not_ready r)) [
    | inr over ↦ record {
      after = record m2 { scheduler = record (m2.scheduler) { fibers = remove m2.fibers id } };
      result = ground (arith, at_id, over);
      keeps = remove-Inv m2 id (ground (arith, inv2.queue id, at_id2, flag)) inv2;
      left_fiber = refl;
      outcome = finished over (ground (arith, get-remove m2.fibers id id)) refl;
    }
    | inl more ↦ elim (Bool-cases (is_runnable m f)) [
      | inl yes' ↦ record {
        after = record m2 { scheduler = scheduled m2.scheduler id f2 };
        result =
            unfold is_runnable in
            ground (arith, at_id, more, yes', schedule-scheduled m2.scheduler id f2 at_id2);
        keeps = scheduled-Inv m2 id f2 at_id2 inv2;
        left_fiber = refl;
        outcome =
            requeued more yes'
              (ground (arith, flag, get-insert m2.fibers id (record f2 { in_run_queue = true }) id))
              (ground (arith, flag));
      }
      | inr no' ↦ record {
        after = m2;
        result = unfold is_runnable in ground (arith, at_id, more, no');
        keeps = parked-Inv m2 id f2 at_id2 (unfold is_runnable in no') inv2;
        left_fiber = refl;
        outcome = waits more no' at_id2 refl;
      }
    ]
  ]
    where
      f2 : FiberState F
      f2 = record f { task = task }

      m2 : Machine F
      m2 = put_fiber (record m { context = record (m.context) { fiber = none } }) id f2

      at_id2 : get m2.fibers id ≡ some f2
      at_id2 = get-insert m.fibers id f2 id ∙ ground arith

      inv2 : Inv (some id) m2
      inv2 = task-Inv _ id f task at_id (context-Inv m (record (m.context) { fiber = none }) inv)

  pub record BeginFiber (m : Machine F) (id : FiberId) (f : FiberState F)
      (res : Result (Machine F × F) Fault) : Type 0 where
    pub after : Machine F
    pub result : res ≡ ok (after, f.task)
    pub keeps : Inv (some id) after
    pub current : after.context.fiber ≡ some id
    pub same_queue : after.run_queue ≡ m.run_queue
    pub still_there : is_some (get after.fibers id) ≡ true

  begun :
      (m : Machine F) (id : FiberId) (f : FiberState F)
      → get m.fibers id ≡ some f
      → (c : InnerContext)
      → let m' = cancel_park (record m { context = c }) id f in
        (m'.context ≡ c) × (m'.run_queue ≡ m.run_queue) × (is_some (get m'.fibers id) ≡ true)
  unfolding cancel_park
  begun m id f at_id c =
      ground (arith, at_id, get-insert m.fibers id (record f { parks = f.parks - 1 }) id)

  pub begin_fiber_lem :
      (m : Machine F) (id : FiberId) (f : FiberState F)
      → get m.fibers id ≡ some f
      → poller_is_alive (switch_context m) ≡ true
      → m.context.fiber ≡ none
      → Inv (some id) m
      → BeginFiber m id f (begin_fiber m id)
  unfolding begin_fiber no_fiber
  begin_fiber_lem m id f at_id alive free inv =
      let c : InnerContext = record (switch_context m) { fiber = some id } in
      let (qc, qq, there) = begun m id f at_id c in
      record {
        after = cancel_park (record m { context = c }) id f;
        result = ground (arith, alive, free, switch_context-fiber m, at_id);
        keeps = cancel_park-Inv (record m { context = c }) id f at_id (context-Inv m c inv);
        current = ap (λ (x : InnerContext). x.fiber) qc;
        same_queue = qq;
        still_there = there;
      }

module _ {F : Type 0} (poll : F → Run F) where
  -- What running the fiber `f` does: `polled` is the machine at the return of `poll`.
  pub record RunFiber (m : Machine F) (id : FiberId) (f : FiberState F)
      (res : Result (Machine F) Fault) : Type 0 where
    pub begun : BeginFiber m id f (begin_fiber m id)
    pub same_queue : (exec (poll f.task) begun.after).0.run_queue ≡ m.run_queue
    pub polled : FiberState F
    pub found : get (exec (poll f.task) begun.after).0.fibers id ≡ some polled
    pub ended :
        EndFiber
          (exec (poll f.task) begun.after).0
          id
          polled
          (exec (poll f.task) begun.after).1
          (exec (poll f.task) begun.after).2
          res

  -- `run_fiber` on a live fiber that is not queued returns, if the poller is alive, no other fiber is
  -- being polled on the thread and the invariant holds: the fiber is polled once, and then removed if
  -- its future is ready or failed, else queued again if it is runnable, else left to wait; the
  -- invariant holds afterwards.
  pub run_fiber_lem :
      (m : Machine F) (id : FiberId) (f : FiberState F)
      → get m.fibers id ≡ some f
      → count id m.run_queue ≡ 0
      → poller_is_alive (switch_context m) ≡ true
      → m.context.fiber ≡ none
      → Inv (some id) m
      → RunFiber m id f (run_fiber poll m id)
  unfolding run_fiber
  run_fiber_lem m id f at_id out alive free inv =
      let b = begin_fiber_lem m id f at_id alive free inv in
      let k =
        exec-Keeps (poll f.task) b.after
          (subst (λ (x : Option FiberId). Inv x b.after) (sym b.current) b.keeps) in
      let e = exec (poll f.task) b.after in
      let m1 = e.0 in
      let inv1 : Inv (some id) m1 = subst (λ (x : Option FiberId). Inv x m1) b.current k.inv in
      elim (Option-cases (get m1.fibers id)) [
        | inl gone ↦ absurd (ground (arith, gone, k.same_keys id, b.still_there))
        | inr (f1, at_id1) ↦ record {
          begun = b;
          same_queue = k.same_queue ∙ b.same_queue;
          polled = f1;
          found = at_id1;
          ended = rw b.result (
              end_fiber_lem m1 id f1 e.1 e.2 at_id1
                (ground (
                  arith,
                  inv1.queue id,
                  at_id1,
                  ap (count id) k.same_queue,
                  ap (count id) b.same_queue,
                  out,
                ))
                inv1);
        }
      ]
