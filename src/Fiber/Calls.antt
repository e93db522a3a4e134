-- ===== src/Fiber/Calls.antt =====
-- The calls that a fiber makes while it is polled (src/fiber/mod.rs, src/fiber/schedule.rs) keep the
-- invariant and the context, and never remove the fiber that is being polled.
use fibers_rs.Prelude.{
  ℕ, ◌+◌, ◌≡◌, refl, sym, subst, ◌∙◌, ap, ◌⊎◌, inl, inr, true, false, Option, none, some, List, [],
  ◌∷◌, ◌++◌, arith, ◌==◌, if◌then◌else◌, count, count_by-append, Option-cases, Bool-cases,
}
use fibers_rs.Prelude.HashMap.{get, insert, get-insert, is_some}
use fibers_rs.Poll.Handle.{mark_dead}
use fibers_rs.Fiber.State.{
  FiberId, FiberState, Unpark, Run, returns, park, get_context_id, yield_poll, lose_poller,
  spawn_boxed, wakeup, drop_unpark,
}
use fibers_rs.Fiber.Schedule.{
  Request, spawn, wake_up, InnerContext, CurrentScheduler, Machine, update, send,
}
use fibers_rs.Fiber.Context.{
  as_context, put_fiber, take_held, current_context_id, park_current, yield_current,
  lose_current_poller, begin_drop, drop_held, call, exec,
}
use fibers_rs.Fiber.Invariant.{
  is_wake_up, IsOwned, Inv, Taken, take_held-Taken, held_at-Taken, All-Taken,
}

-- Outside a fiber a call of the context does nothing; inside, it finds the current fiber.
as_context-cases :
    (c : InnerContext)
    → (as_context c ≡ none)
      ⊎ ((s : CurrentScheduler) × (id : FiberId) × (as_context c ≡ some (s, id))
          × (c.scheduler ≡ some s)
          × (c.fiber ≡ some id))
unfolding as_context
as_context-cases c = elim (Option-cases c.scheduler) [
  | inl out ↦ inl (ground (arith, out))
  | inr (s, e) ↦ elim (Option-cases c.fiber) [
    | inl out ↦ inl (ground (arith, e, out))
    | inr (id, q) ↦ inr (s, id, ground (arith, e, q), e, q)
  ]
]

module _ {F : Type 0} where
  -- What a call leaves alone: the invariant, which fiber is being polled, and which fibers exist.
  pub record Keeps (m m' : Machine F) : Type 0 where
    pub inv : Inv m.context.fiber m'
    pub current : m'.context.fiber ≡ m.context.fiber
    pub same_keys : (i : FiberId) → is_some (get m'.fibers i) ≡ is_some (get m.fibers i)
    pub same_queue : m'.run_queue ≡ m.run_queue

  abbrev pub Polled : Machine F → Type 0
  Polled m = Inv m.context.fiber m

  pub Keeps-refl : (m : Machine F) → Polled m → Keeps m m
  Keeps-refl m inv = record { inv = inv; current = refl; same_keys = λ i. refl; same_queue = refl }

  -- `park` and `yield_poll` write one fiber, the current one, and its counter.
  parked-Inv :
      (m : Machine F) (id : FiberId) (f : FiberState F) (u : Unpark)
      → m.context.fiber ≡ some id
      → get m.fibers id ≡ some f
      → u.fiber_id ≡ f.fiber_id
      → u.unparks ≡ f.unparks
      → Polled m
      → Inv m.context.fiber
          (record (put_fiber m id (record f { parks = f.parks + 1 })) { held = u ∷ m.held })
  parked-Inv m id f u e at_id ef eu inv = record {
    next_fits = inv.next_fits;
    queue = λ i.
        ground (arith, inv.queue i, get-insert m.fibers id (record f { parks = f.parks + 1 }) i);
    known = λ i g q. ground (
      arith,
      get-insert m.fibers id (record f { parks = f.parks + 1 }) i,
      inv.known i g,
      inv.known id f at_id,
    );
    owned = (ground (arith, inv.known id f at_id), inv.owned);
  }

  yielded-Inv :
      (m : Machine F) (id : FiberId) (f : FiberState F)
      → m.context.fiber ≡ some id
      → get m.fibers id ≡ some f
      → Polled m
      → Inv m.context.fiber (record (put_fiber m id (record f { parks = f.parks + 1 })) {
        counters = update m.counters f.unparks (m.counters f.unparks + 1);
      })
  yielded-Inv m id f e at_id inv = record {
    next_fits = inv.next_fits;
    queue = λ i.
        ground (arith, inv.queue i, get-insert m.fibers id (record f { parks = f.parks + 1 }) i);
    known = λ i g q. ground (
      arith,
      get-insert m.fibers id (record f { parks = f.parks + 1 }) i,
      inv.known i g,
      inv.known id f at_id,
    );
    owned = inv.owned;
  }

  with_fiber-Keeps :
      (m : Machine F) (id : FiberId) (f f' : FiberState F) (m' : Machine F)
      → m'.context.fiber ≡ m.context.fiber
      → m'.fibers ≡ insert m.fibers id f'
      → m'.run_queue ≡ m.run_queue
      → get m.fibers id ≡ some f
      → Inv m.context.fiber m'
      → Keeps m m'
  with_fiber-Keeps m id f f' m' e q queue at_id inv = record {
    inv = inv;
    current = e;
    same_keys = λ i. rw q (ground (arith, get-insert m.fibers id f' i, at_id));
    same_queue = queue;
  }

  pub park_current-Keeps : (m : Machine F) → Polled m → Keeps m (park_current m).1
  unfolding park_current
  park_current-Keeps m inv = elim (as_context-cases m.context) [
    | inl out ↦
        let q : (park_current m).1 ≡ m = ground (arith, out) in
        subst (Keeps m) (sym q) (Keeps-refl m inv)
    | inr (s, id, e, _, cur) ↦ elim (Option-cases (get m.fibers id)) [
      | inl gone ↦
          let q : (park_current m).1 ≡ m = ground (arith, e, gone) in
          subst (Keeps m) (sym q) (Keeps-refl m inv)
      | inr (f, at_id) ↦
          let u : Unpark = record {
            fiber_id = f.fiber_id;
            unparks = f.unparks;
            scheduler_id = s.id;
          } in
          let f' = record f { parks = f.parks + 1 } in
          let m' : Machine F = record (put_fiber m id f') { held = u ∷ m.held } in
          let q : (park_current m).1 ≡ m' = ground (arith, e, at_id) in
          subst (Keeps m) (sym q) (
            with_fiber-Keeps m id f f' m' refl refl refl at_id
              (parked-Inv m id f u cur at_id refl refl inv))
    ]
  ]

  yield_current-Keeps : (m : Machine F) → Polled m → Keeps m (yield_current m)
  unfolding yield_current
  yield_current-Keeps m inv = elim (as_context-cases m.context) [
    | inl out ↦
        let q : yield_current m ≡ m = ground (arith, out) in
        subst (Keeps m) (sym q) (Keeps-refl m inv)
    | inr (s, id, e, _, cur) ↦ elim (Option-cases (get m.fibers id)) [
      | inl gone ↦
          let q : yield_current m ≡ m = ground (arith, e, gone) in
          subst (Keeps m) (sym q) (Keeps-refl m inv)
      | inr (f, at_id) ↦
          let f' = record f { parks = f.parks + 1 } in
          let m' : Machine F = record (put_fiber m id f') {
            counters = update m.counters f.unparks (m.counters f.unparks + 1);
          } in
          let q : yield_current m ≡ m' = ground (arith, e, at_id) in
          subst (Keeps m) (sym q)
            (with_fiber-Keeps m id f f' m' refl refl refl at_id (yielded-Inv m id f cur at_id inv))
    ]
  ]

  -- The context is not part of the invariant.
  pub context-Inv :
      {cur : Option FiberId} (m : Machine F) (c : InnerContext)
      → Inv cur m
      → Inv cur (record m { context = c })
  context-Inv m c inv = record {
    next_fits = inv.next_fits;
    queue = inv.queue;
    known = λ i g q. ground (arith, inv.known i g q);
    owned = inv.owned;
  }

  lose_current_poller-Keeps : (m : Machine F) → Polled m → Keeps m (lose_current_poller m)
  unfolding lose_current_poller
  lose_current_poller-Keeps m inv = elim (as_context-cases m.context) [
    | inl out ↦
        let q : lose_current_poller m ≡ m = ground (arith, out) in
        subst (Keeps m) (sym q) (Keeps-refl m inv)
    | inr (s, id, e, _, cur) ↦
        let m' : Machine F = record m {
          context = record (m.context) {
            scheduler = some (record s { poller = mark_dead s.poller });
          };
        } in
        let q : lose_current_poller m ≡ m' = ground (arith, e) in
        subst (Keeps m) (sym q) (record {
          inv = context-Inv m m'.context inv;
          current = refl;
          same_keys = λ i. refl;
          same_queue = refl;
        })
  ]

  -- A new request takes no wake-up away.
  pub send-Inv :
      {cur : Option FiberId} (m : Machine F) (r : Request F) → Inv cur m → Inv cur (send m r)
  unfolding send
  send-Inv m r inv = record {
    next_fits = inv.next_fits;
    queue = inv.queue;
    known = λ i g q.
        ground (arith, inv.known i g q, count_by-append (is_wake_up i) m.requests (r ∷ []));
    owned = inv.owned;
  }

  send-Keeps : (m : Machine F) (r : Request F) → Polled m → Keeps m (send m r)
  unfolding send
  send-Keeps m r inv = record {
    inv = send-Inv m r inv;
    current = refl;
    same_keys = λ i. refl;
    same_queue = refl;
  }

  -- A dropped `Unpark` moves from the objects to the counter; if it is the first, its wake-up is about
  -- to be sent, by another thread (`sending`) or at once.
  pub dropped-Inv :
      {cur : Option FiberId} (m : Machine F) (u : Unpark) (rest : List Unpark)
      → Taken u m.held rest
      → Inv cur m
      → Inv cur (record (begin_drop m u rest).0 {
        sending = if (begin_drop m u rest).1 then u.fiber_id ∷ m.sending else m.sending;
      })
  unfolding begin_drop
  dropped-Inv m u rest t inv = record {
    next_fits = inv.next_fits;
    queue = inv.queue;
    known = λ i g q.
        ground (
          arith,
          inv.known i g q,
          held_at-Taken t g.unparks,
          (All-Taken (IsOwned m) t inv.owned).0,
        );
    owned = (All-Taken (IsOwned m) t inv.owned).1;
  }

  -- Sending the wake-up of a drop moves it to the channel.
  pub sent-Inv :
      {cur : Option FiberId} (m : Machine F) (id : FiberId) (before after : List FiberId)
      → m.sending ≡ before ++ id ∷ after
      → Inv cur m
      → Inv cur (send (record m { sending = before ++ after }) (wake_up id))
  unfolding send
  sent-Inv m id before after e inv = record {
    next_fits = inv.next_fits;
    queue = inv.queue;
    known = λ i g q. ground (
      arith,
      inv.known i g q,
      ap (count i) e,
      count_by-append (λ (j : ℕ). j == i) before (id ∷ after),
      count_by-append (λ (j : ℕ). j == i) before after,
      count_by-append (is_wake_up i) m.requests (wake_up id ∷ []),
    );
    owned = inv.owned;
  }

  first_drop-Inv :
      (m : Machine F) (u : Unpark) (rest : List Unpark)
      → (begin_drop m u rest).1 ≡ true
      → Taken u m.held rest
      → Polled m
      → Inv m.context.fiber (send (begin_drop m u rest).0 (wake_up u.fiber_id))
  unfolding begin_drop send
  first_drop-Inv m u rest e t inv =
      sent-Inv (record (begin_drop m u rest).0 { sending = u.fiber_id ∷ m.sending }) u.fiber_id []
        m.sending refl (rw e at (dropped-Inv m u rest t inv))

  begun-Keeps :
      (m : Machine F) (u : Unpark) (rest : List Unpark) (r : Request F)
      → Inv m.context.fiber (send (begin_drop m u rest).0 r)
      → Keeps m (send (begin_drop m u rest).0 r)
  unfolding begin_drop send
  begun-Keeps m u rest r inv = record {
    inv = inv;
    current = refl;
    same_keys = λ i. refl;
    same_queue = refl;
  }

  later_drop-Keeps :
      (m : Machine F) (u : Unpark) (rest : List Unpark)
      → (begin_drop m u rest).1 ≡ false
      → Taken u m.held rest
      → Polled m
      → Keeps m (begin_drop m u rest).0
  unfolding begin_drop
  later_drop-Keeps m u rest e t inv = record {
    inv = rw e at (dropped-Inv m u rest t inv);
    current = refl;
    same_keys = λ i. refl;
    same_queue = refl;
  }

  pub drop_held-Keeps : (m : Machine F) (u : Unpark) → Polled m → Keeps m (drop_held m u)
  unfolding drop_held
  drop_held-Keeps m u inv = elim (Option-cases (take_held u m.held)) [
    | inl gone ↦
        let q : drop_held m u ≡ m = ground (arith, gone) in
        subst (Keeps m) (sym q) (Keeps-refl m inv)
    | inr (rest, found) ↦
        let t = take_held-Taken u m.held rest found in
        elim (Bool-cases (begin_drop m u rest).1) [
          | inl first ↦
              let q : drop_held m u ≡ send (begin_drop m u rest).0 (wake_up u.fiber_id) =
                ground (arith, found, first) in
              subst (Keeps m) (sym q)
                (begun-Keeps m u rest (wake_up u.fiber_id) (first_drop-Inv m u rest first t inv))
          | inr later ↦
              let q : drop_held m u ≡ (begin_drop m u rest).0 = ground (arith, found, later) in
              subst (Keeps m) (sym q) (later_drop-Keeps m u rest later t inv)
        ]
  ]

  -- One call of the fiber that is being polled keeps the invariant, the current fiber and the set of
  -- live fibers.
  pub call-Keeps :
      (r r' : Run F) (m m' : Machine F)
      → call r m ≡ some (r', m')
      → Inv m.context.fiber m
      → Keeps m m'
  unfolding call
  call-Keeps (returns p f) r' m m' e inv = absurd (ground arith)
  call-Keeps (park k) r' m m' e inv =
      let q : (park_current m).1 ≡ m' = ground arith in subst (Keeps m) q (park_current-Keeps m inv)
  call-Keeps (get_context_id k) r' m m' e inv =
      let q : m ≡ m' = ground arith in subst (Keeps m) q (Keeps-refl m inv)
  call-Keeps (yield_poll k) r' m m' e inv =
      let q : yield_current m ≡ m' = ground arith in subst (Keeps m) q (yield_current-Keeps m inv)
  call-Keeps (lose_poller k) r' m m' e inv =
      let q : lose_current_poller m ≡ m' = ground arith in
      subst (Keeps m) q (lose_current_poller-Keeps m inv)
  call-Keeps (spawn_boxed f k) r' m m' e inv =
      let q : send m (spawn f) ≡ m' = ground arith in subst (Keeps m) q (send-Keeps m (spawn f) inv)
  call-Keeps (wakeup id k) r' m m' e inv =
      let q : send m (wake_up id) ≡ m' = ground arith in
      subst (Keeps m) q (send-Keeps m (wake_up id) inv)
  call-Keeps (drop_unpark u k) r' m m' e inv =
      let q : drop_held m u ≡ m' = ground arith in subst (Keeps m) q (drop_held-Keeps m u inv)

  pub Keeps-trans : {a b c : Machine F} → Keeps a b → Keeps b c → Keeps a c
  Keeps-trans {a} {b} {c} k l = record {
    inv = subst (λ (x : Option FiberId). Inv x c) k.current l.inv;
    current = l.current ∙ k.current;
    same_keys = λ i. l.same_keys i ∙ k.same_keys i;
    same_queue = l.same_queue ∙ k.same_queue;
  }

  pub after_call : {a b c : Machine F} → Keeps a b → (Inv b.context.fiber b → Keeps b c) → Keeps a c
  after_call {a} {b} k next =
      Keeps-trans k (next (subst (λ (x : Option FiberId). Inv x b) (sym k.current) k.inv))

  -- So does a whole `poll`, however many calls it makes.
  pub exec-Keeps : (r : Run F) (m : Machine F) → Inv m.context.fiber m → Keeps m (exec r m).0
  unfolding exec
  exec-Keeps (returns p f) m inv = Keeps-refl m inv
  exec-Keeps (park k) m inv =
      after_call (park_current-Keeps m inv) (exec-Keeps (k (park_current m).0) (park_current m).1)
  exec-Keeps (get_context_id k) m inv = exec-Keeps (k (current_context_id m)) m inv
  exec-Keeps (yield_poll k) m inv =
      after_call (yield_current-Keeps m inv) (exec-Keeps k (yield_current m))
  exec-Keeps (lose_poller k) m inv =
      after_call (lose_current_poller-Keeps m inv) (exec-Keeps k (lose_current_poller m))
  exec-Keeps (spawn_boxed f k) m inv =
      after_call (send-Keeps m (spawn f) inv) (exec-Keeps k (send m (spawn f)))
  exec-Keeps (wakeup id k) m inv =
      after_call (send-Keeps m (wake_up id) inv) (exec-Keeps k (send m (wake_up id)))
  exec-Keeps (drop_unpark u k) m inv =
      after_call (drop_held-Keeps m u inv) (exec-Keeps k (drop_held m u))
