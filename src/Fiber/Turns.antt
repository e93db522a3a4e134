-- ===== src/Fiber/Turns.antt =====
-- `Scheduler::run_once` (src/fiber/schedule.rs): its loop ends after two rounds at most, and it waits
-- for a request only when there is nothing to do.
use fibers_rs.Prelude.{
  ℕ, suc, ◌+◌, ◌<◌, ◌≡◌, refl, sym, subst, ◌∙◌, ap, ◌⊎◌, inl, inr, Bool, true, false, ◌||◌, Option,
  none, some, List, [], ◌∷◌, ◌++◌, arith, count_by-append, List-cases, Bool-cases,
}
use fibers_rs.Prelude.HashMap.{get, len, get-insert}
use fibers_rs.Prelude.Usize.{usize_mod}
use fibers_rs.Prelude.Results.{Result, ok, Fault, ◌>>=◌}
use fibers_rs.Fiber.State.{FiberId, FiberState, Run}
use fibers_rs.Fiber.Schedule.{Request, Scheduler, Machine, next_runnable, handle_request}
use fibers_rs.Fiber.Context.{
  switch_context, poller_is_alive, run_fiber, receive, run_next, Turn, done, waiting, run_loop,
  run_once,
}
use fibers_rs.Fiber.Invariant.{is_wake_up, Inv}
use fibers_rs.Fiber.Scheduling.{
  popped, popped-Inv, NextRunnable, idle, next, next_runnable_lem, received-Inv,
}
use fibers_rs.Fiber.Requests.{Handled, handle_request_lem, rest_of, nothing, one, receive_lem}
use fibers_rs.Fiber.Running.{RunFiber, run_fiber_lem}

module _ {F : Type 0} where
  -- The thread of the scheduler runs no fiber, and the poller of its next context is alive.
  pub record IsReady (m : Machine F) : Type 0 where
    pub inv : Inv none m
    pub free : m.context.fiber ≡ none
    pub alive : poller_is_alive (switch_context m) ≡ true

  -- Requests that other threads send while the thread waits.
  arrived-Inv :
      (m : Machine F) (arrivals : List (Request F))
      → Inv none m
      → Inv none (rest_of m (m.requests ++ arrivals))
  arrived-Inv m arrivals inv = record {
    next_fits = inv.next_fits;
    queue = inv.queue;
    known = λ i g q.
        ground (arith, inv.known i g q, count_by-append (is_wake_up i) m.requests arrivals);
    owned = inv.owned;
  }

  -- Handling a request keeps the thread ready.
  pub Handled-IsReady :
      (m : Machine F) (rest : List (Request F)) {r : Result (Machine F) Fault}
      → IsReady m
      → (h : Handled (rest_of m rest) r) → IsReady h.after
  unfolding switch_context
  Handled-IsReady m rest ready h = record {
    inv = h.keeps;
    free = ap (λ c. c.fiber) h.same_context ∙ ready.free;
    alive = ap poller_is_alive h.same_switch ∙ ready.alive;
  }

module _ {F : Type 0} (poll : F → Run F) where
  -- `run_next` runs the fiber at the head of the run queue, or finds the queue empty.
  pub data RunNext (m : Machine F) (did : Bool) (res : Result (Machine F × Bool) Fault)
      : Type 0 where
    idles : m.run_queue ≡ [] → res ≡ ok (m, did) → RunNext m did res
    runs :
        (id : FiberId) (queue : List FiberId) (f : FiberState F)
        → m.run_queue ≡ id ∷ queue
        → get m.fibers id ≡ some f
        → (let m1 = record m { scheduler = popped m.scheduler id queue f } in
            (run : RunFiber poll m1 id (record f { in_run_queue = false }) (run_fiber poll m1 id))
            × (res ≡ ok (run.ended.after, true)))
        → RunNext m did res

  runs-popped :
      (m : Machine F) (id : FiberId) (queue : List FiberId) (f : FiberState F)
      → m.run_queue ≡ id ∷ queue
      → get m.fibers id ≡ some f
      → IsReady m
      → (let m1 = record m { scheduler = popped m.scheduler id queue f } in
          RunFiber poll m1 id (record f { in_run_queue = false }) (run_fiber poll m1 id))
  unfolding switch_context
  runs-popped m id queue f q at_id ready =
      let f' = record f { in_run_queue = false } in
      let m1 = record m { scheduler = popped m.scheduler id queue f } in
      let inv1 = popped-Inv m id queue f q at_id ready.inv in
      run_fiber_lem poll m1 id f' (get-insert m.fibers id f' id ∙ ground arith)
        (ground (arith, inv1.queue id, get-insert m.fibers id f' id)) ready.alive ready.free inv1

  pub run_next_lem : (m : Machine F) (did : Bool) → IsReady m → RunNext m did (run_next poll m did)
  unfolding run_next
  run_next_lem m did ready = go (next_runnable m.scheduler) refl (next_runnable_lem m ready.inv)
    where
      go :
          (n : Option FiberId × Scheduler F)
          → next_runnable m.scheduler ≡ n
          → NextRunnable m n
          → RunNext m did (run_next poll m did)
      go n e (idle q) = idles q (ground (arith, e))
      go n e (next id queue f q at_id) =
          let run = runs-popped m id queue f q at_id ready in
          runs id queue f q at_id (run, ground (arith, e, run.ended.result))

  -- How a turn of `run_once` ends: it waits only if it may, and then no request and no fiber is left.
  pub data IsTurn (block : Bool) : Turn F → Type 0 where
    returned : (m : Machine F) → Inv none m → m.context.fiber ≡ none → IsTurn block (done m)
    blocked :
        (m : Machine F)
        → IsReady m
        → block ≡ true
        → m.requests ≡ []
        → m.run_queue ≡ []
        → IsTurn block (waiting m)

  -- One round of the loop. It does something, or finds neither a request nor a fiber.
  record RoundResult (m : Machine F) (did : Bool) : Type 0 where
    received : Machine F
    got : Bool
    after : Machine F
    active : Bool
    receives : receive m ≡ ok (received, got)
    ran : run_next poll received (did || got) ≡ ok (after, active)
    keeps : Inv none after
    free : after.context.fiber ≡ none
    quiet :
        (active ≡ true) ⊎ ((active ≡ did) × (after ≡ m) × (m.requests ≡ []) × (m.run_queue ≡ []))

  round_after :
      (m m1 : Machine F) (did got : Bool)
      → receive m ≡ ok (m1, got)
      → IsReady m1
      → (got ≡ true) ⊎ ((got ≡ false) × (m1 ≡ m) × (m.requests ≡ []))
      → RoundResult m did
  round_after m m1 did got e ready w = elim (run_next_lem m1 (did || got) ready) [
    | idles q res ↦ record {
      received = m1;
      got = got;
      after = m1;
      active = did || got;
      receives = e;
      ran = res;
      keeps = ready.inv;
      free = ready.free;
      quiet = elim w [
        | inl hit ↦ inl (ground arith)
        | inr (miss, same, none_left) ↦
            inr (ground arith, same, none_left, ap (λ (x : Machine F). x.run_queue) (sym same) ∙ q)
      ];
    }
    | runs id queue f q at_id (run, res) ↦ record {
      received = m1;
      got = got;
      after = run.ended.after;
      active = true;
      receives = e;
      ran = res;
      keeps = run.ended.keeps;
      free = run.ended.left_fiber;
      quiet = inl refl;
    }
  ]

  round : (m : Machine F) (did : Bool) → IsReady m → len m.fibers < usize_mod → RoundResult m did
  round m did ready room = elim (receive_lem m ready.inv room) [
    | nothing e res ↦ round_after m m did false res ready (inr (refl, refl, e))
    | one r rest e h res ↦
        round_after m h.after did true res (Handled-IsReady m rest ready h) (inl refl)
  ]

  -- A round that does something is the last one.
  active_round :
      (n : ℕ) (block : Bool) (arrivals : List (Request F)) (did : Bool) (m : Machine F)
      → (r : RoundResult m did) → (r.active ≡ true) ⊎ (block ≡ false)
      → run_loop poll (suc n) block arrivals did m ≡ ok (done r.after)
  unfolding run_loop
  active_round n block arrivals did m r e = ground (arith, r.receives, r.ran)

  -- After a round that does nothing the thread takes the request that arrives, or goes on waiting.
  quiet_round :
      (n : ℕ) (arrivals : List (Request F)) (m : Machine F) (r : RoundResult m false)
      → r.active ≡ false
      → r.after.requests ++ arrivals ≡ []
      → run_loop poll (suc n) true arrivals false m ≡ ok (waiting r.after)
  unfolding run_loop
  quiet_round n arrivals m r q e = ground (arith, r.receives, r.ran, q, e)

  woken_round :
      (n : ℕ) (arrivals : List (Request F)) (m : Machine F) (r : RoundResult m false)
      → r.active ≡ false
      → (x : Request F) (rest : List (Request F)) (m' : Machine F)
      → r.after.requests ++ arrivals ≡ x ∷ rest
      → handle_request (rest_of r.after rest) x ≡ ok m'
      → run_loop poll (suc n) true arrivals false m ≡ run_loop poll n true [] true m'
  unfolding run_loop
  woken_round n arrivals m r q x rest m' e h = rw (run_loop, r.receives, ◌>>=◌, r.ran, q, e, h)

  last_round :
      (n : ℕ) (m : Machine F)
      → IsReady m
      → len m.fibers < usize_mod
      → (t : Turn F) × (run_loop poll (suc n) true [] true m ≡ ok t) × IsTurn true t
  last_round n m ready room =
      let r = round m true ready room in
      let active : r.active ≡ true = ground (arith, r.quiet) in
      (done r.after, active_round n true [] true m r (inl active), returned r.after r.keeps r.free)

  wait_round :
      (arrivals : List (Request F)) (m : Machine F) (r : RoundResult m false)
      → r.active ≡ false
      → IsReady r.after
      → len r.after.fibers + 1 < usize_mod
      → r.after.requests ≡ []
      → r.after.run_queue ≡ []
      → (t : Turn F) × (run_loop poll 2 true arrivals false m ≡ ok t) × IsTurn true t
  wait_round arrivals m r quiet ready room no_requests no_fibers = elim (List-cases arrivals) [
    | inl nobody ↦ (
      waiting r.after,
      quiet_round 1 arrivals m r quiet (rw (no_requests, nobody)),
      blocked r.after ready refl no_requests no_fibers,
    )
    | inr (x, rest, e) ↦
        let all : r.after.requests ++ arrivals ≡ x ∷ rest = rw (no_requests, e) in
        let sent = arrived-Inv r.after arrivals ready.inv in
        let h =
          handle_request_lem (rest_of r.after rest) x
            (received-Inv (rest_of r.after (r.after.requests ++ arrivals)) x rest all sent)
            (omega arith) in
        let (t, q, turn) =
          last_round 0 h.after (Handled-IsReady r.after rest ready h) (omega (arith, h.grows)) in
        (t, woken_round 1 arrivals m r quiet x rest h.after all h.result ∙ q, turn)
  ]

  -- On a ready thread with fewer than 2^64 - 1 fibers, `run_once` does not panic and its loop ends in
  -- two rounds, whatever the channel holds, the fibers do and the requests are that arrive meanwhile:
  -- it returns with the invariant kept, or waits; and it waits only if it may block and there is
  -- neither a request nor a runnable fiber.
  pub run_once_lem :
      (m : Machine F) (block : Bool) (arrivals : List (Request F))
      → IsReady m
      → len m.fibers + 1 < usize_mod
      → (t : Turn F) × (run_once poll m block arrivals ≡ ok t) × IsTurn block t
  unfolding run_once
  run_once_lem m block arrivals ready room =
      let r = round m false ready (omega arith) in
      elim (r.quiet) [
        | inl busy ↦ (
          done r.after,
          active_round 1 block arrivals false m r (inl busy),
          returned r.after r.keeps r.free,
        )
        | inr (quiet, same, no_requests, no_fibers) ↦ elim (Bool-cases block) [
          | inr free ↦ (
            done r.after,
            active_round 1 block arrivals false m r (inr free),
            returned r.after r.keeps r.free,
          )
          | inl waits ↦ rw waits (
              wait_round arrivals m r quiet (subst IsReady (sym same) ready)
                (subst (λ (x : Machine F). len x.fibers + 1 < usize_mod) (sym same) room)
                (ap (λ (x : Machine F). x.requests) same ∙ no_requests)
                (ap (λ (x : Machine F). x.run_queue) same ∙ no_fibers))
        ]
      ]
