-- ===== src/Fiber/Threads.antt =====
-- The scheduler among other threads (src/fiber): the steps of its thread, one call of a fiber at a
-- time, interleaved in any order with drops of `Unpark` objects and requests from elsewhere.
use fibers_rs.Prelude.{
  ◌+◌, ◌<◌, ◌≡◌, refl, sym, subst, ◌∙◌, ap, ◌⊎◌, inl, inr, true, false, Option, none, some, List,
  ◌∷◌, ◌++◌, arith, if◌then◌else◌, count, Option-cases, Bool-cases,
}
use fibers_rs.Prelude.HashMap.{get, len, get-insert, is_some}
use fibers_rs.Prelude.Usize.{usize_mod}
use fibers_rs.Prelude.Results.{ok, Poll}
use fibers_rs.Poll.Handle.{PollerHandle}
use fibers_rs.Fiber.State.{FiberId, SchedulerId, FiberState, Unpark, Run, returns}
use fibers_rs.Fiber.Schedule.{
  Request, wake_up, Scheduler, Machine, next_runnable, handle_request, send, start,
}
use fibers_rs.Fiber.Context.{
  begin_drop, call, begin_fiber, end_fiber, switch_context, poller_is_alive, is_runnable,
}
use fibers_rs.Fiber.Invariant.{pending, is_fiber, held_at, Inv, Taken}
use fibers_rs.Fiber.Scheduling.{
  popped, popped-Inv, NextRunnable, idle, next, next_runnable_lem, received-Inv,
}
use fibers_rs.Fiber.Requests.{handle_request_lem, rest_of}
use fibers_rs.Fiber.Calls.{call-Keeps, dropped-Inv, sent-Inv, send-Inv}
use fibers_rs.Fiber.Running.{begin_fiber_lem, end_fiber_lem}

-- A machine, and what is left of the `poll` that its thread is in.
pub data World (F : Type 0) : Type 0 where
  at_rest : Machine F → World F
  polling : Machine F → FiberId → Run F → World F

abbrev pub machine : {F : Type 0} → World F → Machine F
machine (at_rest m) = m
machine (polling m id r) = m

abbrev pub with_machine : {F : Type 0} → World F → Machine F → World F
with_machine (at_rest m) m' = at_rest m'
with_machine (polling m id r) m' = polling m' id r

module _ {F : Type 0} (poll : F → Run F) where
  pub data Step : World F → World F → Type 0 where
    -- The scheduler's thread receives a request; memory holds fewer than 2^64 fibers.
    receives :
        (m m' : Machine F) (r : Request F) (rest : List (Request F))
        → m.requests ≡ r ∷ rest
        → len m.fibers < usize_mod
        → handle_request (rest_of m rest) r ≡ ok m'
        → Step (at_rest m) (at_rest m')
    -- It takes a fiber from the run queue, and polls it, a call at a time.
    starts :
        (m m' : Machine F) (s : Scheduler F) (id : FiberId) (task : F)
        → next_runnable m.scheduler ≡ (some id, s)
        → begin_fiber (record m { scheduler = s }) id ≡ ok (m', task)
        → Step (at_rest m) (polling m' id (poll task))
    calls :
        (m m' : Machine F) (id : FiberId) (r r' : Run F)
        → call r m ≡ some (r', m')
        → Step (polling m id r) (polling m' id r')
    ends :
        (m m' : Machine F) (id : FiberId) (p : Poll (Unit {0}) (Unit {0})) (task : F)
        → end_fiber m id p task ≡ ok m'
        → Step (polling m id (returns p task)) (at_rest m')
    -- A thread drops an `Unpark`; if it is the first, the wake-up follows in another step.
    drops :
        (w : World F) (u : Unpark) (rest : List Unpark)
        → Taken u (machine w).held rest
        → Step w (
            with_machine w (record (begin_drop (machine w) u rest).0 {
              sending =
                  if (begin_drop (machine w) u rest).1
                  then u.fiber_id ∷ (machine w).sending
                  else (machine w).sending;
            }))
    sends :
        (w : World F) (id : FiberId) (before after : List FiberId)
        → (machine w).sending ≡ before ++ id ∷ after
        → Step w
            (with_machine w (send (record (machine w) { sending = before ++ after }) (wake_up id)))
    -- A thread uses a handle of the scheduler.
    asks : (w : World F) (r : Request F) → Step w (with_machine w (send (machine w) r))

  pub data Reach (id : SchedulerId) (p : PollerHandle) : World F → Type 0 where
    new : Reach id p (at_rest (start id p))
    later : {w w' : World F} → Reach id p w → Step w w' → Reach id p w'

  -- The fiber that is being polled exists, is not queued, and is the one of the context.
  abbrev pub IsSafe : World F → Type 0
  IsSafe (at_rest m) = Inv none m × (m.context.fiber ≡ none)
  IsSafe (polling m id r) =
      Inv (some id) m
      × (m.context.fiber ≡ some id)
      × (count id m.run_queue ≡ 0)
      × (is_some (get m.fibers id) ≡ true)

  receives-IsSafe :
      (m m' : Machine F) (r : Request F) (rest : List (Request F))
      → m.requests ≡ r ∷ rest
      → len m.fibers < usize_mod
      → handle_request (rest_of m rest) r ≡ ok m'
      → IsSafe (at_rest m)
      → IsSafe (at_rest m')
  receives-IsSafe m m' r rest e room q (inv, free) =
      let h = handle_request_lem (rest_of m rest) r (received-Inv m r rest e inv) room in
      let same : h.after ≡ m' = ground (arith, h.result, q) in
      subst (λ x. IsSafe (at_rest x)) same (h.keeps, ap (λ c. c.fiber) h.same_context ∙ free)

  begin-alive :
      (m : Machine F) (id : FiberId) (p : Machine F × F)
      → begin_fiber m id ≡ ok p
      → poller_is_alive (switch_context m) ≡ true
  unfolding begin_fiber
  begin-alive m id p e = elim (Bool-cases (poller_is_alive (switch_context m))) [
    | inl alive ↦ alive
    | inr dead ↦ absurd (ground (arith, dead))
  ]

  starts-popped :
      (m m' : Machine F) (id : FiberId) (queue : List FiberId) (f : FiberState F) (task : F)
      → m.run_queue ≡ id ∷ queue
      → get m.fibers id ≡ some f
      → begin_fiber (record m { scheduler = popped m.scheduler id queue f }) id ≡ ok (m', task)
      → IsSafe (at_rest m)
      → IsSafe (polling m' id (poll task))
  starts-popped m m' id queue f task q at_id b (inv, free) =
      let f' = record f { in_run_queue = false } in
      let m1 = record m { scheduler = popped m.scheduler id queue f } in
      let inv1 = popped-Inv m id queue f q at_id inv in
      let at_id1 : get m1.fibers id ≡ some f' = get-insert m.fibers id f' id ∙ ground arith in
      let out : count id m1.run_queue ≡ 0 = ground (arith, inv1.queue id, at_id1) in
      let begun = begin_fiber_lem m1 id f' at_id1 (begin-alive m1 id (m', task) b) free inv1 in
      let same : begun.after ≡ m' = ground (arith, begun.result, b) in
      subst (λ (x : Machine F). IsSafe (polling x id (poll task))) same
        (begun.keeps, begun.current, ap (count id) begun.same_queue ∙ out, begun.still_there)

  starts-IsSafe :
      (m m' : Machine F) (n : Option FiberId × Scheduler F) (s : Scheduler F) (id : FiberId)
      (task : F)
      → NextRunnable m n
      → n ≡ (some id, s)
      → begin_fiber (record m { scheduler = s }) id ≡ ok (m', task)
      → IsSafe (at_rest m)
      → IsSafe (polling m' id (poll task))
  starts-IsSafe m m' n s id task (idle q) e b safe = absurd (ground (arith, e))
  starts-IsSafe m m' n s id task (next j queue f q at_j) e b safe =
      let same_id : j ≡ id = ground (arith, e) in
      let same_s : popped m.scheduler j queue f ≡ s =
        ap (λ (x : Option FiberId × Scheduler F). x.1) e in
      let b1 =
        subst (λ (x : FiberId). begin_fiber (record m { scheduler = s }) x ≡ ok (m', task))
          (sym same_id) b in
      let b2 =
        subst (λ (x : Scheduler F). begin_fiber (record m { scheduler = x }) j ≡ ok (m', task))
          (sym same_s) b1 in
      subst (λ (x : FiberId). IsSafe (polling m' x (poll task))) same_id
        (starts-popped m m' j queue f task q at_j b2 safe)

  calls-IsSafe :
      (m m' : Machine F) (id : FiberId) (r r' : Run F)
      → call r m ≡ some (r', m')
      → IsSafe (polling m id r)
      → IsSafe (polling m' id r')
  calls-IsSafe m m' id r r' e (inv, cur, out, there) =
      let k = call-Keeps r r' m m' e (subst (λ (x : Option FiberId). Inv x m) (sym cur) inv) in
      (
        subst (λ (x : Option FiberId). Inv x m') cur k.inv,
        k.current ∙ cur,
        ap (count id) k.same_queue ∙ out,
        k.same_keys id ∙ there,
      )

  ends-IsSafe :
      (m m' : Machine F) (id : FiberId) (p : Poll (Unit {0}) (Unit {0})) (task : F)
      → end_fiber m id p task ≡ ok m'
      → IsSafe (polling m id (returns p task))
      → IsSafe (at_rest m')
  ends-IsSafe m m' id p task e (inv, cur, out, there) = elim (Option-cases (get m.fibers id)) [
    | inl gone ↦ absurd (ground (arith, gone, there))
    | inr (f, at_id) ↦
        let done =
          end_fiber_lem m id f p task at_id (ground (arith, inv.queue id, at_id, out)) inv in
        let same : done.after ≡ m' = ground (arith, done.result, e) in
        subst (λ (x : Machine F). IsSafe (at_rest x)) same (done.keeps, done.left_fiber)
  ]

  -- Every step, of whichever thread, keeps the system safe: the invariant of the scheduler holds, and
  -- the fiber that is being polled, if any, exists, is not queued and is the one of the context.
  pub Step-IsSafe : {w w' : World F} → Step w w' → IsSafe w → IsSafe w'
  unfolding begin_drop send
  Step-IsSafe (receives m m' r rest e room q) safe = receives-IsSafe m m' r rest e room q safe
  Step-IsSafe (starts m m' s id task e b) safe =
      starts-IsSafe m m' (next_runnable m.scheduler) s id task (next_runnable_lem m safe.0) e b safe
  Step-IsSafe (calls m m' id r r' e) safe = calls-IsSafe m m' id r r' e safe
  Step-IsSafe (ends m m' id p task e) safe = ends-IsSafe m m' id p task e safe
  Step-IsSafe (drops (at_rest m) u rest t) safe = (dropped-Inv m u rest t safe.0, safe.1)
  Step-IsSafe (drops (polling m id r) u rest t) safe =
      (dropped-Inv m u rest t safe.0, safe.1, safe.2, safe.3)
  Step-IsSafe (sends (at_rest m) id before after e) safe =
      (sent-Inv m id before after e safe.0, safe.1)
  Step-IsSafe (sends (polling m j r) id before after e) safe =
      (sent-Inv m id before after e safe.0, safe.1, safe.2, safe.3)
  Step-IsSafe (asks (at_rest m) q) safe = (send-Inv m q safe.0, safe.1)
  Step-IsSafe (asks (polling m id r) q) safe = (send-Inv m q safe.0, safe.1, safe.2, safe.3)

  pub start-Inv : (id : SchedulerId) (p : PollerHandle) → Inv none (start {F = F} id p)
  unfolding start get
  start-Inv id p = record {
    next_fits = omega arith;
    queue = λ i. refl;
    known = λ i f e. absurd (ground arith);
    owned = tt;
  }

  pub Reach-IsSafe : {id : SchedulerId} {p : PollerHandle} {w : World F} → Reach id p w → IsSafe w
  unfolding start
  Reach-IsSafe {id} {p} new = (start-Inv id p, refl)
  Reach-IsSafe (later r s) = Step-IsSafe s (Reach-IsSafe r)

  -- Which fiber a world is polling.
  abbrev pub polled_id : World F → Option FiberId
  polled_id (at_rest m) = none
  polled_id (polling m id r) = some id

  -- No wake-up is lost: in every reachable state, a live fiber that could run and is not being polled
  -- is in the run queue, or a wake-up for it is in the channel or about to be sent.
  pub no_lost_wakeup :
      {id : SchedulerId} {p : PollerHandle} {w : World F}
      → Reach id p w
      → (i : FiberId) (f : FiberState F) → get (machine w).fibers i ≡ some f
      → is_fiber (polled_id w) i ≡ false
      → is_runnable (machine w) f ≡ true
      → (count i (machine w).run_queue ≡ 1) ⊎ (0 < pending (machine w) i)
  unfolding is_runnable
  no_lost_wakeup {w = at_rest m} reach i f e other run =
      let inv = (Reach-IsSafe reach).0 in ground (arith, inv.queue i, inv.known i f e)
  no_lost_wakeup {w = polling m id r} reach i f e other run =
      let inv = (Reach-IsSafe reach).0 in ground (arith, inv.queue i, inv.known i f e)

  queued_live :
      {cur : Option FiberId} (m : Machine F)
      → Inv cur m
      → (i : FiberId) → 0 < count i m.run_queue
      → (count i m.run_queue ≡ 1)
        × ((f : FiberState F) × (get m.fibers i ≡ some f) × (f.in_run_queue ≡ true))
  queued_live m inv i h = elim (Option-cases (get m.fibers i)) [
    | inl gone ↦ absurd (ground (arith, inv.queue i, gone))
    | inr (f, e) ↦ (ground (arith, inv.queue i, e), (f, e, ground (arith, inv.queue i, e)))
  ]

  -- The run queue holds live fibers only, and none twice.
  pub run_queue_live :
      {id : SchedulerId} {p : PollerHandle} {w : World F}
      → Reach id p w
      → (i : FiberId) → 0 < count i (machine w).run_queue
      → (count i (machine w).run_queue ≡ 1)
        × ((f : FiberState F) × (get (machine w).fibers i ≡ some f) × (f.in_run_queue ≡ true))
  run_queue_live {w = at_rest m} reach i h = queued_live m (Reach-IsSafe reach).0 i h
  run_queue_live {w = polling m id r} reach i h = queued_live m (Reach-IsSafe reach).0 i h

  -- Parks and unparks balance: for every live fiber the unparks that have come and the `Unpark`
  -- objects that still exist make up its parks.
  pub parks_balance :
      {id : SchedulerId} {p : PollerHandle} {w : World F}
      → Reach id p w
      → (i : FiberId) (f : FiberState F) → get (machine w).fibers i ≡ some f
      → (machine w).counters f.unparks + held_at f.unparks (machine w).held ≡ f.parks
  parks_balance {w = at_rest m} reach i f e = ((Reach-IsSafe reach).0.known i f e).balance
  parks_balance {w = polling m id r} reach i f e = ((Reach-IsSafe reach).0.known i f e).balance

  -- The raw pointer in the context names a live fiber whenever it is set.
  pub context_pointer_valid :
      {id : SchedulerId} {p : PollerHandle} {w : World F}
      → Reach id p w
      → (i : FiberId) → (machine w).context.fiber ≡ some i
      → (is_some (get (machine w).fibers i) ≡ true) × (polled_id w ≡ some i)
  context_pointer_valid {w = at_rest m} reach i e = absurd (ground (arith, (Reach-IsSafe reach).1))
  context_pointer_valid {w = polling m id r} reach i e =
      let (inv, cur, out, there) = Reach-IsSafe reach in
      let same : id ≡ i = ground arith in
      (subst (λ (x : FiberId). is_some (get m.fibers x) ≡ true) same there, ap some same)
