-- ===== src/Sync/Notifier.antt =====
-- src/sync/mod.rs: `Notifier`, with which the receiver of a channel waits for its senders.
use mathlib.Core.Option
use fibers_rs.Prelude.{
  ℕ, ◌+◌, ◌≡◌, refl, ap, ◌∙◌, inl, inr, ◌⊎◌, ◌<◌, Bool, true, false, ◌&&◌, Option, none, some, List,
  arith, ◌==◌, if◌then◌else◌, Bool-cases,
}
use fibers_rs.Prelude.HashMap.{get}
use fibers_rs.Prelude.Results.{Result, ok, Fault, ◌>>=◌}
use fibers_rs.SyncAtomic.{AtomicCell, new, try_borrow_mut, drop_borrow}
use fibers_rs.Fiber.State.{FiberId, ContextId, FiberState, Unpark, context_id}
use fibers_rs.Fiber.Schedule.{Machine, CurrentScheduler, update, send}
use fibers_rs.Fiber.Context.{
  as_context, current_context_id, park_current, drop_held, take_held, begin_drop, is_runnable,
}
use fibers_rs.Fiber.Invariant.{Inv, pending, is_fiber}
use fibers_rs.Fiber.Calls.{Keeps, Keeps-refl, after_call, park_current-Keeps, drop_held-Keeps}

-- The cell is shared (`Arc`) by the halves of a channel.
pub record Notifier : Type 0 where
  pub unpark : AtomicCell (Option Unpark)

unfoldable pub new_notifier : Notifier
unfolding new
new_notifier = record { unpark = new none }

-- `==` of two `Option<ContextId>`
abbrev pub same_context : Option ContextId → Option ContextId → Bool
same_context none none = true
same_context none (some d) = false
same_context (some c) none = false
same_context (some c) (some d) = c.0 == d.0 && c.1 == d.1

same_context-eq : (c d : Option ContextId) → same_context c d ≡ true → c ≡ d
same_context-eq none none e = refl
same_context-eq none (some d) e = absurd (ground arith)
same_context-eq (some c) none e = absurd (ground arith)
same_context-eq (some c) (some d) e = ground arith

some-of-map :
    (unpark : Option Unpark) (c : ContextId)
    → Option.map context_id unpark ≡ some c
    → (u : Unpark) × (unpark ≡ some u) × (context_id u ≡ c)
some-of-map none c e = absurd (ground arith)
some-of-map (some u) c e = (u, refl, ground arith)

module _ {F : Type 0} where
  -- The drop of an `Option<Unpark>`
  abbrev pub drop_option : Machine F → Option Unpark → Machine F
  drop_option m none = m
  drop_option m (some u) = drop_held m u

  -- The body of `await_notification` under the borrow: the new content of the cell.
  unfoldable pub awaited : Option Unpark → Machine F → Option Unpark × Machine F
  awaited unpark m =
      if same_context (Option.map context_id unpark) (current_context_id m)
      then (unpark, m)
      else (let (u, m') = park_current m in (u, drop_option m' unpark))

  -- The body of `notify` under the borrow.
  unfoldable pub notified : Option Unpark → Machine F → Option Unpark × Machine F
  notified unpark m = (none, drop_option m unpark)

  -- One round of the loops of `await_notification` and `notify`, around the body `f`; `none`: another
  -- thread has borrowed the cell, and the loop goes round again.
  unfoldable pub borrow_round :
      (Option Unpark → Machine F → Option Unpark × Machine F)
      → Notifier
      → Machine F
      → Result (Option (Notifier × Machine F)) Fault
  borrow_round f n m =
      let (got, c) = try_borrow_mut n.unpark in
      elim got [
        | none ↦ ok none
        | some unpark ↦ do
          let (unpark', m') = f unpark m
          c' ← drop_borrow c unpark'
          ok (some (record { unpark = c' }, m'))
      ]

  unfoldable pub await_notification :
      Notifier → Machine F → Result (Option (Notifier × Machine F)) Fault
  unfolding borrow_round
  await_notification = borrow_round awaited

  unfoldable pub notify : Notifier → Machine F → Result (Option (Notifier × Machine F)) Fault
  unfolding borrow_round
  notify = borrow_round notified

  pub borrow_round-free :
      (f : Option Unpark → Machine F → Option Unpark × Machine F) (n : Notifier) (m : Machine F)
      (unpark : Option Unpark)
      → n.unpark.inner ≡ some unpark
      → borrow_round f n m
        ≡ ok (some (record { unpark = record { inner = some (f unpark m).0 } }, (f unpark m).1))
  unfolding borrow_round try_borrow_mut drop_borrow
  borrow_round-free f n m unpark e = ground (arith, e)

  awaited-Keeps :
      (unpark : Option Unpark) (m : Machine F)
      → Inv m.context.fiber m
      → Keeps m (awaited unpark m).1
  unfolding awaited
  awaited-Keeps unpark m inv =
      elim (Bool-cases (same_context (Option.map context_id unpark) (current_context_id m))) [
        | inl same ↦ rw same (Keeps-refl m inv)
        | inr other ↦ rw other (after_call (park_current-Keeps m inv) (dropped unpark))
      ]
    where
      dropped :
          (old : Option Unpark)
          → Inv (park_current m).1.context.fiber (park_current m).1
          → Keeps (park_current m).1 (drop_option (park_current m).1 old)
      dropped none i = Keeps-refl _ i
      dropped (some u) i = drop_held-Keeps _ u i

  awaited_context :
      (unpark : Option Unpark) (m : Machine F) (s : CurrentScheduler) (id : FiberId)
      (f : FiberState F)
      → as_context m.context ≡ some (s, id)
      → get m.fibers id ≡ some f
      → f.fiber_id ≡ id
      → Option.map context_id (awaited unpark m).0 ≡ some (s.id, id)
  unfolding awaited current_context_id park_current context_id
  awaited_context unpark m s id f e at_id name =
      elim (Bool-cases (same_context (Option.map context_id unpark) (current_context_id m))) [
        | inl same ↦ ground (
          arith,
          same_context-eq (Option.map context_id unpark) (current_context_id m) same,
          e,
          same,
        )
        | inr other ↦ ground (arith, e, at_id, other)
      ]

  -- Called in a fiber while no other thread borrows the cell, `await_notification` does not loop or
  -- panic, leaves in the cell an `Unpark` of that fiber, and keeps the scheduler's invariant.
  pub await_notification_lem :
      (n : Notifier) (m : Machine F) (unpark : Option Unpark) (s : CurrentScheduler) (id : FiberId)
      (f : FiberState F)
      → n.unpark.inner ≡ some unpark
      → as_context m.context ≡ some (s, id)
      → get m.fibers id ≡ some f
      → Inv m.context.fiber m
      → (n' : Notifier) × (m' : Machine F) × (u : Unpark) × (await_notification n m
          ≡ ok (some (n', m')))
        × (n'.unpark.inner ≡ some (some u))
        × (context_id u ≡ (s.id, id))
        × Keeps m m'
  unfolding await_notification
  await_notification_lem n m unpark s id f free e at_id inv =
      let named = (inv.known id f at_id).named in
      let (u, q, c) =
        some-of-map (awaited unpark m).0 (s.id, id)
          (awaited_context unpark m s id f e at_id named) in
      (
        record { unpark = record { inner = some (awaited unpark m).0 } },
        (awaited unpark m).1,
        u,
        borrow_round-free awaited n m unpark free,
        ap some q,
        c,
        awaited-Keeps unpark m inv,
      )

  -- The fiber `i` is being polled, queued, or has a wake-up on the way; `running` is the fiber that is
  -- polled.
  abbrev pub IsWoken : Option FiberId → Machine F → FiberId → FiberState F → Type 0
  IsWoken running m i f = (is_fiber running i ≡ true) ⊎ (f.in_run_queue ≡ true) ⊎ (0 < pending m i)

  pub drop_held_effect :
      (m : Machine F) (u : Unpark) (rest : List Unpark)
      → take_held u m.held ≡ some rest
      → ((drop_held m u).counters ≡ update m.counters u.unparks (m.counters u.unparks + 1))
        × ((drop_held m u).fibers ≡ m.fibers)
  unfolding drop_held begin_drop send
  drop_held_effect m u rest found = elim (Bool-cases (m.counters u.unparks == 0)) [
    | inl first ↦ (ground (arith, found, first), ground (arith, found, first))
    | inr later ↦ (ground (arith, found, later), ground (arith, found, later))
  ]

  -- `notify`, while no other thread borrows the cell, empties it; the fiber that waits there can run
  -- then, and is being polled, queued, or about to be woken, whatever else its scheduler does.
  pub notify_lem :
      (n : Notifier) (m : Machine F) (u : Unpark) (rest : List Unpark) (i : FiberId)
      (f : FiberState F)
      → n.unpark.inner ≡ some (some u)
      → take_held u m.held ≡ some rest
      → get m.fibers i ≡ some f
      → f.unparks ≡ u.unparks
      → Inv m.context.fiber m
      → (n' : Notifier) × (m' : Machine F) × (notify n m ≡ ok (some (n', m')))
        × (n'.unpark.inner ≡ some none)
        × (get m'.fibers i ≡ some f)
        × (is_runnable m' f ≡ true)
        × IsWoken m.context.fiber m' i f
  unfolding notify notified is_runnable
  notify_lem n m u rest i f free found at_i same inv =
      let (counted, fibers) = drop_held_effect m u rest found in
      let k = drop_held-Keeps m u inv in
      let there : get (drop_held m u).fibers i ≡ some f = rw fibers at_i in
      let come : (drop_held m u).counters f.unparks ≡ m.counters u.unparks + 1 =
        ap (λ (c : ℕ → ℕ). c f.unparks) counted ∙ ground arith in
      (
        record { unpark = record { inner = some none } },
        drop_held m u,
        borrow_round-free notified n m (some u) free,
        refl,
        there,
        ground (arith, come),
        ground (arith, k.inv.known i f there, come),
      )

  -- Whatever `notify` finds in the cell, it leaves none.
  pub notify-empties :
      (n n' : Notifier) (m m' : Machine F)
      → notify n m ≡ ok (some (n', m'))
      → n'.unpark.inner ≡ some none
  unfolding notify notified try_borrow_mut drop_borrow
  notify-empties n n' m m' e = ground (arith, e)
