-- ===== src/Poll/Evented/Refined.antt =====
-- The lock of src/io/poll/mod.rs makes the methods of the object behind it atomic.
use fibers_rs.Prelude.{
  ◌≡◌, refl, sym, ap, subst, ◌∙◌, ◌⊎◌, inl, inr, none, some, List, [], ◌∷◌, ◌++◌, map, arith,
  Option-cases,
}
use mathlib.Core.List.{map-append}
use fibers_rs.Prelude.Results.{ok}
use fibers_rs.SyncAtomic.{AtomicCell, drop_borrow, try_borrow_mut}
use fibers_rs.SyncAtomic.Borrows.{split_one, split_none}
use fibers_rs.Poll.Evented.{lock_round, lock, with_lock, new_sharable}
use fibers_rs.Poll.Evented.Sharing.{
  Phase, spinning, locked, called, released, Shared, asked, Atomic, Step, starts, spins, locks,
  runs, releases, Reach, start, later, Moves, asks, answers, Runs, call_of, held, in_cell, Refines,
}

module _ {A : Type 0} where
  -- A guard that holds `a` has the whole content.
  only_guard :
      (c : AtomicCell A) (before after : List A) (a b : A)
      → in_cell c.inner ++ (before ++ (a ∷ after)) ≡ b ∷ []
      → (c.inner ≡ none) × (before ≡ []) × (after ≡ []) × (b ≡ a)
  only_guard c before after a b e = elim (Option-cases c.inner) [
    | inl free ↦
        let (l, r, q) = split_one before after a b (ground (arith, e, free)) in (free, l, r, q)
    | inr (x, full) ↦ absurd (split_none before after a (ground (arith, e, full)))
  ]

  -- The content in the cell: no guard lives.
  no_guard :
      (c : AtomicCell A) (before after : List A) (a b : A)
      → in_cell c.inner ++ (before ++ after) ≡ b ∷ []
      → c.inner ≡ some a
      → (before ≡ []) × (after ≡ []) × (b ≡ a)
  no_guard c [] [] a b e q = (refl, refl, ground (arith, e, q))
  no_guard c [] (x ∷ after) a b e q = absurd (ground (arith, e, q))
  no_guard c (x ∷ before) after a b e q = absurd (ground (arith, e, q))

module _ {A B : Type 0} where
  held-append : (l r : List (Phase A B)) → held (l ++ r) ≡ held l ++ held r
  held-append [] r = refl
  held-append (spinning f ∷ l) r = held-append l r
  held-append (locked f a ∷ l) r = ap (λ z. a ∷ z) (held-append l r)
  held-append (called b a ∷ l) r = ap (λ z. a ∷ z) (held-append l r)
  held-append (released b ∷ l) r = held-append l r

  held-cons : (x : Phase A B) (r : List (Phase A B)) → held (x ∷ r) ≡ held (x ∷ []) ++ held r
  held-cons (spinning f) r = refl
  held-cons (locked f a) r = refl
  held-cons (called b a) r = refl
  held-cons (released b) r = refl

  held-around :
      (before after : List (Phase A B)) (x : Phase A B)
      → held (before ++ x ∷ after) ≡ held before ++ (held (x ∷ []) ++ held after)
  held-around before after x =
      held-append before (x ∷ after) ∙ ap (λ l. held before ++ l) (held-cons x after)

  content-around :
      {s : Shared A B} {o : Atomic A B}
      → (before after : List (Phase A B)) (x : Phase A B) → s.calls ≡ before ++ x ∷ after
      → Refines s o
      → in_cell s.cell.inner ++ (held before ++ (held (x ∷ []) ++ held after)) ≡ o.object ∷ []
  content-around {s} before after x e r =
      ap (λ l. in_cell s.cell.inner ++ l) (sym (held-around before after x) ∙ ap held (sym e))
      ∙ r.content

  calls-around :
      {s : Shared A B} {o : Atomic A B}
      → (before after : List (Phase A B)) (x : Phase A B) → s.calls ≡ before ++ x ∷ after
      → Refines s o
      → o.calls ≡ map call_of before ++ call_of x ∷ map call_of after
  calls-around before after x e r =
      sym r.calls ∙ ap (map call_of) e ∙ map-append call_of before (x ∷ after)

  around-Refines :
      {o : Atomic A B} (c : AtomicCell A) (before after : List (Phase A B)) (y : Phase A B)
      → in_cell c.inner ++ (held before ++ (held (y ∷ []) ++ held after)) ≡ o.object ∷ []
      → o.calls ≡ map call_of before ++ call_of y ∷ map call_of after
      → Refines (record { cell = c; calls = before ++ y ∷ after }) o
  around-Refines c before after y content calls = record {
    content = ap (λ l. in_cell c.inner ++ l) (held-around before after y) ∙ content;
    calls = map-append call_of before (y ∷ after) ∙ sym calls;
  }

  Step-Refines :
      {s t : Shared A B} {o : Atomic A B}
      → Step s t
      → Refines s o
      → Refines t o ⊎ ((p : Atomic A B) × Moves o p × Refines t p)
  unfolding lock_round try_borrow_mut drop_borrow
  Step-Refines {o = o} (starts s f) r =
      inr (_, asks o f, record { content = r.content; calls = ap (λ l. asked f ∷ l) r.calls })
  Step-Refines (spins s before after f c e q) r =
      inl (record { content = ground (arith, q, r.content); calls = r.calls })
  Step-Refines {o = o} (locks s before after f a c e q) r =
      let (l, h, same) =
        no_guard s.cell (held before) (held after) a o.object
          (content-around before after (spinning f) e r) (ground (arith, q)) in
      inl (
        around-Refines c before after (locked f a) (ground (arith, q, l, h, same))
          (calls-around before after (spinning f) e r))
  Step-Refines {o = o} (runs s before after f a e) r =
      let (free, l, h, same) =
        only_guard s.cell (held before) (held after) a o.object
          (content-around before after (locked f a) e r) in
      let calls = calls-around before after (locked f a) e r in
      inr (
        _,
        answers o (map call_of before) (map call_of after) f calls,
        around-Refines s.cell before after (called (f a).0 (f a).1)
            (ground (arith, free, l, h, same)) (ground (arith, same)),
      )
  Step-Refines {o = o} (releases s before after b a c e q) r =
      let (free, l, h, same) =
        only_guard s.cell (held before) (held after) a o.object
          (content-around before after (called b a) e r) in
      inl (
        around-Refines c before after (released b) (ground (arith, q, free, l, h, same))
          (calls-around before after (called b a) e r))

  -- A call that nobody interrupts is a run of the steps of a thread.
  pub with_lock-Reach :
      {inner : A} {s : Shared A B} (f : A → B × A) (b : B) (c : AtomicCell A)
      → Reach inner s
      → with_lock f s.cell ≡ ok (b, c)
      → Reach inner (record { cell = c; calls = released b ∷ s.calls })
  unfolding with_lock lock lock_round try_borrow_mut drop_borrow
  with_lock-Reach {inner} {s} f b c h e = elim (Option-cases s.cell.inner) [
    | inl taken ↦ absurd (ground (arith, e, taken))
    | inr (a, full) ↦
        let took : Reach inner
            (record { cell = record { inner = none }; calls = locked f a ∷ s.calls }) =
          later (later h (starts s f))
            (locks _ [] s.calls f a (record { inner = none }) refl (ground (arith, full))) in
        let gave_back : Reach inner (record {
          cell = record { inner = some (f a).1 };
          calls = released (f a).0 ∷ s.calls;
        }) =
          later (later took (runs _ [] s.calls f a refl))
            (releases _ [] s.calls (f a).0 (f a).1 (record { inner = some (f a).1 }) refl refl) in
        let same : ◌≡◌ {A = B × AtomicCell A} ((f a).0, record { inner = some (f a).1 }) (b, c) =
          ground (arith, e, full) in
        subst (λ x. Reach inner (record { cell = x.1; calls = released x.0 ∷ s.calls })) same
          gave_back
  ]

  -- Whatever the interleaving, there is a run of the same calls on an object whose methods are atomic,
  -- in which the same calls have been answered, with the same results, and the object is what the cell
  -- or the one guard holds.
  pub Reach-Refines :
      {inner : A} {s : Shared A B} → Reach inner s → (o : Atomic A B) × Runs inner o × Refines s o
  unfolding new_sharable
  Reach-Refines start = (_, Runs.start, record { content = refl; calls = refl })
  Reach-Refines (later h st) =
      let (o, runs_so_far, r) = Reach-Refines h in
      elim (Step-Refines st r) [
        | inl same ↦ (o, runs_so_far, same)
        | inr (p, moved, r') ↦ (p, Runs.later runs_so_far moved, r')
      ]
