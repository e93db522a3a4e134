-- ===== src/SyncAtomic/Borrows.antt =====
-- Threads that borrow one `AtomicCell` (src/sync_atomic.rs), in any interleaving of their swaps.
use fibers_rs.Prelude.{◌≡◌, refl, ◌⊎◌, inl, inr, none, some, List, [], ◌∷◌, ◌++◌, arith}
use fibers_rs.Prelude.Results.{ok}
use fibers_rs.SyncAtomic.{AtomicCell, new, try_borrow_mut, drop_borrow, drop_cell}

-- The cell, and what the live guards hold.
pub record Shared (A : Type 0) : Type 0 where
  pub cell : AtomicCell A
  pub guards : List A

module _ {A : Type 0} where
  pub data Step : Shared A → Shared A → Type 0 where
    borrows :
        (s : Shared A) (a : A) (c : AtomicCell A)
        → try_borrow_mut s.cell ≡ (some a, c)
        → Step s (record { cell = c; guards = a ∷ s.guards })
    fails :
        (s : Shared A) (c : AtomicCell A)
        → try_borrow_mut s.cell ≡ (none, c)
        → Step s (record s { cell = c })
    -- `deref_mut`
    writes :
        (s : Shared A) (before after : List A) (a b : A)
        → s.guards ≡ before ++ a ∷ after
        → Step s (record s { guards = before ++ b ∷ after })
    releases :
        (s : Shared A) (before after : List A) (a : A) (c : AtomicCell A)
        → s.guards ≡ before ++ a ∷ after
        → drop_borrow s.cell a ≡ ok c
        → Step s (record { cell = c; guards = before ++ after })

  pub data Reach (a : A) : Shared A → Type 0 where
    start : Reach a (record { cell = new a; guards = [] })
    later : {s t : Shared A} → Reach a s → Step s t → Reach a t

  -- The content is in the cell, or one guard has it.
  pub data IsExclusive (s : Shared A) : Type 0 where
    free : (a : A) → s.cell.inner ≡ some a → s.guards ≡ [] → IsExclusive s
    held : (a : A) → s.cell.inner ≡ none → s.guards ≡ a ∷ [] → IsExclusive s

  pub split_one :
      (before after : List A) (a b : A)
      → b ∷ [] ≡ before ++ a ∷ after
      → (before ≡ []) × (after ≡ []) × (b ≡ a)
  split_one [] after a b e = ground (arith, e)
  split_one (x ∷ []) after a b e = absurd (ground (arith, e))
  split_one (x ∷ y ∷ before) after a b e = absurd (ground (arith, e))

  pub split_none : (before after : List A) (a : A) → ¬ ([] ≡ before ++ a ∷ after)
  split_none [] after a e = ground (arith, e)
  split_none (x ∷ before) after a e = ground (arith, e)

  Step-IsExclusive : {s t : Shared A} → Step s t → IsExclusive s → IsExclusive t
  unfolding try_borrow_mut drop_borrow
  Step-IsExclusive (borrows s a c e) (free b q g) = held a (ground arith) (ground arith)
  Step-IsExclusive (borrows s a c e) (held b q g) = absurd (ground arith)
  Step-IsExclusive (fails s c e) (free b q g) = absurd (ground arith)
  Step-IsExclusive (fails s c e) (held b q g) = held b (ground arith) g
  Step-IsExclusive (writes s before after a b g) (free x q h) =
      absurd (split_none before after a (ground arith))
  Step-IsExclusive (writes s before after a b g) (held x q h) =
      let (l, r, _) = split_one before after a x (ground arith) in held b q (ground arith)
  Step-IsExclusive (releases s before after a c g e) (free x q h) =
      absurd (split_none before after a (ground arith))
  Step-IsExclusive (releases s before after a c g e) (held x q h) =
      let (l, r, _) = split_one before after a x (ground arith) in
      free a (ground arith) (ground arith)

  -- In every reachable state exactly one of the cell and the guards has the content, so at most one
  -- guard lives.
  pub Reach-IsExclusive : {a : A} {s : Shared A} → Reach a s → IsExclusive s
  unfolding new
  Reach-IsExclusive {a} start = free a refl refl
  Reach-IsExclusive (later r st) = Step-IsExclusive st (Reach-IsExclusive r)

  -- In every reachable state either no guard lives, and the cell can be borrowed and dropped, or one
  -- guard lives, borrowing fails, and the drop of the guard does not panic and puts its content back.
  pub drops_succeed :
      {a : A} {s : Shared A}
      → Reach a s
      → ((s.guards ≡ [])
          × (drop_cell s.cell ≡ ok tt)
          × ((b : A) × ((try_borrow_mut s.cell).0 ≡ some b)))
        ⊎ ((b : A) × (s.guards ≡ b ∷ [])
            × ((try_borrow_mut s.cell).0 ≡ none)
            × (drop_borrow s.cell b ≡ ok (record { inner = some b })))
  unfolding drop_borrow drop_cell try_borrow_mut
  drops_succeed {s} r = elim (Reach-IsExclusive r) [
    | free x q h ↦ inl (h, ground (arith, q), (x, q))
    | held x q h ↦ inr (x, h, q, ground (arith, q))
  ]
