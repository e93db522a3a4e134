-- ===== src/Collections/Drain.antt =====
-- The loop `while let Some(e) = heap.pop_if(f) { .. }` (src/io/poll/poller.rs runs it over the timeout
-- queue): which entries it takes out, in which order.
use mathlib.Core.Option
use fibers_rs.Prelude.{
  ℕ, zero, suc, ◌<◌, ◌≡◌, refl, Bool, true, false, ◌||◌, Option, none, some, arith, List, [], ◌∷◌,
  All, if◌then◌else◌, Bool-cases, inl, inr,
}
use fibers_rs.Collections.Tree.{Ord, SplayMap}
use fibers_rs.Collections.{HeapMap, pop_if, heap_len}
use fibers_rs.Collections.Laws.{find, IsLeast, PopIf, empty, refused, popped, pop_if_lem}

module _ {K V : Type 0} {o : Ord K} (S : SplayMap K V o) where
  open S use {Map}

  -- The entries taken out, first one first, and the heap that is left; `none`: the fuel ran out.
  unfoldable pub drain : ℕ → HeapMap Map → (K → V → Bool) → Option (List (K × V) × HeapMap Map)
  drain zero h f = none
  drain (suc n) h f =
      let r = pop_if S h f in
      elim r.0 [ none ↦ some ([], r.1) | some e ↦ Option.map (λ p. (e ∷ p.0, p.1)) (drain n r.1 f) ]

  abbrev pub listed : K → List (K × V) → Bool
  listed j [] = false
  listed j (e ∷ es) = o.beq e.0 j || listed j es

  -- Every key comes strictly before those that follow it.
  abbrev pub Ascending : List (K × V) → Type 0
  Ascending [] = Unit
  Ascending (e ∷ es) = All (λ d. (o.le e.0 d.0 ≡ true) × (o.beq e.0 d.0 ≡ false)) es × Ascending es

  pub record Drained (h : HeapMap Map) (f : K → V → Bool) (r : Option (List (K × V) × HeapMap Map))
      : Type 0 where
    pub taken : List (K × V)
    pub left : HeapMap Map
    pub result : r ≡ some (taken, left)
    pub held : All (λ e. (find S h e.0 ≡ some e.1) × (f e.0 e.1 ≡ true)) taken
    pub ascending : Ascending taken
    pub rest : (j : K) → find S left j ≡ (if listed j taken then none else find S h j)
    pub exhausted : (j : K) (w : V) → find S left j ≡ some w → f j w ≡ false

  module _ (f : K → V → Bool)
      (down : (k j : K) (v w : V) → o.le j k ≡ true → f k v ≡ true → f j w ≡ true) where
    refuse :
        (h : HeapMap Map) (k : K) (v : V)
        → IsLeast S h k
        → f k v ≡ false
        → (j : K) (w : V) → find S h j ≡ some w
        → f j w ≡ false
    refuse h k v least no' j w e = elim (Bool-cases (f j w)) [
      | inl yes' ↦ ground (arith, down j k w v (least j w e) yes')
      | inr no'' ↦ no''
    ]

    -- What is taken from the heap without `k` was in the heap, and lies above `k`.
    later :
        (h h' : HeapMap Map) (k : K) (es : List (K × V))
        → IsLeast S h k
        → ((j : K) → find S h' j ≡ (if o.beq k j then none else find S h j))
        → All (λ e. (find S h' e.0 ≡ some e.1) × (f e.0 e.1 ≡ true)) es
        → All (λ e. (find S h e.0 ≡ some e.1) × (f e.0 e.1 ≡ true)) es
          × All (λ d. (o.le k d.0 ≡ true) × (o.beq k d.0 ≡ false)) es
    later h h' k [] least away a = (tt, tt)
    later h h' k ((j, w) ∷ es) least away a =
        let here : (find S h j ≡ some w) × (o.beq k j ≡ false) = ground (arith, away j) in
        let (b, c) = later h h' k es least away a.1 in
        (((here.0, a.0.1), b), ((least j w here.0, here.1), c))

    drain-step :
        (n : ℕ) (h : HeapMap Map) (r : Option (K × V) × HeapMap Map)
        → pop_if S h f ≡ r
        → PopIf S h f r
        → ((h' : HeapMap Map) → suc (heap_len S h') ≡ heap_len S h → Drained h' f (drain n h' f))
        → Drained h f (drain (suc n) h f)
    unfolding drain
    drain-step n h r e (empty none_left) ih = record {
      taken = [];
      left = h;
      result = ground (arith, e);
      held = tt;
      ascending = tt;
      rest = λ j. refl;
      exhausted = λ j w q. cc (none_left j);
    }
    drain-step n h r e (refused k v at_k least no') ih = record {
      taken = [];
      left = h;
      result = ground (arith, e);
      held = tt;
      ascending = tt;
      rest = λ j. refl;
      exhausted = refuse h k v least no';
    }
    drain-step n h r e (popped k v h' at_k least yes' away size) ih =
        let d = ih h' size in
        let (held, above) = later h h' k d.taken least away d.held in
        record {
          taken = (k, v) ∷ d.taken;
          left = d.left;
          result = ground (arith, e, d.result);
          held = ((at_k, yes'), held);
          ascending = (above, d.ascending);
          rest = λ j. ground (arith, d.rest j, away j);
          exhausted = d.exhausted;
        }

    -- Fuel above the size of the heap is enough: the loop ends, and takes out all accepted entries.
    pub drain_lem : (n : ℕ) (h : HeapMap Map) → heap_len S h < n → Drained h f (drain n h f)
    drain_lem zero h lt = absurd (omega arith)
    drain_lem (suc n) h lt =
        drain-step n h (pop_if S h f) refl (pop_if_lem S h f)
          (λ h' size. drain_lem n h' (omega arith))
