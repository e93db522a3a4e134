-- ===== src/Collections/Laws.antt =====
-- The operations of `HeapMap` (src/collections.rs) against the map from keys to values.
use fibers_rs.Prelude.{
  suc, ◌≡◌, sym, ◌∙◌, ap, ◌⊎◌, inl, inr, ◌&&◌, Bool, true, false, not, Option, none, some, arith,
  if◌then◌else◌, Option-cases, Bool-cases,
}
use fibers_rs.Prelude.HashMap.{is_some}
use fibers_rs.Collections.Tree.{Ord, SplayMap}
use fibers_rs.Collections.{HeapMap, map_or, push_if_absent, pop_if, peek, remove_key, heap_len}

module _ {K V : Type 0} {o : Ord K} (S : SplayMap K V o) where
  open S use {Map}

  -- The value that the heap holds for a key.
  abbrev pub find : HeapMap Map → K → Option V
  find h k = S.get h.inner k

  -- `k` is at most every key of the heap.
  abbrev pub IsLeast : HeapMap Map → K → Type 0
  IsLeast h k = (j : K) (w : V) → find h j ≡ some w → o.le k j ≡ true

  -- An entry goes in exactly when its key is absent, and no other key changes.
  pub push_if_absent_lem :
      (h : HeapMap Map) (k : K) (v : V)
      → ((push_if_absent S h k v).0 ≡ not (is_some (find h k)))
        × ((j : K)
            → find (push_if_absent S h k v).1 j
              ≡ (if not (is_some (find h k)) && o.beq k j then some v else find h j))
  unfolding push_if_absent
  push_if_absent_lem h k v = (
    ground (arith, S.contains_key-get h.inner k),
    λ j. ground (arith, S.contains_key-get h.inner k, S.get-insert h.inner k v j),
  )

  -- The outcomes of `pop_if`.
  pub data PopIf (h : HeapMap Map) (f : K → V → Bool) : Option (K × V) × HeapMap Map → Type 0 where
    empty : ((j : K) → find h j ≡ none) → PopIf h f (none, h)
    refused :
        (k : K) (v : V) → find h k ≡ some v → IsLeast h k → f k v ≡ false → PopIf h f (none, h)
    popped :
        (k : K) (v : V) (h' : HeapMap Map)
        → find h k ≡ some v
        → IsLeast h k
        → f k v ≡ true
        → ((j : K) → find h' j ≡ (if o.beq k j then none else find h j))
        → suc (heap_len S h') ≡ heap_len S h
        → PopIf h f (some (k, v), h')

  -- `pop_if` takes out the least entry if the predicate accepts it, and only then, and leaves every
  -- other entry; else the heap stays as it was.
  pub pop_if_lem : (h : HeapMap Map) (f : K → V → Bool) → PopIf h f (pop_if S h f)
  unfolding pop_if heap_len
  pop_if_lem h f = elim (Option-cases (S.smallest h.inner)) [
    | inl e ↦ rw (e, map_or) (empty (S.smallest-none h.inner e))
    | inr (kv, e) ↦ elim (Bool-cases (f kv.0 kv.1)) [
      | inl yes' ↦
          rw (e, map_or, yes', if◌then◌else◌, S.take_smallest-smallest h.inner, e)
            (popped kv.0 kv.1 (record { inner = (S.take_smallest h.inner).1 })
              (S.smallest-get h.inner kv.0 kv.1 e) (λ j w. S.smallest-le h.inner kv.0 kv.1 j w e)
              yes' (λ j. S.get-take_smallest h.inner kv.0 kv.1 j e)
              (S.len-take_smallest h.inner kv.0 kv.1 e))
      | inr no' ↦
          rw (e, map_or, no')
            (refused kv.0 kv.1 (S.smallest-get h.inner kv.0 kv.1 e)
              (λ j w. S.smallest-le h.inner kv.0 kv.1 j w e) no')
    ]
  ]

  -- `remove` says whether the key was there, and takes out that key alone.
  pub remove_key_lem :
      (h : HeapMap Map) (k : K)
      → ((remove_key S h k).0 ≡ is_some (find h k))
        × ((j : K) → find (remove_key S h k).1 j ≡ (if o.beq k j then none else find h j))
  unfolding remove_key
  remove_key_lem h k = (ap is_some (S.remove-get h.inner k), λ j. S.get-remove h.inner k j)

  -- `peek` shows the entry that `pop_if` with a predicate that always holds would take out.
  pub peek-pop_if : (h : HeapMap Map) → peek S h ≡ (pop_if S h (λ _ _. true)).0
  unfolding peek pop_if
  peek-pop_if h = elim (Option-cases (S.smallest h.inner)) [
    | inl e ↦ rw (e, map_or)
    | inr (kv, e) ↦ rw (e, map_or) (sym (S.take_smallest-smallest h.inner ∙ e))
  ]

  pub peek_lem :
      (h : HeapMap Map)
      → ((peek S h ≡ none) × ((j : K) → find h j ≡ none))
        ⊎ ((k : K) × (v : V) × (peek S h ≡ some (k, v)) × (find h k ≡ some v) × IsLeast h k)
  unfolding peek
  peek_lem h = elim (Option-cases (S.smallest h.inner)) [
    | inl e ↦ inl (e, S.smallest-none h.inner e)
    | inr (kv, e) ↦ inr (
      kv.0,
      kv.1,
      e,
      S.smallest-get h.inner kv.0 kv.1 e,
      (λ j w. S.smallest-le h.inner kv.0 kv.1 j w e),
    )
  ]
