-- ===== src/Collections/Tests.antt =====
-- The heap of src/collections.rs over the list of ListMap, at concrete inputs.
use fibers_rs.Prelude.{ℕ, ◌≡◌, refl, Bool, some, [], ◌∷◌, leb}
use fibers_rs.Collections.Tree.{SplayMap}
use fibers_rs.Collections.ListMap.{key_ord, list_map, get, remove, smallest, smaller, take_smallest}
use fibers_rs.Collections.{HeapMap, pop_if}
use fibers_rs.Collections.Drain.{drain}

abbrev lists : SplayMap (ℕ × ℕ) ℕ key_ord
lists = list_map (ℕ × ℕ) ℕ key_ord

-- Three timeouts: at 9, at 4 and at 5.
abbrev timeouts : HeapMap lists.Map
timeouts = record { inner = ((9, 0), 70) ∷ ((4, 1), 71) ∷ ((5, 2), 72) ∷ [] }

abbrev expired : ℕ × ℕ → ℕ → Bool
expired k _ = leb k.0 5

-- The entries come out in the order of their times, whatever the order they went in.
drain_runs :
    drain lists 4 timeouts expired
    ≡ some (((4, 1), 71) ∷ ((5, 2), 72) ∷ [], record { inner = ((9, 0), 70) ∷ [] })
unfolding drain pop_if smallest smaller take_smallest remove get
drain_runs = refl
