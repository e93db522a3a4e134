-- ===== src/Collections/Tree.antt =====
-- What src/collections.rs uses of the `splay_tree` crate (`SplayMap`) and of `Ord`: operations with
-- the laws of an ordered map, stated through `get`. That a call may rebalance the tree is not seen.
use fibers_rs.Prelude.{ℕ, suc, ◌≡◌, Bool, true, Option, none, some, if◌then◌else◌, ◌⊎◌, ◌↔◌}
use fibers_rs.Prelude.HashMap.{is_some}

pub record Ord (K : Type 0) : Type 0 where
  pub beq : K → K → Bool
  pub le : K → K → Bool
  pub beq_iff : (a b : K) → (beq a b ≡ true) ↔ (a ≡ b)
  pub le_trans : (a b c : K) → le a b ≡ true → le b c ≡ true → le a c ≡ true
  pub le_total : (a b : K) → (le a b ≡ true) ⊎ (le b a ≡ true)

pub record SplayMap (K V : Type 0) (o : Ord K) : Type 1 where
  pub Map : Type 0
  pub new : Map
  pub get : Map → K → Option V
  pub contains_key : Map → K → Bool
  pub insert : Map → K → V → Map
  pub smallest : Map → Option (K × V)
  pub take_smallest : Map → Option (K × V) × Map
  pub remove : Map → K → Option V × Map
  pub len : Map → ℕ
  pub get-new : (k : K) → get new k ≡ none
  pub len-new : len new ≡ 0
  pub contains_key-get : (m : Map) (k : K) → contains_key m k ≡ is_some (get m k)
  pub get-insert :
      (m : Map) (k : K) (v : V) (j : K)
      → get (insert m k v) j ≡ (if o.beq k j then some v else get m j)
  pub len-insert : (m : Map) (k : K) (v : V) → get m k ≡ none → len (insert m k v) ≡ suc (len m)
  pub smallest-none : (m : Map) → smallest m ≡ none → (k : K) → get m k ≡ none
  pub smallest-get : (m : Map) (k : K) (v : V) → smallest m ≡ some (k, v) → get m k ≡ some v
  pub smallest-le :
      (m : Map) (k : K) (v : V) (j : K) (w : V)
      → smallest m ≡ some (k, v)
      → get m j ≡ some w
      → o.le k j ≡ true
  pub take_smallest-smallest : (m : Map) → (take_smallest m).0 ≡ smallest m
  pub get-take_smallest :
      (m : Map) (k : K) (v : V) (j : K)
      → smallest m ≡ some (k, v)
      → get (take_smallest m).1 j ≡ (if o.beq k j then none else get m j)
  pub len-take_smallest :
      (m : Map) (k : K) (v : V) → smallest m ≡ some (k, v) → suc (len (take_smallest m).1) ≡ len m
  pub remove-get : (m : Map) (k : K) → (remove m k).0 ≡ get m k
  pub get-remove :
      (m : Map) (k j : K) → get (remove m k).1 j ≡ (if o.beq k j then none else get m j)
  pub len-remove_absent : (m : Map) (k : K) → get m k ≡ none → len (remove m k).1 ≡ len m
  pub len-remove_present :
      (m : Map) (k : K) (v : V) → get m k ≡ some v → suc (len (remove m k).1) ≡ len m
