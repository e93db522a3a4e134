-- ===== src/Prelude/HashMap.antt =====
-- `std::collections::HashMap` with keys of type usize, as far as the program uses it: an association
-- list whose order nothing observes.
use Prim.Native.Nat.{ℕ, ◌+◌, ◌<◌, ◌≤◌}
use mathlib.Core.Path.{◌≡◌}
use mathlib.Core.Bool.{Bool, true, false}
use mathlib.Core.List.{List, [], ◌∷◌}
use mathlib.Core.Option.{Option, none, some}
use native.Mathlib.Omega.{arith}
use fibers_rs.Prelude.Tests.{◌==◌, if◌then◌else◌}
use fibers_rs.Prelude.Lists.{length}

abbrev pub HashMap {ℓ} : Type ℓ → Type ℓ
HashMap V = List (ℕ × V)

abbrev pub is_some {ℓ} : {A : Type ℓ} → Option A → Bool
is_some none = false
is_some (some a) = true

module _ {ℓ} {V : Type ℓ} where
  unfoldable pub get : HashMap V → ℕ → Option V
  get [] k = none
  get ((j, v) ∷ m) k = if j == k then some v else get m k

  unfoldable pub contains_key : HashMap V → ℕ → Bool
  contains_key m k = is_some (get m k)

  unfoldable pub remove : HashMap V → ℕ → HashMap V
  remove [] k = []
  remove ((j, v) ∷ m) k = if j == k then remove m k else (j, v) ∷ remove m k

  unfoldable pub insert : HashMap V → ℕ → V → HashMap V
  unfolding remove
  insert m k v = (k, v) ∷ remove m k

  unfoldable pub len : HashMap V → ℕ
  len m = length m

  pub get-remove :
      (m : HashMap V) (k j : ℕ) → get (remove m k) j ≡ (if k == j then none else get m j)
  unfolding get remove
  get-remove [] k j = ground arith
  get-remove ((i, v) ∷ m) k j = ground (arith, get-remove m k j)

  pub get-insert :
      (m : HashMap V) (k : ℕ) (v : V) (j : ℕ)
      → get (insert m k v) j ≡ (if k == j then some v else get m j)
  unfolding get insert
  get-insert m k v j = ground (arith, get-remove m k j)

  pub len-remove_le : (m : HashMap V) (k : ℕ) → len (remove m k) ≤ len m
  unfolding len remove
  len-remove_le [] k = omega arith
  len-remove_le ((i, v) ∷ m) k = ground (arith, len-remove_le m k)

  -- Removing a key that is there makes the map smaller.
  pub len-remove_lt : (m : HashMap V) (k : ℕ) → contains_key m k ≡ true → len (remove m k) < len m
  unfolding len remove contains_key get
  len-remove_lt [] k h = ground arith
  len-remove_lt ((i, v) ∷ m) k h = ground (arith, len-remove_lt m k, len-remove_le m k)

  pub contains_key-remove :
      (m : HashMap V) (k j : ℕ)
      → contains_key (remove m k) j ≡ (if k == j then false else contains_key m j)
  unfolding contains_key
  contains_key-remove m k j = ground (arith, get-remove m k j)

  pub len-insert_le : (m : HashMap V) (k : ℕ) (v : V) → len (insert m k v) ≤ len m + 1
  unfolding len insert
  len-insert_le m k v = omega (arith, len-remove_le m k)

  pub len-insert_present :
      (m : HashMap V) (k : ℕ) (v : V) → contains_key m k ≡ true → len (insert m k v) ≤ len m
  len-insert_present m k v h = unfold insert len in omega (arith, len-remove_lt m k h)
