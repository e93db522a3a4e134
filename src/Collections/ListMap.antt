-- ===== src/Collections/ListMap.antt =====
-- A concrete `SplayMap`, a list searched from end to end, and the order of timeout keys: they show
-- that the laws asked of the crate can hold, and run the tests.
use fibers_rs.Prelude.{
  ℕ, suc, ◌≡◌, ◌↔◌, ◌⊎◌, refl, Bool, true, ◌&&◌, ◌||◌, Option, none, some, arith, List, [], ◌∷◌,
  ltb, leb, ◌==◌, if◌then◌else◌, Option-cases, inl, inr,
}
use fibers_rs.Prelude.HashMap.{is_some}
use fibers_rs.Collections.Tree.{Ord, SplayMap}

abbrev key_beq : ℕ × ℕ → ℕ × ℕ → Bool
key_beq (a, b) (c, d) = a == c && b == d

abbrev key_le : ℕ × ℕ → ℕ × ℕ → Bool
key_le (a, b) (c, d) = ltb a c || a == c && leb b d

pub key_le_trans : (a b c : ℕ × ℕ) → key_le a b ≡ true → key_le b c ≡ true → key_le a c ≡ true
key_le_trans (a, b) (c, d) (e, f) p q = ground arith

pub key_beq_iff : (a b : ℕ × ℕ) → (key_beq a b ≡ true) ↔ (a ≡ b)
key_beq_iff a b = ground arith

pub key_le_total : (a b : ℕ × ℕ) → (key_le a b ≡ true) ⊎ (key_le b a ≡ true)
key_le_total a b = ground arith

-- The order of `(time::Instant, usize)`.
abbrev pub key_ord : Ord (ℕ × ℕ)
key_ord = record {
  beq = key_beq;
  le = key_le;
  beq_iff = key_beq_iff;
  le_trans = key_le_trans;
  le_total = key_le_total;
}

beq_refl : {K : Type 0} (o : Ord K) (k : K) → o.beq k k ≡ true
beq_refl o k = (o.beq_iff k k).1 refl

module _ {K V : Type 0} (o : Ord K) where
  unfoldable pub get : List (K × V) → K → Option V
  get [] k = none
  get ((j, v) ∷ m) k = if o.beq j k then some v else get m k

  unfoldable pub remove : List (K × V) → K → List (K × V)
  remove [] k = []
  remove ((j, v) ∷ m) k = if o.beq j k then remove m k else (j, v) ∷ remove m k

  unfoldable pub smaller : K × V → Option (K × V) → K × V
  smaller e none = e
  smaller e (some d) = if o.le e.0 d.0 then e else d

  unfoldable pub smallest : List (K × V) → Option (K × V)
  smallest [] = none
  smallest (e ∷ m) = some (smaller e (smallest m))

  unfoldable pub size : List (K × V) → ℕ
  size [] = 0
  size ((k, v) ∷ m) = if is_some (get m k) then size m else suc (size m)

  unfoldable pub take_smallest : List (K × V) → Option (K × V) × List (K × V)
  take_smallest m = elim (smallest m) [ none ↦ (none, m) | some e ↦ (some e, remove m e.0) ]

  pub get-remove :
      (m : List (K × V)) (k j : K) → get (remove m k) j ≡ (if o.beq k j then none else get m j)
  unfolding get remove
  get-remove [] k j = ground arith
  get-remove ((i, v) ∷ m) k j =
      ground (arith, get-remove m k j, o.beq_iff i k, o.beq_iff i j, o.beq_iff k j)

  pub get-insert :
      (m : List (K × V)) (k : K) (v : V) (j : K)
      → get ((k, v) ∷ remove m k) j ≡ (if o.beq k j then some v else get m j)
  unfolding get
  get-insert m k v j = ground (arith, get-remove m k j)

  pub smallest-get :
      (m : List (K × V)) (k : K) (v : V) → smallest m ≡ some (k, v) → get m k ≡ some v
  unfolding get smallest smaller
  smallest-get [] k v e = ground arith
  smallest-get ((j, w) ∷ m) k v e = elim (Option-cases (smallest m)) [
    | inl q ↦ ground (arith, beq_refl o k)
    | inr (d, q) ↦
        ground
          (arith, smallest-get m d.0 d.1, beq_refl o k, beq_refl o j, o.beq_iff j k, o.le_total j j)
  ]

  pub smallest-none : (m : List (K × V)) → smallest m ≡ none → (k : K) → get m k ≡ none
  unfolding get smallest
  smallest-none [] e k = refl
  smallest-none (d ∷ m) e k = ground arith

  pub smallest-le :
      (m : List (K × V)) (k : K) (v : V) (j : K) (w : V)
      → smallest m ≡ some (k, v)
      → get m j ≡ some w
      → o.le k j ≡ true
  unfolding get smallest smaller
  smallest-le [] k v j w e q = ground arith
  smallest-le ((i, u) ∷ m) k v j w e q = elim (Option-cases (smallest m)) [
    | inl z ↦ ground (arith, smallest-none m z j, o.le_total i i, o.beq_iff i j)
    | inr (d, z) ↦ ground (
      arith,
      smallest-le m d.0 d.1 j w,
      o.beq_iff i j,
      o.le_total i i,
      o.le_total i d.0,
      o.le_trans i d.0 j,
    )
  ]

  pub size-remove :
      (m : List (K × V)) (k : K)
      → size m ≡ (if is_some (get m k) then suc (size (remove m k)) else size (remove m k))
  unfolding get remove size
  size-remove [] k = ground arith
  size-remove ((i, u) ∷ m) k =
      ground (arith, size-remove m k, get-remove m k i, o.beq_iff i k, o.beq_iff k i, beq_refl o k)

  pub size-insert :
      (m : List (K × V)) (k : K) (v : V)
      → get m k ≡ none
      → size ((k, v) ∷ remove m k) ≡ suc (size m)
  unfolding size
  size-insert m k v e = ground (arith, size-remove m k, get-remove m k k, beq_refl o k)

  pub take_smallest-smallest : (m : List (K × V)) → (take_smallest m).0 ≡ smallest m
  unfolding take_smallest
  take_smallest-smallest m = ground arith

  pub get-take_smallest :
      (m : List (K × V)) (k : K) (v : V) (j : K)
      → smallest m ≡ some (k, v)
      → get (take_smallest m).1 j ≡ (if o.beq k j then none else get m j)
  unfolding take_smallest
  get-take_smallest m k v j e = rw (e, take_smallest) (get-remove m k j)

  pub size-take_smallest :
      (m : List (K × V)) (k : K) (v : V)
      → smallest m ≡ some (k, v)
      → suc (size (take_smallest m).1) ≡ size m
  unfolding take_smallest
  size-take_smallest m k v e =
      rw (e, take_smallest) (ground (arith, size-remove m k, smallest-get m k v e))

  pub size-remove_absent : (m : List (K × V)) (k : K) → get m k ≡ none → size (remove m k) ≡ size m
  size-remove_absent m k e = ground (arith, size-remove m k)

  pub size-remove_present :
      (m : List (K × V)) (k : K) (v : V) → get m k ≡ some v → suc (size (remove m k)) ≡ size m
  size-remove_present m k v e = ground (arith, size-remove m k)

  pub get-nil : (k : K) → get [] k ≡ none
  unfolding get
  get-nil k = refl

module _ (K V : Type 0) (o : Ord K) where
  pub size-nil : size {K = K} {V = V} o [] ≡ 0
  unfolding size
  size-nil = refl

  abbrev pub list_map : SplayMap K V o
  list_map = record {
    Map = List (K × V);
    new = [];
    get = get o;
    contains_key = λ m k. is_some (get o m k);
    insert = λ m k v. (k, v) ∷ remove o m k;
    smallest = smallest o;
    take_smallest = take_smallest o;
    remove = λ m k. (get o m k, remove o m k);
    len = size o;
    get-new = get-nil o;
    len-new = size-nil;
    contains_key-get = λ m k. refl;
    get-insert = get-insert o;
    len-insert = size-insert o;
    smallest-none = smallest-none o;
    smallest-get = smallest-get o;
    smallest-le = smallest-le o;
    take_smallest-smallest = take_smallest-smallest o;
    get-take_smallest = get-take_smallest o;
    len-take_smallest = size-take_smallest o;
    remove-get = λ m k. refl;
    get-remove = get-remove o;
    len-remove_absent = size-remove_absent o;
    len-remove_present = size-remove_present o;
  }
