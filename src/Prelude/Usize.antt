-- ===== src/Prelude/Usize.antt =====
-- Machine words, and the search for an unused identifier that the scheduler (`next_fiber_id`) and
-- the poller (`next_token`) share.
use Prim.Native.Nat.{ℕ, zero, suc, ◌+◌, ◌%◌, ◌^◌, ◌<◌, ◌≤◌}
use mathlib.Core.Path.{◌≡◌, ap, ◌∙◌}
use mathlib.Core.Bool.{Bool, true, false}
use mathlib.Core.Option.{Option, none, some}
use mathlib.Core.Logic.{inl, inr, ◌≢◌}
use native.Mathlib.Omega.{arith}
use fibers_rs.Prelude.Tests.{if◌then◌else◌, Bool-cases}
use fibers_rs.Prelude.HashMap.{
  HashMap, contains_key, remove, len, len-remove_lt, contains_key-remove,
}

-- The number of values of usize, on the 64-bit targets.
abbrev pub usize_mod : ℕ
usize_mod = 2 ^ 64

-- `n.wrapping_add(k)`
abbrev pub wrapping_add : ℕ → ℕ → ℕ
wrapping_add n k = (n + k) % usize_mod

-- `loop { let id = next; next = id.wrapping_add(1); if !used(id) { return id; } }`, with fuel;
-- the result is the identifier and the new value of `next`.
unfoldable pub free_id : ℕ → (ℕ → Bool) → ℕ → Option (ℕ × ℕ)
free_id zero used next = none
free_id (suc f) used next =
    let rest = free_id f used (wrapping_add next 1) in
    if used next then rest else some (next, wrapping_add next 1)

-- The search ended at the first unused identifier from `next` on, after `skipped` used ones.
pub record FirstFree (used : ℕ → Bool) (next : ℕ) (r : Option (ℕ × ℕ)) : Type 0 where
  pub skipped : ℕ
  pub result : r ≡ some (wrapping_add next skipped, wrapping_add next (skipped + 1))
  pub free : used (wrapping_add next skipped) ≡ false
  pub taken : (i : ℕ) → i < skipped → used (wrapping_add next i) ≡ true

wrap_zero : (next : ℕ) → next < usize_mod → wrapping_add next 0 ≡ next
wrap_zero next lt = omega arith

wrap_suc : (next k : ℕ) → wrapping_add (wrapping_add next 1) k ≡ wrapping_add next (suc k)
wrap_suc next k = omega arith

wrap_ne : (next k : ℕ) → next < usize_mod → suc k < usize_mod → next ≢ wrapping_add next (suc k)
wrap_ne next k lt h = omega arith

FirstFree-step :
    {used : ℕ → Bool} {next : ℕ} {r : Option (ℕ × ℕ)}
    → next < usize_mod
    → used next ≡ true
    → FirstFree used (wrapping_add next 1) r
    → FirstFree used next r
FirstFree-step {used} {next} {r} lt e s = record {
  skipped = suc s.skipped;
  result = s.result ∙ ap some (ground arith);
  free =
      let e' : wrapping_add (wrapping_add next 1) s.skipped ≡ wrapping_add next (suc s.skipped) =
        omega arith in
      rw e' at s.free;
  taken = before;
}
  where
    before : (i : ℕ) → i < suc s.skipped → used (wrapping_add next i) ≡ true
    before zero h = let e' : wrapping_add next zero ≡ next = omega arith in rw e' e
    before (suc i) h =
        let e' : wrapping_add next (suc i) ≡ wrapping_add (wrapping_add next 1) i = omega arith in
        rw e' (s.taken i (omega arith))

-- If one of the next `f` identifiers is unused, `f` rounds are enough.
free_id-FirstFree :
    (f : ℕ) (used : ℕ → Bool) (next k : ℕ)
    → next < usize_mod
    → k < f
    → used (wrapping_add next k) ≡ false
    → FirstFree used next (free_id f used next)
unfolding free_id
free_id-FirstFree zero used next k lt h e = absurd (omega arith)
free_id-FirstFree (suc f) used next zero lt h e =
    let e' : used next ≡ false = rw (wrap_zero next lt) at e in
    rw e' (record {
      skipped = 0;
      result = ap some (ground (arith, wrap_zero next lt));
      free = e;
      taken = λ i h'. absurd (omega arith);
    })
free_id-FirstFree (suc f) used next (suc k) lt h e = elim (Bool-cases (used next)) [
  | inl busy ↦
      rw (busy, if◌then◌else◌)
        (FirstFree-step lt busy (
          free_id-FirstFree f used (wrapping_add next 1) k (omega arith) (omega arith)
            (rw (wrap_suc next k) e)))
  | inr free ↦ rw free (record {
    skipped = 0;
    result = ap some (ground (arith, wrap_zero next lt));
    free = rw (wrap_zero next lt) free;
    taken = λ i h'. absurd (omega arith);
  })
]

-- Fewer keys than identifiers: one of the next `n` identifiers is no key.
unused_within {ℓ} :
    {V : Type ℓ} (n : ℕ) (m : HashMap V) (next : ℕ)
    → next < usize_mod
    → len m < n
    → n ≤ usize_mod
    → (k : ℕ) × (k < n) × (contains_key m (wrapping_add next k) ≡ false)
unused_within zero m next lt h le = absurd (omega arith)
unused_within (suc n) m next lt h le = elim (Bool-cases (contains_key m next)) [
  | inl busy ↦
      let (k, below, free) =
        unused_within n (remove m next) (wrapping_add next 1) (omega arith)
          (omega (arith, len-remove_lt m next busy)) (omega arith) in
      (
        suc k,
        omega arith,
        ground (
          arith,
          free,
          contains_key-remove m next (wrapping_add (wrapping_add next 1) k),
          wrap_suc next k,
          wrap_ne next k lt (omega arith),
        ),
      )
  | inr free ↦ (0, omega arith, let e : wrapping_add next 0 ≡ next = omega arith in rw e free)
]

-- With one round more than there are keys, the search ends, and at the first identifier that is no
-- key; the keys must leave one identifier over.
pub free_id_total {ℓ} :
    {V : Type ℓ} (m : HashMap V) (next : ℕ)
    → next < usize_mod
    → len m < usize_mod
    → FirstFree (contains_key m) next (free_id (len m + 1) (contains_key m) next)
free_id_total m next lt h =
    let (k, below, free) = unused_within (len m + 1) m next lt (omega arith) (omega arith) in
    free_id-FirstFree (len m + 1) (contains_key m) next k lt below free

-- Whatever the fuel, an identifier that is found is unused.
pub free_id-unused :
    (f : ℕ) (used : ℕ → Bool) (next id next' : ℕ)
    → free_id f used next ≡ some (id, next')
    → used id ≡ false
unfolding free_id
free_id-unused zero used next id next' e = absurd (ground (arith, e))
free_id-unused (suc f) used next id next' e =
    ground (arith, e, free_id-unused f used (wrapping_add next 1) id next')
