-- ===== src/Collections.antt =====
-- src/collections.rs: `HeapMap`, a priority queue with map operations over a `SplayMap`.
-- A method with `&mut self` returns its result and the new heap.
pub mod Tree
pub mod Laws
pub mod Drain
pub mod ListMap
mod Tests
use fibers_rs.Prelude.{ℕ, ◌≡◌, Bool, true, false, not, Option, none, some, if◌then◌else◌}
use fibers_rs.Prelude.HashMap.{is_some}
use Tree.{Ord, SplayMap}

-- `Option::map_or`
abbrev pub map_or {ℓ κ} : {A : Type ℓ} {B : Type κ} → B → (A → B) → Option A → B
map_or b f none = b
map_or b f (some a) = f a

pub record HeapMap (M : Type 0) : Type 0 where
  pub inner : M

module _ {K V : Type 0} {o : Ord K} (S : SplayMap K V o) where
  open S use {Map, contains_key, insert, smallest, take_smallest, remove, len}

  unfoldable pub new : HeapMap Map
  new = record { inner = S.new }

  unfoldable pub push_if_absent : HeapMap Map → K → V → Bool × HeapMap Map
  push_if_absent h k v =
      if not (contains_key h.inner k)
      then (true, record { inner = insert h.inner k v })
      else (false, h)

  unfoldable pub pop_if : HeapMap Map → (K → V → Bool) → Option (K × V) × HeapMap Map
  pop_if h f =
      if map_or false (λ e. f e.0 e.1) (smallest h.inner)
      then (let (e, m) = take_smallest h.inner in (e, record { inner = m }))
      else (none, h)

  unfoldable pub peek : HeapMap Map → Option (K × V)
  peek h = smallest h.inner

  unfoldable pub remove_key : HeapMap Map → K → Bool × HeapMap Map
  remove_key h k = let (v, m) = remove h.inner k in (is_some v, record { inner = m })

  unfoldable pub heap_len : HeapMap Map → ℕ
  heap_len h = len h.inner
