-- ===== src/SyncAtomic.antt =====
-- src/sync_atomic.rs: `AtomicCell`, a cell whose content one thread at a time can borrow.
pub mod Borrows
mod Tests
use fibers_rs.Prelude.{Bool, Option, none, some}
use fibers_rs.Prelude.HashMap.{is_some}
use fibers_rs.Prelude.Results.{Result, ok, err, Fault, assert, ◌>>=◌}
use fibers_rs.Prelude.{not}

-- `inner` is the `AtomicPtr`: `none` is the null pointer, `some a` a pointer to a box that holds `a`.
pub record AtomicCell {ℓ} (A : Type ℓ) : Type ℓ where
  pub inner : Option A

module _ {ℓ} {A : Type ℓ} where
  -- `AtomicPtr::swap`: the old pointer, and the cell with the new one.
  unfoldable pub swap : AtomicCell A → Option A → Option A × AtomicCell A
  swap c new_ptr = (c.inner, record { inner = new_ptr })

  unfoldable pub new : A → AtomicCell A
  new a = record { inner = some a }

  -- The guard `AtomicBorrowMut` is what its box holds; `none`: the content is borrowed already.
  unfoldable pub try_borrow_mut : AtomicCell A → Option A × AtomicCell A
  unfolding swap
  try_borrow_mut c = swap c none

  -- `Drop for AtomicBorrowMut`, with the content as the borrower left it.
  unfoldable pub drop_borrow : AtomicCell A → A → Result (AtomicCell A) Fault
  unfolding swap
  drop_borrow c a = let (old, c') = swap c (some a) in assert (not (is_some old)) >>= λ _. ok c'

  -- `Drop for AtomicCell`
  unfoldable pub drop_cell : AtomicCell A → Result (Unit {0}) Fault
  drop_cell c = assert (is_some c.inner)
