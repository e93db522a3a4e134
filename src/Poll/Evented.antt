-- ===== src/Poll/Evented.antt =====
-- src/io/poll/mod.rs: `SharableEvented`, an evented object of mio behind a lock that spins on an
-- `AtomicCell`, and `EventedLock`, the guard of that lock.
pub mod Sharing
pub mod Refined
mod Tests
use fibers_rs.Prelude.{ℕ, ◌≡◌, Option, none, some, arith}
use fibers_rs.Prelude.Results.{Result, ok, err, Fault, diverges, ◌>>=◌}
use fibers_rs.SyncAtomic.{AtomicCell, try_borrow_mut, drop_borrow}
use fibers_rs.SyncAtomic as SyncAtomic
use fibers_rs.Poll.Mio.{Ready}

-- The trait `mio::Evented` of an object of type `A`, at a registry of type `P`.
pub record Evented (A P IoError : Type 0) : Type 0 where
  pub register : ℕ → Ready → P → A → (Result (Unit {0}) IoError × P) × A
  pub reregister : ℕ → Ready → P → A → (Result (Unit {0}) IoError × P) × A
  pub deregister : P → A → (Result (Unit {0}) IoError × P) × A

-- `SharableEvented::new`: the cell that all clones share.
unfoldable pub new_sharable : {A : Type 0} → A → AtomicCell A
unfolding SyncAtomic.new
new_sharable inner = SyncAtomic.new inner

module _ {A : Type 0} where
  -- One round of the loop in `lock`; the `EventedLock` is the content of the guard.
  unfoldable pub lock_round : AtomicCell A → Option A × AtomicCell A
  lock_round c = try_borrow_mut c

  -- `lock`, where no other thread has the lock or gives it back; a round that fails once fails again.
  unfoldable pub lock : AtomicCell A → Result (A × AtomicCell A) Fault
  unfolding lock_round
  lock c = let (r, c') = lock_round c in elim r [ some a ↦ ok (a, c') | none ↦ err diverges ]

  -- `EventedHandle::inner`
  unfoldable pub inner : AtomicCell A → Result (A × AtomicCell A) Fault
  unfolding lock
  inner c = lock c

  -- A method called on `self.lock()`; the guard is dropped after it.
  unfoldable pub with_lock :
      {B : Type 0} → (A → B × A) → AtomicCell A → Result (B × AtomicCell A) Fault
  unfolding lock
  with_lock f c =
      lock c >>= λ (a, c'). let (b, a') = f a in drop_borrow c' a' >>= λ c''. ok (b, c'')

  -- While no other thread has the lock, the method is called on the content of the cell.
  pub with_lock_lem :
      {B : Type 0} (f : A → B × A) (c : AtomicCell A) (a : A)
      → c.inner ≡ some a
      → with_lock f c ≡ ok ((f a).0, record { inner = some (f a).1 })
  unfolding with_lock lock lock_round try_borrow_mut drop_borrow
  with_lock_lem f c a e = ground (arith, e)

  -- Inside of it the lock is taken: another call of a method would spin for ever.
  pub with_lock-taken :
      {B : Type 0} (f : A → B × A) (c : AtomicCell A)
      → c.inner ≡ none
      → with_lock f c ≡ err diverges
  unfolding with_lock lock lock_round try_borrow_mut
  with_lock-taken f c e = ground (arith, e)

module _ {A P IoError : Type 0} (E : Evented A P IoError) where
  unfoldable pub register :
      AtomicCell A → P → ℕ → Ready → Result ((Result (Unit {0}) IoError × P) × AtomicCell A) Fault
  unfolding with_lock
  register c poll token interest = with_lock (E.register token interest poll) c

  unfoldable pub reregister :
      AtomicCell A → P → ℕ → Ready → Result ((Result (Unit {0}) IoError × P) × AtomicCell A) Fault
  unfolding with_lock
  reregister c poll token interest = with_lock (E.reregister token interest poll) c

  unfoldable pub deregister :
      AtomicCell A → P → Result ((Result (Unit {0}) IoError × P) × AtomicCell A) Fault
  unfolding with_lock
  deregister c poll = with_lock (E.deregister poll) c
