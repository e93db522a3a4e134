-- ===== src/Poll/Evented/Tests.antt =====
-- Two threads that count with one object (src/io/poll/mod.rs).
use fibers_rs.Prelude.{ℕ, ◌+◌, ◌-◌, ◌≡◌, refl, none, some, [], ◌∷◌}
use fibers_rs.Prelude.Results.{ok}
use fibers_rs.SyncAtomic.{swap, try_borrow_mut, drop_borrow}
use fibers_rs.SyncAtomic as SyncAtomic
use fibers_rs.Poll.Mio.{Ready}
use fibers_rs.Poll.Evented.{Evented, new_sharable, lock_round, lock, with_lock, register}
use fibers_rs.Poll.Evented.Sharing.{
  Shared, spinning, called, released, Atomic, Reach, start, later, starts, spins, locks, runs,
  releases, Runs, Refines,
}
use fibers_rs.Poll.Evented.Refined.{Reach-Refines}

-- An object that counts its registrations, at a registry that counts them too.
abbrev counter : Evented ℕ ℕ ℕ
counter = record {
  register = λ token interest poll n. ((ok tt, poll + 1), n + 1);
  reregister = λ token interest poll n. ((ok tt, poll), n);
  deregister = λ poll n. ((ok tt, poll - 1), n - 1);
}

registered :
    (interest : Ready)
    → register counter (new_sharable 4) 9 0 interest ≡ ok ((ok tt, 10), record { inner = some 5 })
unfolding register with_lock lock lock_round try_borrow_mut swap drop_borrow new_sharable
    SyncAtomic.new
registered interest = refl

abbrev add : ℕ → ℕ → ℕ × ℕ
add k n = (n, n + k)

-- The first thread has added 3 and still has the lock; the second one, which adds 5, spins.
abbrev contended : Shared ℕ ℕ
contended = record { cell = record { inner = none }; calls = spinning (add 5) ∷ called 7 10 ∷ [] }

contended-Reach : Reach 7 contended
unfolding new_sharable SyncAtomic.new lock_round try_borrow_mut swap
contended-Reach =
    later
      (later
        (later (later (later start (starts _ (add 3))) (locks _ [] [] (add 3) 7 _ refl refl))
          (starts _ (add 5)))
        (spins _ [] (_ ∷ []) (add 5) _ refl refl))
      (runs _ (_ ∷ []) [] (add 3) 7 refl)

abbrev finished : Shared ℕ ℕ
finished = record { cell = record { inner = some 15 }; calls = released 10 ∷ released 7 ∷ [] }

finished-Reach : Reach 7 finished
unfolding lock_round try_borrow_mut drop_borrow swap
finished-Reach =
    later
      (later
        (later (later contended-Reach (releases _ (_ ∷ []) [] 7 10 _ refl refl))
          (locks _ [] (_ ∷ []) (add 5) 10 _ refl refl))
        (runs _ [] (_ ∷ []) (add 5) 10 refl))
      (releases _ [] (_ ∷ []) 10 15 _ refl refl)

Reach-Refines_example : (o : Atomic ℕ ℕ) × Runs 7 o × Refines finished o
Reach-Refines_example = Reach-Refines finished-Reach
