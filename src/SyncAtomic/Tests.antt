-- ===== src/SyncAtomic/Tests.antt =====
-- Two threads at one cell (src/sync_atomic.rs).
use fibers_rs.Prelude.{ℕ, ◌≡◌, refl, ◌⊎◌, none, some, [], ◌∷◌}
use fibers_rs.Prelude.Results.{ok}
use fibers_rs.SyncAtomic.{new, swap, try_borrow_mut, drop_borrow, drop_cell}
use fibers_rs.SyncAtomic.Borrows.{
  Shared, Reach, start, later, borrows, fails, writes, releases, drops_succeed,
}

-- One thread borrows the content, another one fails to, and the first one writes 8.
abbrev contended : Shared ℕ
contended = record { cell = record { inner = none }; guards = 8 ∷ [] }

contended-Reach : Reach 7 contended
unfolding new try_borrow_mut swap
contended-Reach =
    later (later (later start (borrows _ 7 _ refl)) (fails _ _ refl)) (writes _ [] [] 7 8 refl)

abbrev returned : Shared ℕ
returned = record { cell = record { inner = some 8 }; guards = [] }

returned-Reach : Reach 7 returned
unfolding drop_borrow swap
returned-Reach = later contended-Reach (releases _ [] [] 8 _ refl refl)

drops_succeed_example :
    ((contended.guards ≡ [])
      × (drop_cell contended.cell ≡ ok tt)
      × ((b : ℕ) × ((try_borrow_mut contended.cell).0 ≡ some b)))
    ⊎ ((b : ℕ) × (contended.guards ≡ b ∷ [])
        × ((try_borrow_mut contended.cell).0 ≡ none)
        × (drop_borrow contended.cell b ≡ ok (record { inner = some b })))
drops_succeed_example = drops_succeed contended-Reach
