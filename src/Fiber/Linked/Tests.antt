-- ===== src/Fiber/Linked/Tests.antt =====
-- A linked fiber whose link is dropped (src/fiber/mod.rs).
use fibers_rs.Prelude.{ℕ, zero, suc, ◌≡◌, refl, none, some, List, [], ◌∷◌}
use fibers_rs.Prelude.Results.{Result, ok, err, Poll, ready, not_ready}
use fibers_rs.Sync.Oneshot.{aborted}
use fibers_rs.Fiber.Linked.{Halves, poll_linked, poll_select, after_select, poll_monitored}

-- The shared state is how many polls the other half still lives, and the results that were sent.
abbrev Shared : Type 0
Shared = ℕ × List (Result ℕ ℕ)

abbrev counting : Halves Shared ℕ ℕ
counting = record {
  Half = Unit {0};
  poll_half =
      λ h s. elim (s.0) [ zero ↦ (err aborted, h, s) | suc n ↦ (ok not_ready, h, (n, s.1)) ];
  exit = λ h r s. (s.0, r ∷ s.1);
  drop_half = λ h s. s;
}

-- It is ready with 7 after so many polls.
abbrev countdown : ℕ → Shared → Poll ℕ ℕ × ℕ × Shared
countdown zero s = (ok (ready 7), zero, s)
countdown (suc n) s = (ok not_ready, n, s)

link_dropped :
    poll_linked countdown counting (some (2, tt)) (0, []) ≡ ok (ok (ready tt), none, (0, []))
unfolding poll_linked poll_select after_select
link_dropped = refl

monitored_value :
    poll_monitored countdown counting 0 tt (3, []) ≡ (ok (ready tt), none, (3, ok 7 ∷ []))
unfolding poll_monitored
monitored_value = refl
