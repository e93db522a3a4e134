-- ===== src/Fiber/Linked/Polled.antt =====
-- How linked fibers end (src/fiber/mod.rs).
use fibers_rs.Prelude.{◌≡◌, ◌≢◌, refl, Option, none, some, arith}
use fibers_rs.Prelude.Results.{Result, ok, err, Poll, ready, not_ready, Fault}
use fibers_rs.Sync.Oneshot.{MonitorError}
use fibers_rs.Fiber.Linked.{Halves, poll_select, after_select, poll_linked}

module _ {F T E S : Type 0} (poll_fiber : F → S → Poll T E × F × S) (H : Halves S T E) where
  open H use {Half, poll_half, exit, drop_half}

  abbrev pub Outcome : Type 0
  Outcome = Result (Poll (Unit {0}) (Unit {0}) × Option (F × Half) × S) Fault

  -- The outcomes of a poll of the future of `spawn_link`.
  pub data Linked (f : F) (link1 : Half) (s : S) (x : Outcome) : Type 0 where
    finished :
        (v : T) (f1 : F) (s1 : S)
        → poll_fiber f s ≡ (ok (ready v), f1, s1)
        → x ≡ ok (ok (ready tt), none, exit link1 (ok v) s1)
        → Linked f link1 s x
    failed :
        (e : E) (f1 : F) (s1 : S)
        → poll_fiber f s ≡ (err e, f1, s1)
        → x ≡ ok (ok (ready tt), none, exit link1 (err e) s1)
        → Linked f link1 s x
    cut_off :
        (f1 : F) (h : Half) (s1 s2 : S) (r : Poll (Unit {0}) (MonitorError (Unit {0})))
        → poll_fiber f s ≡ (ok not_ready, f1, s1)
        → poll_half link1 s1 ≡ (r, h, s2)
        → r ≢ ok not_ready
        → x ≡ ok (ok (ready tt), none, drop_half h s2)
        → Linked f link1 s x
    goes_on :
        (f1 : F) (h : Half) (s1 s2 : S)
        → poll_fiber f s ≡ (ok not_ready, f1, s1)
        → poll_half link1 s1 ≡ (ok not_ready, h, s2)
        → x ≡ ok (ok not_ready, some (f1, h), s2)
        → Linked f link1 s x

  by_half :
      (f f1 : F) (link1 : Half) (s s1 : S)
      → poll_fiber f s ≡ (ok not_ready, f1, s1)
      → (y : Poll (Unit {0}) (MonitorError (Unit {0})) × Half × S) → poll_half link1 s1 ≡ y
      → Linked f link1 s (poll_linked poll_fiber H (some (f, link1)) s)
  unfolding poll_linked poll_select after_select
  by_half f f1 link1 s s1 is (err e, h, s2) q =
      cut_off f1 h s1 s2 (err e) is q (λ u. ground (arith, u)) (ground (arith, is, q))
  by_half f f1 link1 s s1 is (ok (ready v), h, s2) q =
      cut_off f1 h s1 s2 (ok (ready v)) is q (λ u. ground (arith, u)) (ground (arith, is, q))
  by_half f f1 link1 s s1 is (ok not_ready, h, s2) q =
      goes_on f1 h s1 s2 is q (ground (arith, is, q))

  by_fiber :
      (f : F) (link1 : Half) (s : S) (y : Poll T E × F × S)
      → poll_fiber f s ≡ y
      → Linked f link1 s (poll_linked poll_fiber H (some (f, link1)) s)
  unfolding poll_linked poll_select after_select
  by_fiber f link1 s (err e, f1, s1) is = failed e f1 s1 is (ground (arith, is))
  by_fiber f link1 s (ok (ready v), f1, s1) is = finished v f1 s1 is (ground (arith, is))
  by_fiber f link1 s (ok not_ready, f1, s1) is =
      by_half f f1 link1 s s1 is (poll_half link1 s1) refl

  -- A poll of a linked fiber, which has not ended, does not panic. If the fiber's own future ends, its
  -- result goes out through its half of the link, and the other half is not asked; else, if the other
  -- half has ended, the fiber ends too, without a result, and its half is dropped; else both stay to be
  -- polled again.
  pub poll_linked-Linked :
      (f : F) (link1 : Half) (s : S)
      → Linked f link1 s (poll_linked poll_fiber H (some (f, link1)) s)
  poll_linked-Linked f link1 s = by_fiber f link1 s (poll_fiber f s) refl
