-- ===== src/Fiber/Linked.antt =====
-- src/fiber/mod.rs: the futures of `spawn_monitor` and `spawn_link`, and `SelectEither`. A future is its
-- state and its `poll`; `S` is what all futures share.
pub mod Polled
pub mod Ending
mod Tests
use fibers_rs.Prelude.{Option, none, some}
use fibers_rs.Prelude.Results.{Result, ok, err, Poll, ready, not_ready, Fault, panic, ◌>>=◌}
use fibers_rs.Sync.Oneshot.{MonitorError}

pub data Either (A B : Type 0) : Type 0 where
  either_a : A → Either A B
  either_b : B → Either A B

-- The half of a link or of a monitor channel that the spawned fiber has: it sends the result of the
-- fiber, and sees the end of the other half. `drop_half` ends a half without a result.
pub record Halves (S T E : Type 0) : Type 1 where
  pub Half : Type 0
  pub poll_half : Half → S → Poll (Unit {0}) (MonitorError (Unit {0})) × Half × S
  pub exit : Half → Result T E → S → S
  pub drop_half : Half → S → S

module _ {A B VA EA VB EB S : Type 0} (poll_a : A → S → Poll VA EA × A × S)
    (poll_b : B → S → Poll VB EB × B × S) (drop_b : B → S → S) where
  -- `SelectEither::poll`; what it does not return is dropped.
  unfoldable pub poll_select :
      Option (A × B)
      → S
      → Result
          (Poll (Either (VA × B) (A × VB)) (Either (EA × B) (A × EB)) × Option (A × B) × S)
          Fault
  poll_select none s = err panic
  poll_select (some (a, b)) s =
      let (ra, a1, s1) = poll_a a s in
      elim ra [
        | err e ↦ ok (err (either_a (e, b)), none, s1)
        | ok x ↦ elim x [
          | ready v ↦ ok (ok (ready (either_a (v, b))), none, s1)
          | not_ready ↦
              let (rb, b1, s2) = poll_b b s1 in
              elim rb [
                | err e ↦ ok (err (either_b (a1, e)), none, drop_b b1 s2)
                | ok y ↦ elim y [
                  | ready v ↦ ok (ok (ready (either_b (a1, v))), none, drop_b b1 s2)
                  | not_ready ↦ ok (ok not_ready, some (a1, b1), s2)
                ]
              ]
        ]
      ]

module _ {F T E S : Type 0} (poll_fiber : F → S → Poll T E × F × S) (H : Halves S T E) where
  open H use {Half, poll_half, exit, drop_half}

  -- `poll` of the future that `spawn_monitor` spawns; its error is never used.
  unfoldable pub poll_monitored : F → Half → S → Poll (Unit {0}) (Unit {0}) × Option (F × Half) × S
  poll_monitored f monitored s =
      let (r, f1, s1) = poll_fiber f s in
      elim r [
        | err e ↦ (ok (ready tt), none, exit monitored (err e) s1)
        | ok x ↦ elim x [
          | ready v ↦ (ok (ready tt), none, exit monitored (ok v) s1)
          | not_ready ↦ (ok not_ready, some (f1, monitored), s1)
        ]
      ]

  -- What the closure of `spawn_link` does with the result of the `SelectEither`.
  unfoldable pub after_select :
      Poll (Either (T × Half) (F × Unit {0})) (Either (E × Half) (F × MonitorError (Unit {0})))
      → S
      → Poll (Unit {0}) (Unit {0}) × S
  after_select (err (either_a (result, link1))) s = (ok (ready tt), exit link1 (err result) s)
  after_select (ok (ready (either_a (result, link1)))) s = (ok (ready tt), exit link1 (ok result) s)
  after_select (err (either_b e)) s = (ok (ready tt), s)
  after_select (ok (ready (either_b v))) s = (ok (ready tt), s)
  after_select (ok not_ready) s = (ok not_ready, s)

  -- `poll` of the future that `spawn_link` spawns
  unfoldable pub poll_linked :
      Option (F × Half) → S → Result (Poll (Unit {0}) (Unit {0}) × Option (F × Half) × S) Fault
  unfolding poll_select after_select
  poll_linked pair s = poll_select poll_fiber poll_half drop_half pair s >>= λ x.
      let (r, s1) = after_select x.0 x.2 in ok (r, x.1, s1)
