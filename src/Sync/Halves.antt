-- ===== src/Sync/Halves.antt =====
-- What the halves of a channel of src/sync have in common: both hold the `inner` of a channel and a
-- notifier (mpsc.rs, oneshot.rs).
use fibers_rs.Prelude.{Option, none, some}
use fibers_rs.Prelude.Results.{Result, ok, Fault, ◌>>=◌}
use fibers_rs.Fiber.Schedule.{Machine}
use fibers_rs.Sync.Notifier.{Notifier}

-- `inner` of both halves, and the cell of `notifier`.
pub record Channel (C : Type 0) : Type 0 where
  pub inner : C
  pub notifier : Notifier

-- The result of a call that spins on the notifier: `none` when another thread has borrowed the cell,
-- and the call goes round its loop again.
abbrev pub Spins : Type 0 → Type 0
Spins A = Result (Option A) Fault

-- A call of the notifier, and then the rest of the operation.
abbrev pub then_finish :
    {F C A : Type 0}
    → (Notifier → Machine F → Spins (Notifier × Machine F))
    → Channel C
    → Machine F
    → (Channel C → A × Channel C)
    → Spins (A × Channel C × Machine F)
then_finish f ch m k = f ch.notifier m >>= λ w. elim w [
  | none ↦ ok none
  | some (n, m') ↦ let (a, ch') = k (record ch { notifier = n }) in ok (some (a, ch', m'))
]
