-- ===== src/Stdio/Tests.antt =====
-- A small conversation of `Stdin` with its thread (src/io/stdio.rs).
use fibers_rs.Prelude.{ℕ, ◌≡◌, ◌≢◌, refl, some, List, [], ◌∷◌, arith}
use fibers_rs.Prelude.Results.{Result, ok}
use fibers_rs.Stdio.{
  Stdin, broken, Reading, stdin, read, read_round, io_step, poll_response, send_request, respond,
  receive,
}
use fibers_rs.Stdio.Protocol.{Reach, new, later, reads, works, IsBounded}
use fibers_rs.Stdio.Protocol.Outcomes.{Began, read-Began, Reach-safe}

-- It reads up to two bytes.
abbrev two_bytes : List ℕ → Result ℕ ℕ × List ℕ
two_bytes [] = (ok 0, [])
two_bytes (x ∷ []) = (ok 1, 65 ∷ [])
two_bytes (x ∷ y ∷ rest) = (ok 2, 65 ∷ 66 ∷ rest)

two_bytes-IsBounded : IsBounded two_bytes
two_bytes-IsBounded [] = (refl, λ n e. ground (arith, e))
two_bytes-IsBounded (x ∷ []) = (refl, λ n e. ground (arith, e))
two_bytes-IsBounded (x ∷ y ∷ rest) = (refl, λ n e. ground (arith, e))

abbrev buffer : List ℕ
buffer = 0 ∷ 0 ∷ 0 ∷ []

record Reached : Type 0 where
  state : Stdin ℕ
  reach : Reach state

-- The lock is asked for and granted.
granted_state : Reached
unfolding stdin read send_request io_step receive respond
granted_state = record {
  state = _;
  reach =
      later
        (later (later new (reads _ _ buffer _ refl refl refl))
          (works _ _ two_bytes two_bytes-IsBounded refl))
        (works _ _ two_bytes two_bytes-IsBounded refl);
}

looping_state : Reached
unfolding granted_state read send_request poll_response
looping_state = record {
  state = _;
  reach = later granted_state.reach (reads _ _ buffer _ refl refl refl);
}

read-Began_example : Began granted_state.state buffer (read granted_state.state buffer)
unfolding granted_state
read-Began_example = read-Began granted_state.reach buffer refl refl

Reach-safe_example :
    (looping_state.state.io_thread ≢ broken)
    × ((buf : List ℕ)
        → looping_state.state.pending ≡ some buf
        → (x : Reading ℕ × Stdin ℕ) × (read_round looping_state.state buf ≡ ok x))
Reach-safe_example = Reach-safe looping_state.reach
