-- ===== src/Stdio/Protocol/Outcomes.antt =====
-- What a caller of `Stdin::read` sees (src/io/stdio.rs).
use fibers_rs.Prelude.{
  ℕ, zero, suc, ◌+◌, ◌≤◌, ◌≡◌, ◌≢◌, refl, subst, ◌∙◌, true, false, none, some, List, [], ◌∷◌, ◌++◌,
  length, length-append, arith, ◌⊎◌,
}
use fibers_rs.Prelude.Results.{Result, ok, err}
use fibers_rs.Stdio.{
  Stdin, left, broken, Reading, looping, returned, ReadError, would_block, unexpected_eof, os_error,
  read, read_round, io_step, poll_response, send_request, skip, read_vec,
}
use fibers_rs.Stdio.Protocol.{
  Reach, Phase, idle, asked, locking, may_read, sized, filling, answered, ended, Reach-Phase, fits,
}

length-skip : (n : ℕ) (xs : List ℕ) → n ≤ length xs → n + length (skip n xs) ≡ length xs
length-skip zero xs le = omega arith
length-skip (suc n) [] le = absurd (omega (arith, le))
length-skip (suc n) (x ∷ xs) le = omega (arith, length-skip n xs (omega (arith, le)))

module _ {E : Type 0} where
  -- The outcomes of `read` before its loop: it would block, the I/O thread is gone, or it goes into its
  -- loop. It reports neither a failed send nor an error of the operating system.
  pub data Began (s : Stdin E) (buf : List ℕ) (x : Reading E × Stdin E) : Type 0 where
    blocks :
        (t : Stdin E) → x ≡ (returned (err would_block) buf, t) → t.pending ≡ none → Began s buf x
    gone :
        (t : Stdin E)
        → x ≡ (returned (err unexpected_eof) buf, t)
        → s.io_thread ≡ left
        → t.pending ≡ none
        → Began s buf x
    goes_on : (t : Stdin E) → x ≡ (looping, t) → t.pending ≡ some buf → Began s buf x

  Phase-Began :
      (s : Stdin E) (buf : List ℕ)
      → s.is_alive ≡ true
      → s.pending ≡ none
      → Phase s
      → Began s buf (read s buf)
  unfolding read poll_response send_request
  Phase-Began s buf alive p (idle a b c d f) =
      blocks (record s { lock_requested = true; requests = 0 ∷ [] }) (ground (arith, a, b, d)) p
  Phase-Began s buf alive p (asked a b c d f) = blocks s (ground (arith, a, c, d)) p
  Phase-Began s buf alive p (locking a b c d f) = blocks s (ground (arith, a, c, d)) p
  Phase-Began s buf alive p (may_read a b c d f) =
      let t = record s {
        lock_requested = false;
        requests = length buf ∷ [];
        responses = [];
        pending = some buf;
      } in
      goes_on t (ground (arith, a, b, c, d)) refl
  Phase-Began s buf alive p (sized x a b c d f g) = absurd (ground (arith, p, f))
  Phase-Began s buf alive p (filling x a b c d f g) = absurd (ground (arith, p, f))
  Phase-Began s buf alive p (answered x y a b c d f g h) = absurd (ground (arith, p, f))
  Phase-Began s buf alive p (ended d f g) =
      let (a, c) = g alive in gone s (ground (arith, a, c, d)) d p

  -- In every reachable state, `read` reports that it would block, or goes into its loop with the buffer,
  -- or reports an unexpected end of file, the last only when the I/O thread has left its loop.
  pub read-Began :
      {s : Stdin E}
      → Reach s
      → (buf : List ℕ) → s.is_alive ≡ true
      → s.pending ≡ none
      → Began s buf (read s buf)
  read-Began r buf alive p = Phase-Began _ buf alive p (Reach-Phase r)

  -- So many steps of the I/O thread, without a step of anybody else.
  pub data Works (os_read : List ℕ → Result ℕ E × List ℕ) : ℕ → Stdin E → Stdin E → Type 0 where
    no_work : (s : Stdin E) → Works os_read 0 s s
    work_first :
        (k : ℕ) (s s1 t : Stdin E)
        → io_step os_read s ≡ some s1
        → Works os_read k s1 t
        → Works os_read (suc k) s t

  -- What the loop of `read` returns when this is the answer of the thread, with the buffer then.
  pub data Filled (buf : List ℕ) (answer : Result (List ℕ) E)
      : Result ℕ (ReadError E) → List ℕ → Type 0 where
    filled :
        (d : List ℕ)
        → answer ≡ ok d
        → length d ≤ length buf
        → length (d ++ skip (length d) buf) ≡ length buf
        → Filled buf answer (ok (length d)) (d ++ skip (length d) buf)
    failed : (e : E) → answer ≡ err e → Filled buf answer (err (os_error e)) buf

  pub record Completes (os_read : List ℕ → Result ℕ E × List ℕ) (limit : ℕ) (s : Stdin E)
      (buf : List ℕ) : Type 0 where
    pub steps : ℕ
    pub few : steps ≤ limit
    pub before : Stdin E
    pub waits : Works os_read steps s before
    pub result : Result ℕ (ReadError E)
    pub buffer : List ℕ
    pub after : Stdin E
    pub returns : read_round before buf ≡ ok (returned result buffer, after)
    pub answer : Result (List ℕ) E
    pub answer_is :
        (s.responses ≡ answer ∷ [])
        ⊎ ((s.responses ≡ []) × (answer ≡ read_vec os_read (length buf)))
    pub contents : Filled buf answer result buffer
    pub free : after.pending ≡ none

  round_returns :
      (s : Stdin E) (buf : List ℕ) (r : Result (List ℕ) E)
      → s.responses ≡ r ∷ []
      → ((d : List ℕ) → r ≡ ok d → length d ≤ length buf)
      → (result : Result ℕ (ReadError E)) × (b : List ℕ) × Filled buf r result b
        × (read_round s buf ≡ ok (returned result b, record s { responses = []; pending = none }))
  unfolding read_round poll_response
  round_returns s buf (err e) c h = (err (os_error e), buf, failed e refl, ground (arith, c))
  round_returns s buf (ok d) c h =
      let room = fits buf d (h d refl) in
      let size = length-append d (skip (length d) buf) ∙ length-skip (length d) buf (h d refl) in
      (
        ok (length d),
        d ++ skip (length d) buf,
        filled d refl (h d refl) size,
        ground (arith, c, room),
      )

  Phase-unbroken : {s : Stdin E} → Phase s → s.io_thread ≢ broken
  Phase-unbroken (idle a b c d f) e = ground (arith, d, e)
  Phase-unbroken (asked a b c d f) e = ground (arith, d, e)
  Phase-unbroken (locking a b c d f) e = ground (arith, d, e)
  Phase-unbroken (may_read a b c d f) e = ground (arith, d, e)
  Phase-unbroken (sized x a b c d f g) e = ground (arith, d, e)
  Phase-unbroken (filling x a b c d f g) e = ground (arith, d, e)
  Phase-unbroken (answered x r a b c d f g h) e = ground (arith, d, e)
  Phase-unbroken (ended d f g) e = ground (arith, d, e)

  Phase-round :
      (s : Stdin E) (buf : List ℕ)
      → s.pending ≡ some buf
      → Phase s
      → (x : Reading E × Stdin E) × (read_round s buf ≡ ok x)
  unfolding read_round poll_response
  Phase-round s buf p (idle a b c d f) = absurd (ground (arith, p, f))
  Phase-round s buf p (asked a b c d f) = absurd (ground (arith, p, f))
  Phase-round s buf p (locking a b c d f) = absurd (ground (arith, p, f))
  Phase-round s buf p (may_read a b c d f) = absurd (ground (arith, p, f))
  Phase-round s buf p (sized x a b c d f g) = ((looping, s), ground (arith, c, d))
  Phase-round s buf p (filling x a b c d f g) = ((looping, s), ground (arith, c, d))
  Phase-round s buf p (answered x r a b c d f g h) =
      let same : x ≡ buf = ground (arith, p, f) in
      let (_, _, _, q) =
        round_returns s buf r c (λ y is. subst (λ z. length y ≤ length z) same (h y is)) in
      (_, q)
  Phase-round s buf p (ended d f g) = absurd (ground (arith, p, f))

  -- The conversation keeps its order in every interleaving: the thread, when it expects a request for
  -- the lock, never receives anything else, so that its assertion holds, and no round of the loop of
  -- `read` panics: the bytes fit into the buffer.
  pub Reach-safe :
      {s : Stdin E}
      → Reach s
      → (s.io_thread ≢ broken)
        × ((buf : List ℕ)
            → s.pending ≡ some buf
            → (x : Reading E × Stdin E) × (read_round s buf ≡ ok x))
  Reach-safe r = (Phase-unbroken (Reach-Phase r), λ buf p. Phase-round _ buf p (Reach-Phase r))
