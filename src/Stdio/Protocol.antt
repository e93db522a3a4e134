-- ===== src/Stdio/Protocol.antt =====
-- `Stdin` and its I/O thread (src/io/stdio.rs), in any interleaving of their steps.
pub mod Outcomes
use fibers_rs.Prelude.{
  ℕ, zero, suc, ap, ◌≤◌, ◌≡◌, refl, sym, subst, Bool, true, false, Option, none, some, List, [],
  ◌∷◌, length, leb, arith, inl, inr, Bool-cases,
}
use fibers_rs.Prelude.Results.{Result, ok, err, Fault, panic}
use fibers_rs.Stdio.{
  Stdin, IoThread, before_lock, locked, granted, reading, left, broken, Reading, looping, returned,
  stdin, read, read_round, io_step, poll_response, send_request, respond, receive, copy_from_slice,
  zeros, truncate, read_vec,
}

pub fits : (buf d : List ℕ) → length d ≤ length buf → leb (length d) (length buf) ≡ true
fits buf d le = ground (arith, le)

length-zeros : (n : ℕ) → length (zeros n) ≡ n
length-zeros zero = refl
length-zeros (suc n) = omega (arith, length-zeros n)

length-truncate : (n : ℕ) (xs : List ℕ) → length (truncate n xs) ≤ n
length-truncate zero xs = omega arith
length-truncate (suc n) [] = omega arith
length-truncate (suc n) (x ∷ xs) = omega (arith, length-truncate n xs)

module _ {E : Type 0} where
  -- `Read::read` fills a part of the buffer, which keeps its length, and says how many bytes that are:
  -- at most as many as there is room for.
  abbrev pub IsBounded : (List ℕ → Result ℕ E × List ℕ) → Type 0
  IsBounded os_read =
      (buf : List ℕ)
      → (length (os_read buf).1 ≡ length buf) × ((n : ℕ) → (os_read buf).0 ≡ ok n → n ≤ length buf)

  pub read_vec-length :
      (os_read : List ℕ → Result ℕ E × List ℕ)
      → IsBounded os_read
      → (n : ℕ) (d : List ℕ) → read_vec os_read n ≡ ok d
      → length d ≤ n
  unfolding read_vec
  read_vec-length os_read bounded n d e = by_count (os_read (zeros n)).0 refl
    where
      by_count : (r : Result ℕ E) → (os_read (zeros n)).0 ≡ r → length d ≤ n
      by_count (err x) is = absurd (ground (arith, is, e))
      by_count (ok k) is =
          let cut : truncate k (os_read (zeros n)).1 ≡ d = ground (arith, is, e) in
          omega (
            arith,
            (bounded (zeros n)).1 k is,
            length-zeros n,
            length-truncate k (os_read (zeros n)).1,
            ap (λ (xs : List ℕ). length xs) cut,
          )

  pub data Step : Stdin E → Stdin E → Type 0 where
    reads :
        (s t : Stdin E) (buf : List ℕ) (r : Reading E)
        → s.is_alive ≡ true
        → s.pending ≡ none
        → read s buf ≡ (r, t)
        → Step s t
    goes_round :
        (s t : Stdin E) (buf : List ℕ) (r : Reading E)
        → s.pending ≡ some buf
        → read_round s buf ≡ ok (r, t)
        → Step s t
    works :
        (s t : Stdin E) (os_read : List ℕ → Result ℕ E × List ℕ)
        → IsBounded os_read
        → io_step os_read s ≡ some t
        → Step s t
    drops : (s : Stdin E) → s.pending ≡ none → Step s (record s { is_alive = false })

  pub data Reach : Stdin E → Type 0 where
    new : Reach stdin
    later : {s t : Stdin E} → Reach s → Step s t → Reach t

  -- Where the conversation stands: nothing is asked; the lock is asked for, held, granted; the size is
  -- sent, received, and the bytes are answered; the thread is gone.
  pub data Phase (s : Stdin E) : Type 0 where
    idle :
        s.lock_requested ≡ false
        → s.requests ≡ []
        → s.responses ≡ []
        → s.io_thread ≡ before_lock
        → s.pending ≡ none
        → Phase s
    asked :
        s.lock_requested ≡ true
        → s.requests ≡ 0 ∷ []
        → s.responses ≡ []
        → s.io_thread ≡ before_lock
        → s.pending ≡ none
        → Phase s
    locking :
        s.lock_requested ≡ true
        → s.requests ≡ []
        → s.responses ≡ []
        → s.io_thread ≡ locked
        → s.pending ≡ none
        → Phase s
    may_read :
        s.lock_requested ≡ true
        → s.requests ≡ []
        → s.responses ≡ ok [] ∷ []
        → s.io_thread ≡ granted
        → s.pending ≡ none
        → Phase s
    sized :
        (buf : List ℕ)
        → s.lock_requested ≡ false
        → s.requests ≡ length buf ∷ []
        → s.responses ≡ []
        → s.io_thread ≡ granted
        → s.pending ≡ some buf
        → s.is_alive ≡ true
        → Phase s
    filling :
        (buf : List ℕ)
        → s.lock_requested ≡ false
        → s.requests ≡ []
        → s.responses ≡ []
        → s.io_thread ≡ reading (length buf)
        → s.pending ≡ some buf
        → s.is_alive ≡ true
        → Phase s
    answered :
        (buf : List ℕ) (r : Result (List ℕ) E)
        → s.lock_requested ≡ false
        → s.requests ≡ []
        → s.responses ≡ r ∷ []
        → s.io_thread ≡ before_lock
        → s.pending ≡ some buf
        → s.is_alive ≡ true
        → ((d : List ℕ) → r ≡ ok d → length d ≤ length buf)
        → Phase s
    ended :
        s.io_thread ≡ left
        → s.pending ≡ none
        → (s.is_alive ≡ true → (s.lock_requested ≡ true) × (s.responses ≡ []))
        → Phase s

  lock-Phase :
      (s t : Stdin E) (os_read : List ℕ → Result ℕ E × List ℕ)
      → io_step os_read s ≡ some t
      → s.lock_requested ≡ true
      → s.requests ≡ []
      → s.responses ≡ []
      → s.io_thread ≡ locked
      → s.pending ≡ none
      → (x : Result ℕ E) → (os_read []).0 ≡ x
      → Phase t
  unfolding io_step respond
  lock-Phase s t os_read e a b c d f (err x) is =
      let q : record s { io_thread = left } ≡ t = ground (arith, d, is, e) in
      subst Phase q (ended refl f (λ alive. (a, c)))
  lock-Phase s t os_read e a b c d f (ok x) is = elim (Bool-cases s.is_alive) [
    | inl alive ↦
        let q : record s { responses = ok [] ∷ []; io_thread = granted } ≡ t =
          ground (arith, c, d, is, alive, e) in
        subst Phase q (may_read a b refl refl f)
    | inr gone ↦
        let q : record s { io_thread = left } ≡ t = ground (arith, d, is, gone, e) in
        subst Phase q (ended refl f (λ alive. (a, c)))
  ]

  work-Phase :
      (s t : Stdin E) (os_read : List ℕ → Result ℕ E × List ℕ)
      → IsBounded os_read
      → io_step os_read s ≡ some t
      → Phase s
      → Phase t
  unfolding io_step receive respond
  work-Phase s t os_read bounded e (idle a b c d f) =
      let q : record s { io_thread = left } ≡ t = ground (arith, b, d, e) in
      subst Phase q (ended refl f (λ alive. absurd (ground (arith, alive, b, d, e))))
  work-Phase s t os_read bounded e (asked a b c d f) =
      let q : record s { requests = []; io_thread = locked } ≡ t = ground (arith, b, d, e) in
      subst Phase q (locking a refl c refl f)
  work-Phase s t os_read bounded e (locking a b c d f) =
      lock-Phase s t os_read e a b c d f (os_read []).0 refl
  work-Phase s t os_read bounded e (may_read a b c d f) =
      let q : record s { io_thread = left } ≡ t = ground (arith, b, d, e) in
      subst Phase q (ended refl f (λ alive. absurd (ground (arith, alive, b, d, e))))
  work-Phase s t os_read bounded e (sized buf a b c d f g) =
      let q : record s { requests = []; io_thread = reading (length buf) } ≡ t =
        ground (arith, b, d, e) in
      subst Phase q (filling buf a refl c refl f g)
  work-Phase s t os_read bounded e (filling buf a b c d f g) =
      let q : record s { responses = read_vec os_read (length buf) ∷ []; io_thread = before_lock }
          ≡ t =
        ground (arith, b, c, d, e, g) in
      subst Phase q
        (answered buf _ a b refl refl f g (read_vec-length os_read bounded (length buf)))
  work-Phase s t os_read bounded e (answered buf r a b c d f g h) =
      absurd (ground (arith, b, d, e, g))
  work-Phase s t os_read bounded e (ended d f g) = absurd (ground (arith, d, e))

  read-Phase :
      (s t : Stdin E) (buf : List ℕ) (r : Reading E)
      → s.is_alive ≡ true
      → s.pending ≡ none
      → read s buf ≡ (r, t)
      → Phase s
      → Phase t
  unfolding read poll_response send_request
  read-Phase s t buf r alive p e (idle a b c d f) =
      let q : record s { lock_requested = true; requests = 0 ∷ [] } ≡ t =
        ground (arith, a, b, d, e) in
      subst Phase q (asked refl refl c d f)
  read-Phase s t buf r alive p e (asked a b c d f) =
      let q : s ≡ t = ground (arith, a, c, d, e) in subst Phase q (asked a b c d f)
  read-Phase s t buf r alive p e (locking a b c d f) =
      let q : s ≡ t = ground (arith, a, c, d, e) in subst Phase q (locking a b c d f)
  read-Phase s t buf r alive p e (may_read a b c d f) =
      let t' = record s {
        lock_requested = false;
        requests = length buf ∷ [];
        responses = [];
        pending = some buf;
      } in
      let q : t' ≡ t = ground (arith, a, b, c, d, e) in
      subst Phase q (sized buf refl refl refl d refl alive)
  read-Phase s t buf r alive p e (sized x a b c d f g) = absurd (ground (arith, p, f))
  read-Phase s t buf r alive p e (filling x a b c d f g) = absurd (ground (arith, p, f))
  read-Phase s t buf r alive p e (answered x y a b c d f g h) = absurd (ground (arith, p, f))
  read-Phase s t buf r alive p e (ended d f g) =
      let (a, c) = g alive in
      let q : s ≡ t = ground (arith, a, c, d, e) in subst Phase q (ended d f g)

  round-Phase :
      (s t : Stdin E) (buf : List ℕ) (r : Reading E)
      → s.pending ≡ some buf
      → read_round s buf ≡ ok (r, t)
      → Phase s
      → Phase t
  unfolding read_round poll_response
  round-Phase s t buf r p e (idle a b c d f) = absurd (ground (arith, p, f))
  round-Phase s t buf r p e (asked a b c d f) = absurd (ground (arith, p, f))
  round-Phase s t buf r p e (locking a b c d f) = absurd (ground (arith, p, f))
  round-Phase s t buf r p e (may_read a b c d f) = absurd (ground (arith, p, f))
  round-Phase s t buf r p e (sized x a b c d f g) =
      let q : s ≡ t = ground (arith, c, d, e) in subst Phase q (sized x a b c d f g)
  round-Phase s t buf r p e (filling x a b c d f g) =
      let q : s ≡ t = ground (arith, c, d, e) in subst Phase q (filling x a b c d f g)
  round-Phase s t buf r p e (answered x (err y) a b c d f g h) =
      let q : record s { responses = []; pending = none } ≡ t = ground (arith, c, d, e) in
      subst Phase q (idle a b refl d refl)
  round-Phase s t buf r p e (answered x (ok y) a b c d f g h) =
      let same : buf ≡ x = ground (arith, p, f) in
      let room : leb (length y) (length buf) ≡ true = rw same (fits x y (h y refl)) in
      let q : record s { responses = []; pending = none } ≡ t = ground (arith, c, d, e, room) in
      subst Phase q (idle a b refl d refl)
  round-Phase s t buf r p e (ended d f g) = absurd (ground (arith, p, f))

  drop-Phase : (s : Stdin E) → s.pending ≡ none → Phase s → Phase (record s { is_alive = false })
  drop-Phase s p (idle a b c d f) = idle a b c d f
  drop-Phase s p (asked a b c d f) = asked a b c d f
  drop-Phase s p (locking a b c d f) = locking a b c d f
  drop-Phase s p (may_read a b c d f) = may_read a b c d f
  drop-Phase s p (sized x a b c d f g) = absurd (ground (arith, p, f))
  drop-Phase s p (filling x a b c d f g) = absurd (ground (arith, p, f))
  drop-Phase s p (answered x y a b c d f g h) = absurd (ground (arith, p, f))
  drop-Phase s p (ended d f g) = ended d f (λ alive. absurd (ground (arith, alive)))

  pub Step-Phase : {s t : Stdin E} → Step s t → Phase s → Phase t
  Step-Phase (reads s t buf r alive p e) phase = read-Phase s t buf r alive p e phase
  Step-Phase (goes_round s t buf r p e) phase = round-Phase s t buf r p e phase
  Step-Phase (works s t os_read bounded e) phase = work-Phase s t os_read bounded e phase
  Step-Phase (drops s p) phase = drop-Phase s p phase

  pub Reach-Phase : {s : Stdin E} → Reach s → Phase s
  unfolding stdin
  Reach-Phase new = idle refl refl refl refl refl
  Reach-Phase (later r st) = Step-Phase st (Reach-Phase r)
