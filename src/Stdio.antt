-- ===== src/Stdio.antt =====
-- src/io/stdio.rs: `Stdin`, and the I/O thread that reads for it. The two talk over a channel of
-- requests (std::sync::mpsc) and one of responses (src/sync/mpsc.rs), seen here through what they hold.
pub mod Protocol
mod Tests
use fibers_rs.Prelude.{
  ℕ, zero, suc, Bool, true, false, not, Option, none, some, List, [], ◌∷◌, ◌++◌, length, leb, ◌==◌,
  if◌then◌else◌,
}
use fibers_rs.Prelude.Results.{Result, ok, err, Async, ready, not_ready, Fault, panic, ◌>>=◌}

-- Where the I/O thread is: it waits for a request to lock; it has locked; it has answered and waits for
-- a size; it reads so many bytes; it has left its loop; its assertion has failed.
pub data IoThread : Type 0 where
  before_lock locked granted : IoThread
  reading : ℕ → IoThread
  left broken : IoThread

-- The errors that `read` makes, and those of the system call.
pub data ReadError (E : Type 0) : Type 0 where
  would_block unexpected_eof send_failed : ReadError E
  os_error : E → ReadError E

-- `pending` is the buffer of a call of `read` that is in its loop. `is_alive` says whether the `Stdin`
-- exists; its halves of the channels are dropped with it.
pub record Stdin (E : Type 0) : Type 0 where
  pub lock_requested : Bool
  pub requests : List ℕ
  pub responses : List (Result (List ℕ) E)
  pub io_thread : IoThread
  pub pending : Option (List ℕ)
  pub is_alive : Bool

-- A call of `read` goes on in its loop, or returns with its result and the buffer.
pub data Reading (E : Type 0) : Type 0 where
  looping : Reading E
  returned : Result ℕ (ReadError E) → List ℕ → Reading E

-- Whether the thread still holds its halves of the channels.
abbrev pub thread_lives : IoThread → Bool
thread_lives left = false
thread_lives broken = false
thread_lives before_lock = true
thread_lives locked = true
thread_lives granted = true
thread_lives (reading n) = true

abbrev pub skip : ℕ → List ℕ → List ℕ
skip zero xs = xs
skip (suc n) [] = []
skip (suc n) (x ∷ xs) = skip n xs

-- `buf[..data.len()].copy_from_slice(&data)`
abbrev pub copy_from_slice : List ℕ → List ℕ → Result (List ℕ) Fault
copy_from_slice buf data' =
    if leb (length data') (length buf) then ok (data' ++ skip (length data') buf) else err panic

-- `vec![0; n]`
abbrev pub zeros : ℕ → List ℕ
zeros zero = []
zeros (suc n) = 0 ∷ zeros n

-- `Vec::truncate`
abbrev pub truncate : ℕ → List ℕ → List ℕ
truncate zero xs = []
truncate (suc n) [] = []
truncate (suc n) (x ∷ xs) = x ∷ truncate n xs

module _ {E : Type 0} where
  -- `stdin()`
  unfoldable pub stdin : Stdin E
  stdin = record {
    lock_requested = false;
    requests = [];
    responses = [];
    io_thread = before_lock;
    pending = none;
    is_alive = true;
  }

  -- `res_rx.poll()`
  unfoldable pub poll_response : Stdin E → Async (Option (Result (List ℕ) E)) × Stdin E
  poll_response s = elim s.responses [
    | [] ↦ (if thread_lives s.io_thread then not_ready else ready none, s)
    | r ∷ rest ↦ (ready (some r), record s { responses = rest })
  ]

  -- `req_tx.send(size)`
  unfoldable pub send_request : Stdin E → ℕ → Result (Unit {0}) (Unit {0}) × Stdin E
  send_request s size =
      if thread_lives s.io_thread
      then (ok tt, record s { requests = s.requests ++ size ∷ [] })
      else (err tt, s)

  -- `read` up to its loop
  unfoldable pub read : Stdin E → List ℕ → Reading E × Stdin E
  read s buf =
      if not s.lock_requested
      then (let (r, s1) = send_request (record s { lock_requested = true }) 0 in
          elim r [
            | err u ↦ (returned (err send_failed) buf, s1)
            | ok u ↦ (returned (err would_block) buf, s1)
          ])
      else (let (a, s1) = poll_response s in
          elim a [
            | not_ready ↦ (returned (err would_block) buf, s1)
            | ready o ↦ elim o [
              | none ↦ (returned (err unexpected_eof) buf, s1)
              | some r ↦ elim r [
                | err e ↦ (returned (err (os_error e)) buf, s1)
                | ok d ↦
                    let (q, s2) =
                      send_request (record s1 { lock_requested = false }) (length buf) in
                    elim q [
                      | err u ↦ (returned (err send_failed) buf, s2)
                      | ok u ↦ (looping, record s2 { pending = some buf })
                    ]
              ]
            ]
          ])

  -- A round of the loop of `read`
  unfoldable pub read_round : Stdin E → List ℕ → Result (Reading E × Stdin E) Fault
  read_round s buf =
      let (a, s1) = poll_response s in
      let s2 = record s1 { pending = none } in
      elim a [
        | not_ready ↦ ok (looping, s1)
        | ready o ↦ elim o [
          | none ↦ ok (returned (err unexpected_eof) buf, s2)
          | some r ↦ elim r [
            | err e ↦ ok (returned (err (os_error e)) buf, s2)
            | ok d ↦ copy_from_slice buf d >>= λ b. ok (returned (ok (length d)) b, s2)
          ]
        ]
      ]

  -- `break_if_err!(res_tx.send(response))`, before the thread goes on at `next`
  unfoldable pub respond : Stdin E → Result (List ℕ) E → IoThread → Stdin E
  respond s response next =
      if s.is_alive
      then record s { responses = s.responses ++ response ∷ []; io_thread = next }
      else record s { io_thread = left }

  -- `req_rx.recv()`, which blocks while there is no request; the loop ends when the sender is gone.
  unfoldable pub receive : Stdin E → (ℕ → IoThread) → Option (Stdin E)
  receive s next = elim s.requests [
    | [] ↦ if s.is_alive then none else some (record s { io_thread = left })
    | x ∷ rest ↦ some (record s { requests = rest; io_thread = next x })
  ]

  -- The read into a new vector, cut down to the bytes that were read. `os_read` is the read of the
  -- operating system: from the buffer to the number of bytes, and the buffer with them.
  unfoldable pub read_vec : (List ℕ → Result ℕ E × List ℕ) → ℕ → Result (List ℕ) E
  read_vec os_read required_size =
      let (r, buf) = os_read (zeros required_size) in
      elim r [ err e ↦ err e | ok read_size ↦ ok (truncate read_size buf) ]

  -- The next thing that the I/O thread does, if it is not blocked.
  unfoldable pub io_step : (List ℕ → Result ℕ E × List ℕ) → Stdin E → Option (Stdin E)
  io_step os_read s = elim s.io_thread [
    | before_lock ↦ receive s (λ x. if x == 0 then locked else broken)
    | locked ↦ elim (os_read []).0 [
      | err e ↦ some (record s { io_thread = left })
      | ok n ↦ some (respond s (ok []) granted)
    ]
    | granted ↦ receive s reading
    | reading required_size ↦ some (respond s (read_vec os_read required_size) before_lock)
    | left ↦ none
    | broken ↦ none
  ]
