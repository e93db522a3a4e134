-- ===== src/Net/Tcp/Waiting.antt =====
-- How the operations of src/net/tcp.rs wait, against `retry`.
use fibers_rs.Prelude.{ℕ, zero, suc, ◌+◌, ◌≡◌, refl, sym, ◌∙◌, ap, false, Option, none, some, arith}
use fibers_rs.Prelude.Results.{Result, ok, err, Poll, ready, not_ready, Fault, panic}
use fibers_rs.Sync.Oneshot.{MonitorError}
use fibers_rs.Poll.Poller.{Interest, read, write}
use fibers_rs.Net.Reactor.{IoError, kind, is_would_block, into_io_error, Reactor}
use fibers_rs.Net.Retry.{
  Retried, finished, refused, cut, blocked, retry, Ended, called, call_failed, monitor_failed,
  monitors, IsCalm, retry_total,
}
use fibers_rs.Net.Tcp.{
  TcpOs, TcpListener, TcpStream, monitor_of, set_monitor, would_block_error, operate, poll_incoming,
}

-- The `io::Result` of an operation on a stream.
unfoldable pub io_result : {T : Type 0} → Retried T → Result T IoError
io_result (finished v) = ok v
io_result (refused e) = err e
io_result (cut e) = err (into_io_error e)
io_result blocked = err would_block_error

module _ (R : Reactor) (O : TcpOs R.World R.Socket R.Handle) where
  open R use {World, Handle, Mon, monitor, poll_monitor}

  unfoldable pub as_operated :
      {T : Type 0}
      → TcpStream Handle Mon
      → Interest
      → Result (Retried T × Option Mon × World) Fault
      → Result (Result T IoError × TcpStream Handle Mon × World) Fault
  as_operated s i (err x) = err x
  as_operated s i (ok (r, m, w)) = ok (io_result r, set_monitor s i m, w)

  monitor_of-set_monitor :
      (s : TcpStream Handle Mon) (i : Interest) (m : Option Mon)
      → monitor_of (set_monitor s i m) i ≡ m
  unfolding monitor_of set_monitor
  monitor_of-set_monitor s read m = refl
  monitor_of-set_monitor s write m = refl

  set_monitor-set_monitor :
      (s : TcpStream Handle Mon) (i : Interest) (m m' : Option Mon)
      → set_monitor (set_monitor s i m) i m' ≡ set_monitor s i m'
  unfolding set_monitor
  set_monitor-set_monitor s read m m' = refl
  set_monitor-set_monitor s write m m' = refl

  set_monitor-monitor_of :
      (s : TcpStream Handle Mon) (i : Interest) → set_monitor s i (monitor_of s i) ≡ s
  unfolding monitor_of set_monitor
  set_monitor-monitor_of s read = refl
  set_monitor-monitor_of s write = refl

  handle-set_monitor :
      (s : TcpStream Handle Mon) (i : Interest) (m : Option Mon)
      → (set_monitor s i m).handle ≡ s.handle
  unfolding set_monitor
  handle-set_monitor s read m = refl
  handle-set_monitor s write m = refl

  module _ {T : Type 0} (f : World → Result T IoError × World) (s : TcpStream Handle Mon)
      (i : Interest) where
    abbrev OperateAgrees : (n : ℕ) (m : Option Mon) (w : World) → Type 0
    OperateAgrees n m w =
        operate R O f n i (set_monitor s i m) w
        ≡ as_operated s i (retry R f (monitor s.handle i) n m w)

    operate_at_monitor :
        (n : ℕ) (m : Mon) (w : World)
        → ((w2 : World) → OperateAgrees n none w2)
        → (x : Poll (Unit {0}) (MonitorError IoError) × Mon × World) → poll_monitor m w ≡ x
        → OperateAgrees (suc n) (some m) w
    unfolding operate retry as_operated io_result
    operate_at_monitor n m w again (err e, m', w') is =
        ground (
          arith,
          is,
          monitor_of-set_monitor s i (some m),
          set_monitor-set_monitor s i (some m) none,
        )
    operate_at_monitor n m w again (ok not_ready, m', w') is = ground (
      arith,
      is,
      monitor_of-set_monitor s i (some m),
      set_monitor-set_monitor s i (some m) (some m'),
    )
    operate_at_monitor n m w again (ok (ready u), m', w') is = ground (
      arith,
      is,
      monitor_of-set_monitor s i (some m),
      set_monitor-set_monitor s i (some m) none,
      again w',
    )

    operate_at_call :
        (n : ℕ) (w : World)
        → ((m : Mon) (w2 : World) → OperateAgrees n (some m) w2)
        → (x : Result T IoError × World) → f w ≡ x
        → OperateAgrees (suc n) none w
    unfolding operate retry as_operated io_result
    operate_at_call n w again (ok v, w') is = ground (arith, is, monitor_of-set_monitor s i none)
    operate_at_call n w again (err e, w') is =
        let (m, w2) = monitor s.handle i w' in
        ground (
          arith,
          is,
          monitor_of-set_monitor s i none,
          set_monitor-set_monitor s i none (some m),
          handle-set_monitor s i none,
          again m w2,
        )

    operate-set_monitor : (n : ℕ) (m : Option Mon) (w : World) → OperateAgrees n m w
    unfolding operate retry as_operated
    operate-set_monitor zero m w = refl
    operate-set_monitor (suc n) (some m) w =
        operate_at_monitor n m w (operate-set_monitor n none) (poll_monitor m w) refl
    operate-set_monitor (suc n) none w =
        operate_at_call n w (λ m. operate-set_monitor n (some m)) (f w) refl

    -- `operate` is the retry loop at the monitor of its interest; the other monitor and the handle stay.
    operate-retry :
        (n : ℕ) (w : World)
        → operate R O f n i s w
          ≡ as_operated s i (retry R f (monitor s.handle i) n (monitor_of s i) w)
    operate-retry n w =
        ap (λ x. operate R O f n i x w) (sym (set_monitor-monitor_of s i))
        ∙ operate-set_monitor n (monitor_of s i) w

    -- How `operate` ends.
    pub data Operated : Result T IoError × TcpStream Handle Mon × World → Type 0 where
      done : (w0 w : World) (v : T) → f w0 ≡ (ok v, w) → Operated (ok v, set_monitor s i none, w)
      fails :
          (w0 w : World) (e : IoError)
          → f w0 ≡ (err e, w)
          → is_would_block (kind e) ≡ false
          → Operated (err e, set_monitor s i none, w)
      loses_monitor :
          (m m' : Mon) (w0 w : World) (e : MonitorError IoError)
          → poll_monitor m w0 ≡ (err e, m', w)
          → Operated (err (into_io_error e), set_monitor s i none, w)
      waits :
          (m m' : Mon) (w0 w : World)
          → poll_monitor m w0 ≡ (ok not_ready, m', w)
          → Operated (err would_block_error, set_monitor s i (some m'), w)

    Ended-Operated :
        {r : Retried T} {m : Option Mon} {w : World}
        → Ended R f (monitor s.handle i) (r, m, w)
        → Operated (io_result r, set_monitor s i m, w)
    unfolding io_result
    Ended-Operated (called w0 w v e) = done w0 w v e
    Ended-Operated (call_failed w0 w x e k) = fails w0 w x e k
    Ended-Operated (monitor_failed m m' w0 w x e) = loses_monitor m m' w0 w x e
    Ended-Operated (monitors m m' w0 w e) = waits m m' w0 w e

    -- If no event arrives between the start of a monitor and its first poll, `operate` ends within three
    -- rounds: with the value or the error of the last call of the socket, with an error of the monitor, or
    -- with WouldBlock, and then the stream keeps a monitor that was polled last and was not ready. The
    -- other monitor stays as it was.
    pub operate_total :
        IsCalm R f (monitor s.handle i)
        → (n : ℕ) (w : World)
        → (r : Result T IoError × TcpStream Handle Mon × World) × (operate R O f (n + 3) i s w
            ≡ ok r)
          × Operated r
    unfolding as_operated
    operate_total calm n w =
        let ((x, m, w'), q, e) = retry_total R f (monitor s.handle i) calm n (monitor_of s i) w in
        (
          (io_result x, set_monitor s i m, w'),
          operate-retry (n + 3) w ∙ ap (as_operated s i) q,
          Ended-Operated e,
        )

  -- What `Incoming::poll` makes of the end of the loop.
  unfoldable pub as_incoming :
      TcpListener Handle Mon
      → Result (Retried (R.Socket × O.Addr) × Option Mon × World) Fault
      → Result
          (Poll (Option (Option R.Reg × O.Addr)) IoError × TcpListener Handle Mon × World)
          Fault
  as_incoming l (err x) = err x
  as_incoming l (ok (finished (stream, addr), m, w)) = elim (R.register stream w) [
    | none ↦ err panic
    | some (future, w2) ↦ ok (ok (ready (some (some future, addr))), record l { monitor = m }, w2)
  ]
  as_incoming l (ok (refused e, m, w)) = ok (err e, record l { monitor = m }, w)
  as_incoming l (ok (cut e, m, w)) = ok (err (into_io_error e), record l { monitor = m }, w)
  as_incoming l (ok (blocked, m, w)) = ok (ok not_ready, record l { monitor = m }, w)

  module _ (l : TcpListener Handle Mon) where
    abbrev IncomingAgrees : ℕ → Option Mon → World → Type 0
    IncomingAgrees n m w =
        poll_incoming R O n (record l { monitor = m }) w
        ≡ as_incoming l (retry R (O.sys_accept l.handle) (monitor l.handle read) n m w)

    incoming_at_monitor :
        (n : ℕ) (m : Mon) (w : World)
        → ((w2 : World) → IncomingAgrees n none w2)
        → (x : Poll (Unit {0}) (MonitorError IoError) × Mon × World) → poll_monitor m w ≡ x
        → IncomingAgrees (suc n) (some m) w
    unfolding poll_incoming retry as_incoming
    incoming_at_monitor n m w again (err e, m', w') is = ground (arith, is)
    incoming_at_monitor n m w again (ok not_ready, m', w') is = ground (arith, is)
    incoming_at_monitor n m w again (ok (ready u), m', w') is = ground (arith, is, again w')

    incoming_at_call :
        (n : ℕ) (w : World)
        → ((m : Mon) (w2 : World) → IncomingAgrees n (some m) w2)
        → (x : Result (R.Socket × O.Addr) IoError × World) → O.sys_accept l.handle w ≡ x
        → IncomingAgrees (suc n) none w
    unfolding poll_incoming retry as_incoming
    incoming_at_call n w again (ok (stream, addr), w') is = ground (arith, is)
    incoming_at_call n w again (err e, w') is =
        let (m, w2) = monitor l.handle read w' in ground (arith, is, again m w2)

    incoming-set : (n : ℕ) (m : Option Mon) (w : World) → IncomingAgrees n m w
    unfolding poll_incoming retry as_incoming
    incoming-set zero m w = refl
    incoming-set (suc n) (some m) w =
        incoming_at_monitor n m w (incoming-set n none) (poll_monitor m w) refl
    incoming-set (suc n) none w =
        incoming_at_call n w (λ m. incoming-set n (some m)) (O.sys_accept l.handle w) refl

    -- `Incoming::poll` is the retry loop around `accept` at the listener's monitor, and then the
    -- registration of the stream with the poller.
    pub poll_incoming-retry :
        (n : ℕ) (w : World)
        → poll_incoming R O n l w
          ≡ as_incoming l (retry R (O.sys_accept l.handle) (monitor l.handle read) n l.monitor w)
    poll_incoming-retry n w = incoming-set n l.monitor w
