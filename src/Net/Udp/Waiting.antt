-- ===== src/Net/Udp/Waiting.antt =====
-- How the futures of src/net/udp.rs wait, against `retry`.
use fibers_rs.Prelude.{ℕ, zero, suc, ◌+◌, ◌≡◌, refl, ◌∙◌, ap, Option, none, some, List, arith}
use fibers_rs.Prelude.Results.{Result, ok, err, Poll, ready, not_ready, Fault}
use fibers_rs.Sync.Oneshot.{MonitorError}
use fibers_rs.Poll.Poller.{read, write}
use fibers_rs.Net.Reactor.{IoError, into_io_error, Reactor}
use fibers_rs.Net.Retry.{
  Retried, finished, refused, cut, blocked, retry, Ended, IsCalm, retry_total,
}
use fibers_rs.Net.Udp.{
  UdpOs, SendToInner, RecvFromInner, send_loop, poll_send_to, recv_loop, poll_recv_from,
}

module _ (R : Reactor) (O : UdpOs R.World R.Socket R.Handle) where
  open R use {World, Handle, Mon, monitor, poll_monitor}
  open O use {Addr}

  -- What `SendTo::poll` returns for the end of the loop: the socket and the buffer come back, and the
  -- future is used up, unless it is not ready.
  unfoldable pub as_sent :
      SendToInner Addr Handle Mon
      → Retried ℕ × Option Mon × World
      → Poll (Handle × List ℕ × ℕ) (Handle × List ℕ × IoError)
        × Option (SendToInner Addr Handle Mon)
        × World
  as_sent st (finished size, m, w) = (ok (ready (st.socket, st.buf, size)), none, w)
  as_sent st (refused e, m, w) = (err (st.socket, st.buf, e), none, w)
  as_sent st (cut e, m, w) = (err (st.socket, st.buf, into_io_error e), none, w)
  as_sent st (blocked, m, w) = (ok not_ready, some (record st { monitor = m }), w)

  unfoldable pub as_received :
      RecvFromInner Handle Mon
      → Retried (ℕ × Addr × List ℕ) × Option Mon × World
      → Poll (Handle × List ℕ × ℕ × Addr) (Handle × List ℕ × IoError)
        × Option (RecvFromInner Handle Mon)
        × World
  as_received st (finished (size, addr, buf), m, w) =
      (ok (ready (st.socket, buf, size, addr)), none, w)
  as_received st (refused e, m, w) = (err (st.socket, st.buf, e), none, w)
  as_received st (cut e, m, w) = (err (st.socket, st.buf, into_io_error e), none, w)
  as_received st (blocked, m, w) = (ok not_ready, some (record st { monitor = m }), w)

  abbrev pub map_ok {ℓ} : {A : Type 0} {B : Type ℓ} → (A → B) → Result A Fault → Result B Fault
  map_ok f (err x) = err x
  map_ok f (ok a) = ok (f a)

  module _ (st : SendToInner Addr Handle Mon) where
    abbrev SendAgrees : ℕ → Option Mon → World → Type 0
    SendAgrees n m w =
        send_loop R O n (record st { monitor = m }) w
        ≡ map_ok (as_sent st)
            (retry R (O.sys_send_to st.socket st.buf st.target) (monitor st.socket write) n m w)

    send_at_monitor :
        (n : ℕ) (m : Mon) (w : World)
        → ((w2 : World) → SendAgrees n none w2)
        → (x : Poll (Unit {0}) (MonitorError IoError) × Mon × World) → poll_monitor m w ≡ x
        → SendAgrees (suc n) (some m) w
    unfolding send_loop retry as_sent
    send_at_monitor n m w again (err e, m', w') is = ground (arith, is)
    send_at_monitor n m w again (ok not_ready, m', w') is = ground (arith, is)
    send_at_monitor n m w again (ok (ready u), m', w') is = ground (arith, is, again w')

    send_at_call :
        (n : ℕ) (w : World)
        → ((m : Mon) (w2 : World) → SendAgrees n (some m) w2)
        → (x : Result ℕ IoError × World) → O.sys_send_to st.socket st.buf st.target w ≡ x
        → SendAgrees (suc n) none w
    unfolding send_loop retry as_sent
    send_at_call n w again (ok size, w') is = ground (arith, is)
    send_at_call n w again (err e, w') is =
        let (m, w2) = monitor st.socket write w' in ground (arith, is, again m w2)

    send_loop-retry : (n : ℕ) (m : Option Mon) (w : World) → SendAgrees n m w
    unfolding send_loop retry
    send_loop-retry zero m w = refl
    send_loop-retry (suc n) (some m) w =
        send_at_monitor n m w (send_loop-retry n none) (poll_monitor m w) refl
    send_loop-retry (suc n) none w =
        send_at_call n w (λ m. send_loop-retry n (some m))
          (O.sys_send_to st.socket st.buf st.target w) refl

    -- `SendTo::poll` is the retry loop around `send_to`: if no event arrives between the start of a
    -- monitor and its first poll, it ends within three rounds, and gives the socket and the buffer back
    -- with the size or the error, or else keeps them, and a monitor that was polled last and was not ready.
    pub poll_send_to_total :
        IsCalm R (O.sys_send_to st.socket st.buf st.target) (monitor st.socket write)
        → (n : ℕ) (w : World)
        → (r : Retried ℕ × Option Mon × World) × (poll_send_to R O (n + 3) (some st) w
            ≡ ok (as_sent st r))
          × Ended R (O.sys_send_to st.socket st.buf st.target) (monitor st.socket write) r
    unfolding poll_send_to
    poll_send_to_total calm n w =
        let (r, q, e) =
          retry_total R (O.sys_send_to st.socket st.buf st.target) (monitor st.socket write) calm n
            st.monitor w in
        (r, send_loop-retry (n + 3) st.monitor w ∙ ap (map_ok (as_sent st)) q, e)

  module _ (st : RecvFromInner Handle Mon) where
    abbrev RecvAgrees : ℕ → Option Mon → World → Type 0
    RecvAgrees n m w =
        recv_loop R O n (record st { monitor = m }) w
        ≡ map_ok (as_received st)
            (retry R (O.sys_recv_from st.socket st.buf) (monitor st.socket read) n m w)

    recv_at_monitor :
        (n : ℕ) (m : Mon) (w : World)
        → ((w2 : World) → RecvAgrees n none w2)
        → (x : Poll (Unit {0}) (MonitorError IoError) × Mon × World) → poll_monitor m w ≡ x
        → RecvAgrees (suc n) (some m) w
    unfolding recv_loop retry as_received
    recv_at_monitor n m w again (err e, m', w') is = ground (arith, is)
    recv_at_monitor n m w again (ok not_ready, m', w') is = ground (arith, is)
    recv_at_monitor n m w again (ok (ready u), m', w') is = ground (arith, is, again w')

    recv_at_call :
        (n : ℕ) (w : World)
        → ((m : Mon) (w2 : World) → RecvAgrees n (some m) w2)
        → (x : Result (ℕ × Addr × List ℕ) IoError × World) → O.sys_recv_from st.socket st.buf w ≡ x
        → RecvAgrees (suc n) none w
    unfolding recv_loop retry as_received
    recv_at_call n w again (ok (size, addr, buf), w') is = ground (arith, is)
    recv_at_call n w again (err e, w') is =
        let (m, w2) = monitor st.socket read w' in ground (arith, is, again m w2)

    recv_loop-retry : (n : ℕ) (m : Option Mon) (w : World) → RecvAgrees n m w
    unfolding recv_loop retry
    recv_loop-retry zero m w = refl
    recv_loop-retry (suc n) (some m) w =
        recv_at_monitor n m w (recv_loop-retry n none) (poll_monitor m w) refl
    recv_loop-retry (suc n) none w =
        recv_at_call n w (λ m. recv_loop-retry n (some m)) (O.sys_recv_from st.socket st.buf w) refl

    -- `RecvFrom::poll` is the retry loop around `recv_from`, on the same condition: it ends within three
    -- rounds, and gives the socket and the buffer back with the size and the sender or with the error, or
    -- else keeps them, and a monitor that was polled last and was not ready.
    pub poll_recv_from_total :
        IsCalm R (O.sys_recv_from st.socket st.buf) (monitor st.socket read)
        → (n : ℕ) (w : World)
        → (r : Retried (ℕ × Addr × List ℕ) × Option Mon × World) × (poll_recv_from R O
              (n + 3)
              (some st)
              w
            ≡ ok (as_received st r))
          × Ended R (O.sys_recv_from st.socket st.buf) (monitor st.socket read) r
    unfolding poll_recv_from
    poll_recv_from_total calm n w =
        let (r, q, e) =
          retry_total R (O.sys_recv_from st.socket st.buf) (monitor st.socket read) calm n
            st.monitor w in
        (r, recv_loop-retry (n + 3) st.monitor w ∙ ap (map_ok (as_received st)) q, e)
