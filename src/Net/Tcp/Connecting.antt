-- ===== src/Net/Tcp/Connecting.antt =====
-- How a stream gets connected (src/net/tcp.rs, `ConnectInner`).
use fibers_rs.Prelude.{
  ℕ, suc, ◌≡◌, refl, subst, Bool, true, false, Option, none, some, arith, inl, inr, Bool-cases,
  Option-cases,
}
use fibers_rs.Prelude.HashMap.{is_some}
use fibers_rs.Prelude.Results.{Result, ok, err, Poll, ready, not_ready, Fault}
use fibers_rs.Sync.Oneshot.{MonitorError, unwrap_or_else, RecvError}
use fibers_rs.Poll.Poller.{write}
use fibers_rs.Net.Reactor.{IoError, raw, other, kind, is_not_connected, into_io_error_recv, Reactor}
use fibers_rs.Net.Tcp.{
  TcpOs, TcpStream, new_stream, monitor_of, set_monitor, ConnectInner, connect, registering,
  connecting, polled, poll_connect, start_monitor_if_needed,
}

module _ (R : Reactor) (O : TcpOs R.World R.Socket R.Handle) where
  open R use {World, Socket, Handle, Reg, Mon, register, poll_register, monitor, poll_monitor}
  open O use {Addr}

  -- What a call of `poll` on a connection that is not over may return.
  pub data Settled
      : Result
          (Poll (TcpStream Handle Mon) IoError × ConnectInner Addr Handle Reg Mon × World)
          Fault
        → Type 0 where
    connected :
        (s : TcpStream Handle Mon) (a : Addr) (w0 w : World)
        → O.sys_peer_addr s.handle w0 ≡ (ok a, w)
        → Settled (ok (ok (ready s), polled, w))
    failing : (e : IoError) (w : World) → Settled (ok (err e, polled, w))
    unregistered :
        (future future' : Reg) (w0 w : World)
        → poll_register future w0 ≡ (ok not_ready, future', w)
        → Settled (ok (ok not_ready, registering future', w))
    unconnected :
        (s : TcpStream Handle Mon) (m : Mon) (w : World)
        → s.write_monitor ≡ some m
        → Settled (ok (ok not_ready, connecting s, w))

  -- What `start_monitor_if_needed` may return.
  pub data Started (s : TcpStream Handle Mon) (w : World)
      : Result Bool IoError × TcpStream Handle Mon × World → Type 0 where
    had : (m : Mon) → s.write_monitor ≡ some m → Started s w (ok false, s, w)
    has :
        (m : Mon) (w' : World)
        → s.write_monitor ≡ none
        → Started s w (ok true, record s { write_monitor = some m }, w')
    has_failed :
        (e : IoError) (s' : TcpStream Handle Mon) (w' : World) → Started s w (err e, s', w')

  Started-new :
      (s : TcpStream Handle Mon) (w : World)
      (x : Poll (Unit {0}) (MonitorError IoError) × Mon × World)
      → poll_monitor (monitor s.handle write w).0 (monitor s.handle write w).1 ≡ x
      → s.write_monitor ≡ none
      → Started s w (start_monitor_if_needed R O s write w)
  unfolding start_monitor_if_needed monitor_of set_monitor
  Started-new s w (err e, m', w') is no_monitor =
      subst (Started s w) (ground (arith, is, no_monitor))
        (has_failed (unwrap_or_else e (λ u. raw other 0)) (record s { write_monitor = some m' }) w')
  Started-new s w (ok a, m', w') is no_monitor =
      subst (Started s w) (ground (arith, is, no_monitor)) (has m' w' no_monitor)

  start_monitor-Started :
      (s : TcpStream Handle Mon) (w : World) → Started s w (start_monitor_if_needed R O s write w)
  unfolding start_monitor_if_needed monitor_of
  start_monitor-Started s w = elim (Option-cases s.write_monitor) [
    | inl no_monitor ↦ Started-new s w _ refl no_monitor
    | inr (m, is) ↦ subst (Started s w) (ground (arith, is)) (had m is)
  ]

  module _ (n : ℕ) (s : TcpStream Handle Mon)
      (again : s.write_monitor ≡ none
        → (s' : TcpStream Handle Mon) (m : Mon) (w : World) → s'.write_monitor ≡ some m
        → Settled (poll_connect R O n (connecting s') w)) where
    after_start :
        (w w1 w2 : World) (e : IoError)
        → O.sys_peer_addr s.handle w ≡ (err e, w1)
        → O.sys_take_error s.handle w1 ≡ (ok none, w2)
        → is_not_connected (kind e) ≡ true
        → (z : Result Bool IoError × TcpStream Handle Mon × World)
        → start_monitor_if_needed R O s write w2 ≡ z
        → Started s w2 z
        → Settled (poll_connect R O (suc n) (connecting s) w)
    unfolding poll_connect
    after_start w w1 w2 e p q k z is (had m some_m) =
        subst Settled (ground (arith, p, q, k, is)) (unconnected s m w2 some_m)
    after_start w w1 w2 e p q k z is (has m w3 no_monitor) =
        let s' = record s { write_monitor = some m } in
        let same : poll_connect R O n (connecting s') w3
            ≡ poll_connect R O (suc n) (connecting s) w =
          ground (arith, p, q, k, is) in
        subst Settled same (again no_monitor s' m w3 refl)
    after_start w w1 w2 e p q k z is (has_failed x s' w3) =
        subst Settled (ground (arith, p, q, k, is)) (failing x w3)

    after_peer :
        (w w1 : World) (e : IoError)
        → O.sys_peer_addr s.handle w ≡ (err e, w1)
        → (y : Result (Option IoError) IoError × World) → O.sys_take_error s.handle w1 ≡ y
        → Settled (poll_connect R O (suc n) (connecting s) w)
    unfolding poll_connect
    after_peer w w1 e p (err x, w2) is = subst Settled (ground (arith, p, is)) (failing x w2)
    after_peer w w1 e p (ok (some x), w2) is = subst Settled (ground (arith, p, is)) (failing x w2)
    after_peer w w1 e p (ok none, w2) is = elim (Bool-cases (is_not_connected (kind e))) [
      | inl wait ↦ after_start w w1 w2 e p is wait _ refl (start_monitor-Started s w2)
      | inr fatal ↦ subst Settled (ground (arith, p, is, fatal)) (failing e w2)
    ]

    connecting-Settled :
        (w : World) (x : Result Addr IoError × World)
        → O.sys_peer_addr s.handle w ≡ x
        → Settled (poll_connect R O (suc n) (connecting s) w)
    unfolding poll_connect
    connecting-Settled w (ok a, w1) is = subst Settled (ground (arith, is)) (connected s a w w1 is)
    connecting-Settled w (err e, w1) is = after_peer w w1 e is _ refl

  with_monitor :
      (n : ℕ) (s : TcpStream Handle Mon) (m : Mon) (w : World)
      → s.write_monitor ≡ some m
      → Settled (poll_connect R O (suc n) (connecting s) w)
  with_monitor n s m w is =
      connecting-Settled n s (λ no_monitor s' m' w' q. absurd (ground (arith, is, no_monitor))) w _
        refl

  any_stream :
      (n : ℕ) (s : TcpStream Handle Mon) (w : World)
      → Settled (poll_connect R O (suc (suc n)) (connecting s) w)
  any_stream n s w =
      connecting-Settled (suc n) s (λ no_monitor s' m' w' q. with_monitor n s' m' w' q) w _ refl

  registering-Settled :
      (n : ℕ) (future : Reg) (w : World) (x : Poll Handle RecvError × Reg × World)
      → poll_register future w ≡ x
      → Settled (poll_connect R O (suc (suc (suc n))) (registering future) w)
  unfolding poll_connect
  registering-Settled n future w (err e, future', w1) is =
      subst Settled (ground (arith, is)) (failing (into_io_error_recv e) w1)
  registering-Settled n future w (ok not_ready, future', w1) is =
      subst Settled (ground (arith, is)) (unregistered future future' w w1 is)
  registering-Settled n future w (ok (ready h), future', w1) is =
      let same : poll_connect R O (suc (suc n)) (connecting (new_stream h)) w1
          ≡ poll_connect R O (suc (suc (suc n))) (registering future) w =
        ground (arith, is) in
      subst Settled same (any_stream n (new_stream h) w1)

  connect-Settled :
      (n : ℕ) (addr : Addr) (w : World) (x : Result Socket IoError × World)
      → ((socket : Socket) (v : World) → is_some (register socket v) ≡ true)
      → O.sys_connect addr w ≡ x
      → Settled (poll_connect R O (suc (suc (suc (suc n)))) (connect addr) w)
  unfolding poll_connect
  connect-Settled n addr w (err e, w1) in_fiber is =
      subst Settled (ground (arith, is)) (failing e w1)
  connect-Settled n addr w (ok socket, w1) in_fiber is = elim (Option-cases (register socket w1)) [
    | inl outside ↦ absurd (ground (arith, outside, in_fiber socket w1))
    | inr ((future, w2), registered) ↦
        let same : poll_connect R O (suc (suc (suc n))) (registering future) w2
            ≡ poll_connect R O (suc (suc (suc (suc n)))) (connect addr) w =
          ground (arith, is, registered) in
        subst Settled same (registering-Settled n future w2 _ refl)
  ]

  abbrev pub is_over : ConnectInner Addr Handle Reg Mon → Bool
  is_over (connect addr) = false
  is_over (registering future) = false
  is_over (connecting s) = false
  is_over polled = true

  -- In a fiber, a call of `poll` on a connection that is not over ends, without a panic, within four
  -- nested calls. It returns a stream whose peer has an address; an error, and the connection is over; or
  -- it is not ready, and then the registration was polled and is not ready, or the stream has a monitor
  -- for writing.
  pub poll_connect_total :
      ((socket : Socket) (v : World) → is_some (register socket v) ≡ true)
      → (n : ℕ) (c : ConnectInner Addr Handle Reg Mon) (w : World) → is_over c ≡ false
      → Settled (poll_connect R O (suc (suc (suc (suc n)))) c w)
  poll_connect_total in_fiber n (connect addr) w live = connect-Settled n addr w _ in_fiber refl
  poll_connect_total in_fiber n (registering future) w live =
      registering-Settled (suc n) future w _ refl
  poll_connect_total in_fiber n (connecting s) w live = any_stream (suc (suc n)) s w
  poll_connect_total in_fiber n polled w live = absurd (ground (arith, live))
