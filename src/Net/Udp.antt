-- ===== src/Net/Udp.antt =====
-- src/net/udp.rs: sockets, and the futures that send and receive a datagram.
pub mod Waiting
use fibers_rs.Prelude.{ℕ, zero, suc, true, false, Option, none, some, List}
use fibers_rs.Prelude.Results.{
  Result, ok, err, Async, Poll, ready, not_ready, Fault, panic, diverges,
}
use fibers_rs.Poll.Poller.{Interest, read, write}
use fibers_rs.Net.Bind.{Bind, bind, poll_bind}
use fibers_rs.Net.Reactor.{IoError, kind, is_would_block, into_io_error, Reactor}

-- The calls of mio's socket. `sys_recv_from` is given the buffer, and gives the size, the sender and the
-- buffer as it is then; a call that fails leaves the buffer alone.
pub record UdpOs (World Socket Handle : Type 0) : Type 1 where
  pub Addr : Type 0
  pub sys_bind : Addr → World → Result Socket IoError × World
  pub sys_send_to : Handle → List ℕ → Addr → World → Result ℕ IoError × World
  pub sys_recv_from : Handle → List ℕ → World → Result (ℕ × Addr × List ℕ) IoError × World

pub record SendToInner (Addr Handle Mon : Type 0) : Type 0 where
  pub socket : Handle
  pub buf : List ℕ
  pub target : Addr
  pub monitor : Option Mon

pub record RecvFromInner (Handle Mon : Type 0) : Type 0 where
  pub socket : Handle
  pub buf : List ℕ
  pub monitor : Option Mon

module _ (R : Reactor) (O : UdpOs R.World R.Socket R.Handle) where
  open R use {World, Handle, Reg, Mon, monitor, poll_monitor}
  open O use {Addr}

  -- `UdpSocket::bind` and `UdpSocketBind::poll`: a socket is its handle.
  unfoldable pub bind_socket : Addr → Bind Addr Reg
  bind_socket addr = bind addr

  unfoldable pub poll_socket_bind :
      ℕ → Bind Addr Reg → World → Result (Poll Handle IoError × Bind Addr Reg × World) Fault
  poll_socket_bind n b w = poll_bind R O.sys_bind n b w

  -- `UdpSocket::send_to` and `UdpSocket::recv_from`
  unfoldable pub send_to : Handle → List ℕ → Addr → Option (SendToInner Addr Handle Mon)
  send_to socket buf target =
      some (record { socket = socket; buf = buf; target = target; monitor = none })

  unfoldable pub recv_from : Handle → List ℕ → Option (RecvFromInner Handle Mon)
  recv_from socket buf = some (record { socket = socket; buf = buf; monitor = none })

  -- The loop of `SendTo::poll`, on fuel.
  unfoldable pub send_loop :
      ℕ
      → SendToInner Addr Handle Mon
      → World
      → Result
          (Poll (Handle × List ℕ × ℕ) (Handle × List ℕ × IoError)
            × Option (SendToInner Addr Handle Mon)
            × World)
          Fault
  send_loop zero state w = err diverges
  send_loop (suc n) state w = elim state.monitor [
    | some m ↦
        let (r, m', w') = poll_monitor m w in
        elim r [
          | err e ↦ ok (err (state.socket, state.buf, into_io_error e), none, w')
          | ok a ↦ elim a [
            | not_ready ↦ ok (ok not_ready, some (record state { monitor = some m' }), w')
            | ready u ↦ send_loop n (record state { monitor = none }) w'
          ]
        ]
    | none ↦
        let (result, w') = O.sys_send_to state.socket state.buf state.target w in
        elim result [
          | ok size ↦ ok (ok (ready (state.socket, state.buf, size)), none, w')
          | err e ↦ elim (is_would_block (kind e)) [
            | true ↦
                (let (m, w2) = monitor state.socket write w' in
                  send_loop n (record state { monitor = some m }) w2)
            | false ↦ ok (err (state.socket, state.buf, e), none, w')
          ]
        ]
  ]

  -- `SendTo::poll`
  unfoldable pub poll_send_to :
      ℕ
      → Option (SendToInner Addr Handle Mon)
      → World
      → Result
          (Poll (Handle × List ℕ × ℕ) (Handle × List ℕ × IoError)
            × Option (SendToInner Addr Handle Mon)
            × World)
          Fault
  poll_send_to n none w = err panic
  poll_send_to n (some state) w = send_loop n state w

  -- The loop of `RecvFrom::poll`, on fuel.
  unfoldable pub recv_loop :
      ℕ
      → RecvFromInner Handle Mon
      → World
      → Result
          (Poll (Handle × List ℕ × ℕ × Addr) (Handle × List ℕ × IoError)
            × Option (RecvFromInner Handle Mon)
            × World)
          Fault
  recv_loop zero state w = err diverges
  recv_loop (suc n) state w = elim state.monitor [
    | some m ↦
        let (r, m', w') = poll_monitor m w in
        elim r [
          | err e ↦ ok (err (state.socket, state.buf, into_io_error e), none, w')
          | ok a ↦ elim a [
            | not_ready ↦ ok (ok not_ready, some (record state { monitor = some m' }), w')
            | ready u ↦ recv_loop n (record state { monitor = none }) w'
          ]
        ]
    | none ↦
        let (result, w') = O.sys_recv_from state.socket state.buf w in
        elim result [
          | ok (size, addr, buf) ↦ ok (ok (ready (state.socket, buf, size, addr)), none, w')
          | err e ↦ elim (is_would_block (kind e)) [
            | true ↦
                (let (m, w2) = monitor state.socket read w' in
                  recv_loop n (record state { monitor = some m }) w2)
            | false ↦ ok (err (state.socket, state.buf, e), none, w')
          ]
        ]
  ]

  -- `RecvFrom::poll`
  unfoldable pub poll_recv_from :
      ℕ
      → Option (RecvFromInner Handle Mon)
      → World
      → Result
          (Poll (Handle × List ℕ × ℕ × Addr) (Handle × List ℕ × IoError)
            × Option (RecvFromInner Handle Mon)
            × World)
          Fault
  poll_recv_from n none w = err panic
  poll_recv_from n (some state) w = recv_loop n state w
