-- ===== src/Net/Tcp.antt =====
-- src/net/tcp.rs: listeners and streams. A future's `poll` gives its result, what `self` becomes, and
-- the world.
pub mod Waiting
pub mod Connecting
use fibers_rs.Prelude.{ℕ, zero, suc, Bool, true, false, Option, none, some, List, length}
use fibers_rs.Prelude.Results.{
  Result, ok, err, Async, Poll, ready, not_ready, Fault, panic, diverges,
}
use fibers_rs.Sync.Oneshot.{MonitorError, unwrap_or_else}
use fibers_rs.Poll.Poller.{Interest, read, write}
use fibers_rs.Net.Bind.{Bind, bind, poll_bind}
use fibers_rs.Net.Reactor.{
  IoError, raw, other, would_block, kind, is_would_block, is_not_connected, into_io_error,
  into_io_error_recv, Reactor,
}

-- The calls of mio's sockets, which never block. The bytes that `sys_read` gives stand for the size it
-- returns and the filled part of the buffer, whose length it is given.
pub record TcpOs (World Socket Handle : Type 0) : Type 1 where
  pub Addr : Type 0
  pub sys_bind : Addr → World → Result Socket IoError × World
  pub sys_accept : Handle → World → Result (Socket × Addr) IoError × World
  pub sys_connect : Addr → World → Result Socket IoError × World
  pub sys_peer_addr : Handle → World → Result Addr IoError × World
  pub sys_take_error : Handle → World → Result (Option IoError) IoError × World
  pub sys_read : Handle → ℕ → World → Result (List ℕ) IoError × World
  pub sys_write : Handle → List ℕ → World → Result ℕ IoError × World
  pub sys_flush : Handle → World → Result (Unit {0}) IoError × World

pub record TcpListener (Handle Mon : Type 0) : Type 0 where
  pub handle : Handle
  pub monitor : Option Mon

pub record TcpStream (Handle Mon : Type 0) : Type 0 where
  pub handle : Handle
  pub read_monitor : Option Mon
  pub write_monitor : Option Mon

module _ {Handle Mon : Type 0} where
  unfoldable pub new_stream : Handle → TcpStream Handle Mon
  new_stream h = record { handle = h; read_monitor = none; write_monitor = none }

  unfoldable pub clone_stream : TcpStream Handle Mon → TcpStream Handle Mon
  clone_stream s = record { handle = s.handle; read_monitor = none; write_monitor = none }

  -- `TcpStream::monitor`, read and written
  unfoldable pub monitor_of : TcpStream Handle Mon → Interest → Option Mon
  monitor_of s read = s.read_monitor
  monitor_of s write = s.write_monitor

  unfoldable pub set_monitor : TcpStream Handle Mon → Interest → Option Mon → TcpStream Handle Mon
  set_monitor s read m = record s { read_monitor = m }
  set_monitor s write m = record s { write_monitor = m }

-- `mio::would_block()`
abbrev pub would_block_error : IoError
would_block_error = raw would_block 0

pub data ConnectInner (Addr Handle Reg Mon : Type 0) : Type 0 where
  connect : Addr → ConnectInner Addr Handle Reg Mon
  registering : Reg → ConnectInner Addr Handle Reg Mon
  connecting : TcpStream Handle Mon → ConnectInner Addr Handle Reg Mon
  polled : ConnectInner Addr Handle Reg Mon

module _ (R : Reactor) (O : TcpOs R.World R.Socket R.Handle) where
  open R use {World, Socket, Handle, Reg, Mon, register, poll_register, monitor, poll_monitor}
  open O use {Addr}

  -- `TcpListener::bind`, and `TcpListenerBind::poll` on the fuel of `poll_bind`
  unfoldable pub bind_listener : Addr → Bind Addr Reg
  bind_listener addr = bind addr

  unfoldable pub poll_listener_bind :
      ℕ
      → Bind Addr Reg
      → World
      → Result (Poll (TcpListener Handle Mon) IoError × Bind Addr Reg × World) Fault
  poll_listener_bind n b w = elim (poll_bind R O.sys_bind n b w) [
    | err x ↦ err x
    | ok (p, b', w') ↦ elim p [
      | err e ↦ ok (err e, b', w')
      | ok a ↦ elim a [
        | not_ready ↦ ok (ok not_ready, b', w')
        | ready h ↦ ok (ok (ready (record { handle = h; monitor = none })), b', w')
      ]
    ]
  ]

  -- `Incoming::poll`, its loop on fuel. A `Connected` is the registration that it holds, if any.
  unfoldable pub poll_incoming :
      ℕ
      → TcpListener Handle Mon
      → World
      → Result (Poll (Option (Option Reg × Addr)) IoError × TcpListener Handle Mon × World) Fault
  poll_incoming zero l w = err diverges
  poll_incoming (suc n) l w = elim l.monitor [
    | some m ↦
        let (r, m', w') = poll_monitor m w in
        elim r [
          | err e ↦ ok (err (into_io_error e), record l { monitor = none }, w')
          | ok a ↦ elim a [
            | not_ready ↦ ok (ok not_ready, record l { monitor = some m' }, w')
            | ready u ↦ poll_incoming n (record l { monitor = none }) w'
          ]
        ]
    | none ↦
        let (r, w') = O.sys_accept l.handle w in
        elim r [
          | ok (stream, addr) ↦ elim (register stream w') [
            | none ↦ err panic
            | some (future, w2) ↦ ok (ok (ready (some (some future, addr))), l, w2)
          ]
          | err e ↦ elim (is_would_block (kind e)) [
            | true ↦
                (let (m, w2) = monitor l.handle read w' in
                  poll_incoming n (record l { monitor = some m }) w2)
            | false ↦ ok (err e, l, w')
          ]
        ]
  ]

  -- `Connected::poll`
  unfoldable pub poll_connected :
      Option Reg → World → Result (Poll (TcpStream Handle Mon) IoError × Option Reg × World) Fault
  poll_connected none w = err panic
  poll_connected (some future) w =
      let (x, future', w') = poll_register future w in
      elim x [
        | err e ↦ ok (err (into_io_error_recv e), none, w')
        | ok a ↦ elim a [
          | ready handle ↦ ok (ok (ready (new_stream handle)), none, w')
          | not_ready ↦ ok (ok not_ready, some future', w')
        ]
      ]

  unfoldable pub start_monitor_if_needed :
      TcpStream Handle Mon → Interest → World → Result Bool IoError × TcpStream Handle Mon × World
  start_monitor_if_needed s interest w = elim (monitor_of s interest) [
    | some m ↦ (ok false, s, w)
    | none ↦
        let (m, w1) = monitor s.handle interest w in
        let (r, m', w2) = poll_monitor m w1 in
        let s' = set_monitor s interest (some m') in
        elim r [
          | err e ↦ (err (unwrap_or_else e (λ u. raw other 0)), s', w2)
          | ok a ↦ (ok true, s', w2)
        ]
  ]

  -- `operate`, its loop on fuel, around the call `f` of the socket.
  unfoldable pub operate :
      {T : Type 0}
      → (World → Result T IoError × World)
      → ℕ
      → Interest
      → TcpStream Handle Mon
      → World
      → Result (Result T IoError × TcpStream Handle Mon × World) Fault
  operate f zero interest s w = err diverges
  operate f (suc n) interest s w = elim (monitor_of s interest) [
    | some m ↦
        let (r, m', w') = poll_monitor m w in
        elim r [
          | err e ↦ ok (err (into_io_error e), set_monitor s interest none, w')
          | ok a ↦ elim a [
            | not_ready ↦ ok (err would_block_error, set_monitor s interest (some m'), w')
            | ready u ↦ operate f n interest (set_monitor s interest none) w'
          ]
        ]
    | none ↦
        let (result, w') = f w in
        elim result [
          | ok v ↦ ok (ok v, s, w')
          | err e ↦ elim (is_would_block (kind e)) [
            | true ↦
                (let (m, w2) = monitor s.handle interest w' in
                  operate f n interest (set_monitor s interest (some m)) w2)
            | false ↦ ok (err e, s, w')
          ]
        ]
  ]

  -- `Read for TcpStream` and `Write for TcpStream`
  unfoldable pub read_stream :
      ℕ
      → TcpStream Handle Mon
      → List ℕ
      → World
      → Result (Result (List ℕ) IoError × TcpStream Handle Mon × World) Fault
  read_stream n s buf w = operate (O.sys_read s.handle (length buf)) n read s w

  unfoldable pub write_stream :
      ℕ
      → TcpStream Handle Mon
      → List ℕ
      → World
      → Result (Result ℕ IoError × TcpStream Handle Mon × World) Fault
  write_stream n s buf w = operate (O.sys_write s.handle buf) n write s w

  unfoldable pub flush_stream :
      ℕ
      → TcpStream Handle Mon
      → World
      → Result (Result (Unit {0}) IoError × TcpStream Handle Mon × World) Fault
  flush_stream n s w = operate (O.sys_flush s.handle) n write s w

  -- `ConnectInner::poll`, its calls of itself on fuel.
  unfoldable pub poll_connect :
      ℕ
      → ConnectInner Addr Handle Reg Mon
      → World
      → Result
          (Poll (TcpStream Handle Mon) IoError × ConnectInner Addr Handle Reg Mon × World)
          Fault
  poll_connect zero c w = err diverges
  poll_connect (suc n) (connect addr) w =
      let (x, w1) = O.sys_connect addr w in
      elim x [
        | err e ↦ ok (err e, polled, w1)
        | ok stream ↦ elim (register stream w1) [
          | none ↦ err panic
          | some (reg, w2) ↦ poll_connect n (registering reg) w2
        ]
      ]
  poll_connect (suc n) (registering future) w =
      let (x, future', w1) = poll_register future w in
      elim x [
        | err e ↦ ok (err (into_io_error_recv e), polled, w1)
        | ok a ↦ elim a [
          | ready handle ↦ poll_connect n (connecting (new_stream handle)) w1
          | not_ready ↦ ok (ok not_ready, registering future', w1)
        ]
      ]
  poll_connect (suc n) (connecting stream) w =
      let (x, w1) = O.sys_peer_addr stream.handle w in
      elim x [
        | ok a ↦ ok (ok (ready stream), polled, w1)
        | err e ↦
            let (y, w2) = O.sys_take_error stream.handle w1 in
            elim y [
              | err e2 ↦ ok (err e2, polled, w2)
              | ok pending ↦ elim pending [
                | some e2 ↦ ok (err e2, polled, w2)
                | none ↦ elim (is_not_connected (kind e)) [
                  | false ↦ ok (err e, polled, w2)
                  | true ↦
                      (let (z, s', w3) = start_monitor_if_needed stream write w2 in
                        elim z [
                          | err e3 ↦ ok (err e3, polled, w3)
                          | ok retry ↦ elim retry [
                            | true ↦ poll_connect n (connecting s') w3
                            | false ↦ ok (ok not_ready, connecting s', w3)
                          ]
                        ])
                ]
              ]
            ]
      ]
  poll_connect (suc n) polled w = err panic
