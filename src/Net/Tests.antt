-- ===== src/Net/Tests.antt =====
-- A small world for src/net: which events and bytes have come, and what the system calls return.
use fibers_rs.Prelude.{
  ℕ, zero, suc, ◌+◌, ◌≡◌, refl, Bool, true, Option, none, some, List, [], ◌∷◌, if◌then◌else◌,
  length,
}
use fibers_rs.Prelude.Results.{Result, ok, err, Poll, ready, not_ready}
use fibers_rs.Sync.Oneshot.{MonitorError, aborted}
use fibers_rs.Poll.Poller.{read, write}
use fibers_rs.Net.Reactor.{IoError, raw, would_block, not_connected, Reactor}
use fibers_rs.Net.Retry.{Retried, Ended}
use fibers_rs.Net.Tcp.{
  TcpOs, TcpListener, TcpStream, new_stream, connect, operate, poll_connect, monitor_of,
  set_monitor,
}
use fibers_rs.Net.Udp.{UdpOs, SendToInner, RecvFromInner, poll_send_to}
use fibers_rs.Net.Tcp.Waiting.{Operated, operate_total}
use fibers_rs.Net.Tcp.Connecting.{Settled, poll_connect_total}
use fibers_rs.Net.Udp.Waiting.{as_sent, poll_send_to_total}

-- `events` says of the next polls of a monitor whether an event has come; `arrived` are the bytes that a
-- socket has for its reader, and `asks` how often the peer's address is asked before there is one.
record World : Type 0 where
  events : List Bool
  arrived : List ℕ
  asks : ℕ

data Mon : Type 0 where
  fresh pending spent : Mon

-- A fresh monitor is not ready; later ones look for an event; one that has been ready is aborted.
poll_mon : Mon → World → Poll (Unit {0}) (MonitorError IoError) × Mon × World
poll_mon fresh w = (ok not_ready, pending, w)
poll_mon spent w = (err aborted, spent, w)
poll_mon pending w = elim w.events [
  | [] ↦ (ok not_ready, pending, w)
  | e ∷ es ↦
      if e
      then (ok (ready tt), spent, record w { events = es })
      else (ok not_ready, pending, record w { events = es })
]

-- `first`: how a monitor starts.
abbrev reactor : Mon → Reactor
reactor first = record {
  World = World;
  Socket = ℕ;
  Handle = ℕ;
  Reg = ℕ;
  Mon = Mon;
  register = λ s w. some (s, w);
  poll_register = λ r w. (ok (ready r), r, w);
  monitor = λ h i w. (first, w);
  poll_monitor = poll_mon;
}

abbrev calm : Reactor
calm = reactor fresh

sys_read : World → Result (List ℕ) IoError × World
sys_read w = elim w.arrived [
  | [] ↦ (err (raw would_block 11), w)
  | b ∷ bs ↦ (ok (b ∷ bs), record w { arrived = [] })
]

sys_peer : World → Result ℕ IoError × World
sys_peer w = elim w.asks [
  | zero ↦ (ok 80, w)
  | suc k ↦ (err (raw not_connected 107), record w { asks = k })
]

abbrev tcp : TcpOs World ℕ ℕ
tcp = record {
  Addr = ℕ;
  sys_bind = λ a w. (ok a, w);
  sys_accept = λ h w. (err (raw would_block 11), w);
  sys_connect = λ a w. (ok a, w);
  sys_peer_addr = λ h w. sys_peer w;
  sys_take_error = λ h w. (ok none, w);
  sys_read = λ h n w. sys_read w;
  sys_write = λ h bs w. (ok (length bs), w);
  sys_flush = λ h w. (ok tt, w);
}

abbrev udp : UdpOs World ℕ ℕ
udp = record {
  Addr = ℕ;
  sys_bind = λ a w. (ok a, w);
  sys_send_to = λ h bs a w. (ok (length bs), w);
  sys_recv_from = λ h bs w. (err (raw would_block 11), w);
}

fresh-IsCalm : (w : World) → (poll_mon fresh w).0 ≡ ok not_ready
unfolding poll_mon
fresh-IsCalm w = refl

-- An event and three bytes have come; the stream waits for them.
abbrev world0 : World
world0 = record { events = true ∷ []; arrived = 7 ∷ 8 ∷ 9 ∷ []; asks = 1 }

abbrev reader0 : TcpStream ℕ Mon
reader0 = record { handle = 3; read_monitor = some pending; write_monitor = none }

operate_total_example :
    (r : Result (List ℕ) IoError × TcpStream ℕ Mon × World) × (operate calm tcp sys_read
        (0 + 3)
        read
        reader0
        world0
      ≡ ok r)
    × Operated calm tcp sys_read reader0 read r
operate_total_example = operate_total calm tcp sys_read reader0 read fresh-IsCalm 0 world0

read_runs :
    operate calm tcp sys_read 3 read reader0 world0
    ≡ ok (ok (7 ∷ 8 ∷ 9 ∷ []), new_stream 3, record { events = []; arrived = []; asks = 1 })
unfolding operate monitor_of set_monitor poll_mon sys_read new_stream
read_runs = refl

abbrev listener0 : TcpListener ℕ Mon
listener0 = record { handle = 4; monitor = none }

poll_connect_total_example : Settled calm tcp (poll_connect calm tcp 4 (connect 80) world0)
poll_connect_total_example =
    poll_connect_total calm tcp (λ socket v. refl) 0 (connect 80) world0 refl

abbrev sending0 : SendToInner ℕ ℕ Mon
sending0 = record { socket = 5; buf = 1 ∷ 2 ∷ []; target = 9; monitor = some pending }

poll_send_to_total_example :
    (r : Retried ℕ × Option Mon × World) × (poll_send_to calm udp (0 + 3) (some sending0) world0
      ≡ ok (as_sent calm udp sending0 r))
    × Ended calm (udp.sys_send_to 5 (1 ∷ 2 ∷ []) 9) (calm.monitor 5 write) r
poll_send_to_total_example = poll_send_to_total calm udp sending0 fresh-IsCalm 0 world0

abbrev receiving0 : RecvFromInner ℕ Mon
receiving0 = record { socket = 5; buf = 0 ∷ 0 ∷ []; monitor = none }
