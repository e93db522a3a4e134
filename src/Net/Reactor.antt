-- ===== src/Net/Reactor.antt =====
-- What src/net uses of the rest of the program: the registration of a socket with the poller of the
-- current fiber, and monitors for the readiness of a registered socket; with I/O errors.
use fibers_rs.Prelude.{ℕ, Bool, true, false, Option}
use fibers_rs.Prelude.Results.{Poll}
use fibers_rs.Sync.Oneshot.{MonitorError, aborted, failed, RecvError}
use fibers_rs.Poll.Poller.{Interest}

-- `io::ErrorKind`: those that the program names, and the others by a number.
pub data ErrorKind : Type 0 where
  would_block not_connected unexpected_eof other : ErrorKind
  kind_no : ℕ → ErrorKind

-- `io::Error`: of the operating system, and those that box an error of a monitor or of a registration.
pub data IoError : Type 0 where
  raw : ErrorKind → ℕ → IoError
  monitor_aborted recv_failed : IoError
  monitor_failed : IoError → IoError

unfoldable pub kind : IoError → ErrorKind
kind (raw k code) = k
kind monitor_aborted = other
kind recv_failed = other
kind (monitor_failed e) = other

-- `e.kind() == io::ErrorKind::WouldBlock`
unfoldable pub is_would_block : ErrorKind → Bool
is_would_block would_block = true
is_would_block not_connected = false
is_would_block unexpected_eof = false
is_would_block other = false
is_would_block (kind_no k) = false

unfoldable pub is_not_connected : ErrorKind → Bool
is_not_connected would_block = false
is_not_connected not_connected = true
is_not_connected unexpected_eof = false
is_not_connected other = false
is_not_connected (kind_no k) = false

-- `into_io_error`, at the two types of errors that reach it.
unfoldable pub into_io_error : MonitorError IoError → IoError
into_io_error aborted = monitor_aborted
into_io_error (failed e) = monitor_failed e

unfoldable pub into_io_error_recv : RecvError → IoError
into_io_error_recv e = recv_failed

-- `World` is all that a call can change: the poller, the fiber, the operating system. `Handle` is an
-- `Arc<EventedHandle>`, `Reg` a `Register`, `Mon` a `Monitor`. `register` gives `none` outside of a
-- fiber, where no poller is at hand.
pub record Reactor : Type 1 where
  pub World : Type 0
  pub Socket : Type 0
  pub Handle : Type 0
  pub Reg : Type 0
  pub Mon : Type 0
  pub register : Socket → World → Option (Reg × World)
  pub poll_register : Reg → World → Poll Handle RecvError × Reg × World
  pub monitor : Handle → Interest → World → Mon × World
  pub poll_monitor : Mon → World → Poll (Unit {0}) (MonitorError IoError) × Mon × World
