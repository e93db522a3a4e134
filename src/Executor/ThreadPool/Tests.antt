-- ===== src/Executor/ThreadPool/Tests.antt =====
-- Threads of a small pool (src/executor/thread_pool.rs), and the theorems about them at concrete inputs.
use fibers_rs.Prelude.{ℕ, true, []}
use fibers_rs.Prelude.Results.{Result, ok, ready}
use fibers_rs.Collections.Tree.{SplayMap}
use fibers_rs.Collections.ListMap.{key_ord, list_map}
use fibers_rs.Fiber.State.{Run, returns}
use fibers_rs.Fiber.Schedule.{start}
use fibers_rs.Poll.Handle.{PollerHandle}
use fibers_rs.Poll.ListMio.{list_mio}
use fibers_rs.Poll.Poller.{Poller}
use fibers_rs.Poll.Handles.{Polling}
use fibers_rs.Poll.Handles as Handles
use fibers_rs.Poll.Handles.Running.{new}
use fibers_rs.Sync.CellChan.{cell_chan}
use fibers_rs.Sync.Oneshot.{Nb}
use fibers_rs.Sync.Oneshot.Links.{link}
use fibers_rs.SyncAtomic
use fibers_rs.Executor.ThreadPool.Threads.{PollerThread, SchedulerThread}

abbrev timeouts : SplayMap (ℕ × ℕ) ℕ key_ord
timeouts = list_map (ℕ × ℕ) ℕ key_ord

abbrev cells : Nb (Result (Unit {0}) ℕ)
cells = cell_chan (Result (Unit {0}) ℕ)

-- A new poller, to which somebody has sent object 5.
abbrev fresh : Polling ℕ ℕ list_mio.Poll timeouts.Map
fresh = record {
  poller = record {
    os_poll = [];
    requests = [];
    next_token = 0;
    registrants = [];
    timeout_queue = record { inner = timeouts.new };
    effects = [];
  };
  next_timeout_id = 0;
  handles = [];
}

abbrev alive : PollerHandle
alive = record { is_alive = true }

abbrev poller_thread : PollerThread ℕ cells.Chan (Poller ℕ ℕ list_mio.Poll timeouts.Map)
poller_thread = record {
  link1 = (link cells cells).1;
  machine = start 7 alive;
  poller = (Handles.register fresh 5 70).poller;
}

-- Every fiber is done at once.
abbrev poll_fiber : ℕ → Run ℕ
poll_fiber n = returns (ok (ready tt)) n

abbrev scheduler_thread : SchedulerThread ℕ cells.Chan
scheduler_thread = record { link1 = (link cells cells).1; scheduler = start 7 alive }
