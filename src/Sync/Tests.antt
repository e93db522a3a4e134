-- ===== src/Sync/Tests.antt =====
-- src/sync: a fiber that waits for a notification, and another thread that gives it.
mod Monitors
mod Values
mod Linked
use fibers_rs.Prelude.{ℕ, ◌<◌, ◌≡◌, refl, ◌⊎◌, true, false, none, some, [], ◌∷◌, ◌++◌, ◌≢◌, arith}
use fibers_rs.Prelude.HashMap.{get, insert, contains_key, len}
use fibers_rs.Prelude.Usize.{free_id}
use fibers_rs.Prelude.Results.{ok, not_ready}
use fibers_rs.Poll.Handle.{PollerHandle}
use fibers_rs.Fiber.State.{FiberState, Unpark, Run, returns, park, new_state}
use fibers_rs.Fiber.Schedule.{
  spawn, Machine, CurrentScheduler, start, new_scheduler, new_context, handle_request, spawn_fiber,
  next_fiber_id, schedule, next_runnable, pop_runnable, send,
}
use fibers_rs.Fiber.Context.{
  begin_fiber, call, park_current, as_context, switch_context, cancel_park, poller_is_alive,
  no_fiber, is_runnable, take_held,
}
use fibers_rs.Fiber.Invariant.{pending, is_fiber}
use fibers_rs.Fiber.Threads.{
  World, machine, Reach, new, later, receives, starts, calls, asks, Reach-IsSafe,
}
use fibers_rs.Sync.Notifier.{Notifier, new_notifier, await_notification, notify, notify_lem}
use fibers_rs.SyncAtomic.{try_borrow_mut, drop_borrow, swap, AtomicCell}
use fibers_rs.SyncAtomic
use fibers_rs.Sync.Notifier.{borrow_round, awaited, notified}
use fibers_rs.Fiber.Context.{current_context_id}
use fibers_rs.Sync.Nbchan.{Mpsc}
use fibers_rs.Sync.ListChan
use fibers_rs.Sync.ListChan.{list_chan, try_recv}
use fibers_rs.Sync.Mpsc as Channels
use fibers_rs.Sync.Halves.{Channel}
use fibers_rs.Sync.Mpsc.{channel, first_recv, second_recv, put, drop_inner, poll_result}
use fibers_rs.Sync.Mpsc.Receiving.{Polled, poll_lem, send_lem}
use fibers_rs.Sync.Mpsc.Steps
use fibers_rs.Sync.Mpsc.Steps.{
  System, begins, awaits, retries, puts, begins_drop, ends_drop, waiting, queue,
}
use fibers_rs.Sync.Mpsc.Queue.{Runs, sends, sees_nothing, internal}
use fibers_rs.Sync.Mpsc.Refined.{Reach-Runs}
use fibers_rs.Sync.Mpsc.Order.{first_in_first_out, no_lost_message}
use fibers_rs.Prelude.Results.{Result, err, ready}
use fibers_rs.Sync.Oneshot
use fibers_rs.Sync.Oneshot.{Nb, exit, poll_monitor, monitored, aborted}
use fibers_rs.Sync.Oneshot.Monitoring.{
  Monitoring, poll_monitor_lem, exit-poll_monitor, drop_sender-poll_monitor,
}
use fibers_rs.Sync.CellChan.{cell_chan}

abbrev pub poll : ℕ → Run ℕ
poll n = park (λ u. returns (ok not_ready) n)

abbrev pub alive : PollerHandle
alive = record { is_alive = true }

pub record Reached : Type 0 where
  world : World ℕ
  reach : Reach poll 7 alive world

-- The first `poll` of fiber 0 has begun.
pub polling_world : Reached
unfolding start new_scheduler new_context send handle_request spawn_fiber next_fiber_id free_id len
    get contains_key insert schedule new_state next_runnable pop_runnable begin_fiber switch_context
    poller_is_alive no_fiber cancel_park
polling_world = record {
  world = _;
  reach =
      later (later (later new (asks _ (spawn 0))) (receives _ _ _ _ refl (omega arith) refl))
        (starts _ _ _ _ _ refl refl);
}

-- It has parked.
pub parked_world : Reached
unfolding polling_world call park_current as_context get insert
parked_world = record { world = _; reach = later polling_world.reach (calls _ _ _ _ _ refl) }

abbrev pub current7 : CurrentScheduler
current7 = record { id = 7; poller = alive }

abbrev pub waiter0 : Unpark
waiter0 = record { fiber_id = 0; unparks = 0; scheduler_id = 7 }

-- Fiber 0 as it waits.
abbrev pub fiber0 : FiberState ℕ
fiber0 = record { fiber_id = 0; task = 0; parks = 1; unparks = 0; in_run_queue = false }

notify_lem_example :
    (n : Notifier) × (m : Machine ℕ) × (notify
        (record { unpark = record { inner = some (some waiter0) } })
        (machine parked_world.world)
      ≡ ok (some (n, m)))
    × (n.unpark.inner ≡ some none)
    × (get m.fibers 0 ≡ some fiber0)
    × (is_runnable m fiber0 ≡ true)
    × ((is_fiber (machine parked_world.world).context.fiber 0 ≡ true)
        ⊎ (fiber0.in_run_queue ≡ true)
        ⊎ (0 < pending m 0))
unfolding parked_world take_held get
notify_lem_example =
    notify_lem (record { unpark = record { inner = some (some waiter0) } })
      (machine parked_world.world) waiter0 [] 0 fiber0 refl refl refl refl
      (Reach-IsSafe poll parked_world.reach).0

abbrev chan : Mpsc ℕ
chan = list_chan ℕ

poll_lem_example :
    Polled chan
      (channel chan)
      (machine polling_world.world)
      current7
      0
      (Channels.poll chan (channel chan) (machine polling_world.world))
unfolding polling_world as_context get channel new_notifier
poll_lem_example =
    poll_lem chan (channel chan) (machine polling_world.world) none current7 0 _ refl refl refl
      (Reach-IsSafe poll polling_world.reach).0

-- Fiber 0 waits at an empty channel.
abbrev awaited0 : Channel chan.Chan
awaited0 = record {
  inner = chan.new;
  notifier = record { unpark = record { inner = some (some waiter0) } };
}

record ReachedChannel : Type 0 where
  system : System chan.Chan ℕ ℕ
  reach : Steps.Reach chan (machine polling_world.world) system

-- The receiver is not ready, and then a sender has put a message and not yet notified.
late_send : ReachedChannel
unfolding polling_world parked_world channel first_recv second_recv put await_notification
    borrow_round awaited current_context_id park_current as_context get insert new_notifier
    try_borrow_mut drop_borrow try_recv ListChan.send poll_result SyncAtomic.new swap
late_send = record {
  system = _;
  reach =
      Steps.later
        (Steps.later
          (Steps.later (Steps.later Steps.start (begins _ _ refl refl)) (awaits _ _ _ refl refl))
          (retries _ _ _ refl refl))
        (puts _ _ 5 (omega arith) refl);
}

first_in_first_out_example : [] ++ queue chan late_send.system ≡ 5 ∷ []
unfolding late_send
first_in_first_out_example = first_in_first_out chan late_send.reach

late_send-queue : queue chan late_send.system ≢ []
unfolding late_send
late_send-queue e = ground (arith, e)

no_lost_message_example : 0 < late_send.system.notifying
unfolding late_send
no_lost_message_example = no_lost_message chan late_send.reach waiter0 refl refl late_send-queue

-- The drop of the only sender notifies; the receiver polls, is not ready and leaves its `Unpark`; then
-- the inner sender is dropped.
dropped_sender : ReachedChannel
unfolding polling_world parked_world channel first_recv second_recv drop_inner await_notification
    borrow_round awaited notify notified current_context_id park_current as_context get insert
    new_notifier try_borrow_mut drop_borrow try_recv poll_result SyncAtomic.new swap
dropped_sender = record {
  system = _;
  reach =
      Steps.later
        (Steps.later
          (Steps.later
            (Steps.later (Steps.later Steps.start (begins_drop _ _ _ (omega arith) refl))
              (begins _ _ refl refl))
            (awaits _ _ _ refl refl))
          (retries _ _ _ refl refl))
        (ends_drop _ 0 refl);
}

-- No sender is left and none is about to notify, but the receiver waits on.
disconnect_unnoticed :
    (dropped_sender.system.phase ≡ waiting)
    × (dropped_sender.system.chan.notifier.unpark.inner ≡ some (some waiter0))
    × (chan.senders dropped_sender.system.chan.inner ≡ 0)
    × (dropped_sender.system.notifying ≡ 0)
    × (dropped_sender.system.dropping ≡ 0)
unfolding dropped_sender
disconnect_unnoticed = (refl, refl, refl, refl, refl)

Reach-Runs_example :
    Runs {T = ℕ}
      (sees_nothing ∷ internal ∷ sees_nothing ∷ sends 5 ∷ [])
      (record { messages = 5 ∷ []; senders = 1 })
unfolding late_send
Reach-Runs_example = Reach-Runs chan late_send.reach
