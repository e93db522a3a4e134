-- ===== src/Poll/Handles/Tests.antt =====
-- Handles of a small poller (src/io/poll/poller.rs), and the theorems about them at concrete inputs.
use fibers_rs.Prelude.{ℕ, ◌≡◌, refl, none, [], ◌∷◌, arith}
use fibers_rs.Prelude.HashMap.{get, contains_key, insert, remove, len}
use fibers_rs.Prelude.Usize.{free_id}
use fibers_rs.Collections.Tree.{SplayMap}
use fibers_rs.Collections.{heap_len, pop_if}
use fibers_rs.Collections.Drain.{drain}
use fibers_rs.Collections.ListMap.{key_ord, list_map, size, smallest}
use fibers_rs.Poll.ListMio.{list_mio}
use fibers_rs.Poll.Poller as Pollers
use fibers_rs.Poll.Poller.{Poller, read, handle_request, fresh_token, new_registrant, io}
use fibers_rs.Poll.Handles.{Polling, register, new_handle, monitor, drop_handle, set_timeout, send}
use fibers_rs.Poll.Handles.Serving.{Reach, new, later, registers, replies, monitors, drops, sets}
use fibers_rs.Poll.Poller.Events.{Handled}
use fibers_rs.Poll.Handles.Running as Running
use fibers_rs.Poll.Handles.Running.{new_poller}
use fibers_rs.Poll.Handles.Running.Forever.{Reach-poll}

abbrev timeouts : SplayMap (ℕ × ℕ) ℕ key_ord
timeouts = list_map (ℕ × ℕ) ℕ key_ord

abbrev fresh : Polling ℕ ℕ list_mio.Poll timeouts.Map
fresh = record {
  poller = record {
    os_poll = [];
    requests = [];
    next_token = 0;
    registrants = [];
    timeout_queue = record { inner = timeouts.new };
    effects = [];
  };
  next_timeout_id = 0;
  handles = [];
}

record Reached : Type 0 where
  world : Polling ℕ ℕ list_mio.Poll timeouts.Map
  reach : Reach list_mio timeouts world

-- Object 5 is registered, its handle asks for an event and is dropped, and a timeout is set.
busy : Reached
unfolding register new_handle monitor send handle_request fresh_token free_id contains_key get
    insert remove len new_registrant drop_handle set_timeout
busy = record {
  world = _;
  reach =
      later
        (later
          (later
            (later (later (new fresh refl refl timeouts.get-new) (registers _ 5 70))
              (replies _ 5 0 1 70 [] refl refl))
            (monitors _ 0 read 31 (omega arith)))
          (drops _ 0 [] [] refl))
        (sets _ 3 4 71 (omega arith));
}

busy_requests :
    busy.world.poller.requests
    ≡ Pollers.monitor 0 read 31 ∷ Pollers.deregister 0 ∷ Pollers.set_timeout 0 7 71 ∷ []
unfolding busy
busy_requests = refl

-- The same from a new poller on: object 5 is registered, `poll` makes its handle, and the handle asks
-- for an event.
record Served : Type 0 where
  world : Polling ℕ ℕ list_mio.Poll timeouts.Map
  reach : Running.Reach list_mio timeouts world

asked : Served
unfolding new_poller register monitor send Pollers.poll handle_request fresh_token free_id
    contains_key get insert remove len new_registrant Pollers.poll_events Pollers.expire
    Pollers.os_timeout Pollers.handle_events drain heap_len size pop_if smallest
asked = record {
  world = _;
  reach =
      Running.later
        (Running.later
          (Running.later (Running.new [] fresh.poller (λ e. refl) refl)
            (Running.registers fresh 5 70 (λ t r e q. ground (arith, e)) tt))
          (Running.polled (register fresh 5 70) 3 none (omega arith) refl))
        (Running.monitors _ 0 read 31 (omega arith));
}

Reach-poll_example :
    Handled list_mio timeouts (Pollers.poll list_mio timeouts asked.world.poller 4 none)
unfolding asked len
Reach-poll_example = Reach-poll list_mio timeouts asked.reach 4 none (omega arith)
