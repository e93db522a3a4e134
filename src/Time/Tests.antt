-- ===== src/Time/Tests.antt =====
-- Timeouts of a small poller (src/time.rs), and the theorems about them at concrete inputs.
use fibers_rs.Prelude.{ℕ, ◌+◌, ◌≡◌, refl, true, false, none, [], ◌∷◌, arith}
use fibers_rs.Prelude.Results.{ok, err, Poll, ready, not_ready}
use fibers_rs.Collections.Tree.{SplayMap}
use fibers_rs.Collections.ListMap.{key_ord, list_map}
use fibers_rs.Poll.ListMio.{list_mio}
use fibers_rs.Poll.Handles as Handles
use fibers_rs.Poll.Handles.{Polling}
use fibers_rs.Poll.Poller.{Request, set_timeout, cancel_timeout}
use fibers_rs.Poll.Handles.Serving.{Reach, new, later, sets, cancels}
use fibers_rs.Time.{Oneshots, Moment, timeout, poll, poll_after}
use fibers_rs.Time.Polled.{Polled, poll-Polled, LeavesNothing, set_timeout-cancel}

abbrev timeouts : SplayMap (ℕ × ℕ) ℕ key_ord
timeouts = list_map (ℕ × ℕ) ℕ key_ord

-- Nobody has sent anything.
abbrev silent : Oneshots ℕ
silent = record {
  World = ℕ;
  Receiver = ℕ;
  channel = λ n. (n, n, n + 1);
  poll_receiver = λ rx n. (ok not_ready, rx, n);
}

abbrev fresh : Polling ℕ ℕ list_mio.Poll timeouts.Map
fresh = record {
  poller = record {
    os_poll = [];
    requests = [];
    next_token = 0;
    registrants = [];
    timeout_queue = record { inner = timeouts.new };
    effects = [];
  };
  next_timeout_id = 0;
  handles = [];
}

abbrev at_nine : Moment
at_nine = record { elapsed_at = 9; set_at = 10; in_fiber = true }

poll-Polled_example :
    Polled silent at_nine
      (timeout silent 4 20)
      fresh
      7
      (poll silent at_nine (timeout silent 4 20) fresh 7)
unfolding timeout
poll-Polled_example =
    poll-Polled silent at_nine (timeout silent 4 20) fresh 7 refl (omega arith) (omega arith)

-- A timeout has been set and dropped.
abbrev dropped : Polling ℕ ℕ list_mio.Poll timeouts.Map
dropped = record fresh {
  poller = record (fresh.poller) { requests = set_timeout 0 25 7 ∷ cancel_timeout 0 25 ∷ [] };
  next_timeout_id = 1;
}

dropped-Reach : Reach list_mio timeouts dropped
unfolding Handles.set_timeout Handles.cancel Handles.send
dropped-Reach =
    later (later (new fresh refl refl timeouts.get-new) (sets fresh 10 15 7 (omega arith)))
      (cancels (Handles.set_timeout fresh 10 15 7).1 (Handles.set_timeout fresh 10 15 7).0)

set_timeout-cancel_example :
    (a b : Request ℕ ℕ) × ((set_timeout 0 25 7 ∷ cancel_timeout 0 25 ∷ []) ≡ a ∷ b ∷ [])
    × LeavesNothing list_mio timeouts dropped.poller a b []
unfolding Handles.set_timeout Handles.cancel Handles.send
set_timeout-cancel_example =
    set_timeout-cancel list_mio timeouts fresh 10 15 7
      (set_timeout 0 25 7 ∷ cancel_timeout 0 25 ∷ []) [] refl dropped-Reach refl

abbrev in_time : Poll ℕ ℕ
in_time = ok (ready 3)

abbrev never : Poll ℕ ℕ
never = ok not_ready

-- The value of the future wins over a timeout that has passed.
ready_in_time :
    (poll_after silent
      (record { elapsed_at = 30; set_at = 30; in_fiber = false })
      in_time
      (timeout silent 4 20)
      fresh
      7).0
    ≡ ok (ready 3)
unfolding poll_after
ready_in_time = refl

-- A future that is never ready, with no time at all.
times_out :
    (poll_after silent
      (record { elapsed_at = 4; set_at = 4; in_fiber = false })
      never
      (timeout silent 4 0)
      fresh
      7).0
    ≡ err none
unfolding poll_after timeout poll
times_out = refl
