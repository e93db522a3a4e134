-- ===== src/Sync/Oneshot/Steps.antt =====
-- The channel of src/sync/oneshot.rs among threads: the atomic steps of the receiver, which is not
-- dropped, and of the sender, in any order.
use fibers_rs.Prelude.{◌≡◌, Option, none, some, Bool, true, false, List, [], ◌∷◌, ◌++◌}
use fibers_rs.Prelude.Results.{ok, err, Poll, ready, not_ready}
use fibers_rs.Fiber.Schedule.{Machine}
use fibers_rs.Sync.Notifier.{Notifier, await_notification, notify}
use fibers_rs.Sync.Halves.{Channel}
use fibers_rs.Sync.Oneshot.{Nb, RecvError, channel, first_try, second_try, put_value, drop_tx}
use fibers_rs.Sync.Oneshot.Cell.{
  Action, gives, takes, breaks, sees_broken, sees_nothing, internal, Cell, cell_of,
}

-- Where the receiver is: outside `poll`, before and after `await_notification`, outside `poll` with a
-- last result that was not ready, and done.
pub data Receiving : Type 0 where
  idle arming armed waiting finished : Receiving

-- Where the sender is: alive, between the value and the notification, between the notification and the
-- drop of its `inner`, and gone.
pub data Sending : Type 0 where
  alive notifying dropping gone : Sending

abbrev pub outside : Receiving → Bool
outside idle = true
outside arming = false
outside armed = false
outside waiting = true
outside finished = false

abbrev pub after_poll : {T : Type 0} → Poll T RecvError → Receiving
after_poll (ok (ready t)) = finished
after_poll (ok not_ready) = waiting
after_poll (err e) = finished

abbrev pub got : {T : Type 0} → Poll T RecvError → Option T
got (ok (ready t)) = some t
got (ok not_ready) = none
got (err e) = none

abbrev pub seen : {T : Type 0} → Poll T RecvError → Action T
seen (ok (ready t)) = takes t
seen (ok not_ready) = sees_nothing
seen (err e) = sees_broken

pub record System (C T F : Type 0) : Type 0 where
  pub chan : Channel C
  pub machine : Machine F
  pub receiver : Receiving
  pub sender : Sending
  pub received : Option T

module _ {T F : Type 0} (N : Nb T) where
  pub data Step : System N.Chan T F → System N.Chan T F → Type 0 where
    -- `poll` with a result at once, and without.
    receives :
        (s : System N.Chan T F) (ch : Channel N.Chan) (p : Poll T RecvError)
        → outside s.receiver ≡ true
        → first_try N s.chan ≡ (some p, ch)
        → Step s (record s { chan = ch; receiver = after_poll p; received = got p })
    begins :
        (s : System N.Chan T F) (ch : Channel N.Chan)
        → outside s.receiver ≡ true
        → first_try N s.chan ≡ (none, ch)
        → Step s (record s { chan = ch; receiver = arming })
    awaits :
        (s : System N.Chan T F) (n : Notifier) (m : Machine F)
        → s.receiver ≡ arming
        → await_notification s.chan.notifier s.machine ≡ ok (some (n, m))
        → Step s
            (record s { chan = record (s.chan) { notifier = n }; machine = m; receiver = armed })
    retries :
        (s : System N.Chan T F) (ch : Channel N.Chan) (p : Poll T RecvError)
        → s.receiver ≡ armed
        → second_try N s.chan ≡ (p, ch)
        → Step s (record s { chan = ch; receiver = after_poll p; received = got p })
    -- The halves of `send`.
    puts :
        (s : System N.Chan T F) (ch : Channel N.Chan) (t : T)
        → s.sender ≡ alive
        → put_value N s.chan t ≡ (ok tt, ch)
        → Step s (record s { chan = ch; sender = notifying })
    notifies :
        (s : System N.Chan T F) (n : Notifier) (m : Machine F)
        → s.sender ≡ notifying
        → notify s.chan.notifier s.machine ≡ ok (some (n, m))
        → Step s (record s { chan = record (s.chan) { notifier = n }; machine = m; sender = gone })
    -- The halves of the drop of a sender that has sent nothing.
    begins_drop :
        (s : System N.Chan T F) (n : Notifier) (m : Machine F)
        → s.sender ≡ alive
        → notify s.chan.notifier s.machine ≡ ok (some (n, m))
        → Step s
            (record s { chan = record (s.chan) { notifier = n }; machine = m; sender = dropping })
    ends_drop :
        (s : System N.Chan T F)
        → s.sender ≡ dropping
        → Step s (record s { chan = drop_tx N s.chan; sender = gone })
    -- Anything else that happens to the scheduler.
    moves : (s : System N.Chan T F) (m : Machine F) → Step s (record s { machine = m })

  abbrev pub initial : Machine F → System N.Chan T F
  initial m = record {
    chan = channel N;
    machine = m;
    receiver = idle;
    sender = alive;
    received = none;
  }

  pub data Reach (m : Machine F) : System N.Chan T F → Type 0 where
    start : Reach m (initial m)
    later : {s s' : System N.Chan T F} → Reach m s → Step s s' → Reach m s'

  abbrev pub action : {s s' : System N.Chan T F} → Step s s' → Action T
  action (receives s ch p o e) = seen p
  action (begins s ch o e) = sees_nothing
  action (awaits s n m o e) = internal
  action (retries s ch p o e) = seen p
  action (puts s ch t l e) = gives t
  action (notifies s n m l e) = internal
  action (begins_drop s n m l e) = internal
  action (ends_drop s l) = breaks
  action (moves s m) = internal

  abbrev pub trace : {m : Machine F} {s : System N.Chan T F} → Reach m s → List (Action T)
  trace start = []
  trace (later r st) = trace r ++ action st ∷ []

  abbrev pub view : System N.Chan T F → Cell T
  view s = cell_of s.received (N.value s.chan.inner) (N.has_sender s.chan.inner)
