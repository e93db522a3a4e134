-- ===== src/Sync/Mpsc/Steps.antt =====
-- The channel of src/sync/mpsc.rs among threads: the atomic steps of one receiver and of any number
-- of senders, in any order. A call of the notifier is one step: it holds the borrow of the cell.
use fibers_rs.Prelude.{ℕ, ◌+◌, ◌<◌, ◌≡◌, Option, none, some, List, [], ◌∷◌, ◌++◌, Bool, true, false}
use fibers_rs.Prelude.Results.{ok, err, Poll, ready, not_ready}
use fibers_rs.Fiber.Schedule.{Machine}
use fibers_rs.Sync.Nbchan.{Mpsc}
use fibers_rs.Sync.Notifier.{Notifier, await_notification, notify}
use fibers_rs.Sync.Halves.{Channel}
use fibers_rs.Sync.Mpsc.{first_recv, second_recv, put, drop_inner, clone_sender, channel}

-- Where the receiver is: outside `poll`, before and after `await_notification`, and outside `poll`
-- with a last result that was not ready.
pub data Phase : Type 0 where
  idle arming armed waiting : Phase

abbrev pub outside : Phase → Bool
outside idle = true
outside arming = false
outside armed = false
outside waiting = true

abbrev pub message : {T : Type 0} → Poll (Option T) (Unit {0}) → List T
message (ok (ready (some t))) = t ∷ []
message (ok (ready none)) = []
message (ok not_ready) = []
message (err e) = []

abbrev pub phase_after : {T : Type 0} → Poll (Option T) (Unit {0}) → Phase
phase_after (ok (ready r)) = idle
phase_after (ok not_ready) = waiting
phase_after (err e) = idle

-- `notifying` counts the calls of `send` between their two halves, `dropping` the drops of a sender
-- between theirs; `sent` and `received` list all messages so far.
pub record System (C T F : Type 0) : Type 0 where
  pub chan : Channel C
  pub machine : Machine F
  pub phase : Phase
  pub notifying : ℕ
  pub dropping : ℕ
  pub sent : List T
  pub received : List T

module _ {T F : Type 0} (N : Mpsc T) where
  pub data Step : System N.Chan T F → System N.Chan T F → Type 0 where
    -- `poll` with a result at once, and without.
    receives :
        (s : System N.Chan T F) (ch : Channel N.Chan) (p : Poll (Option T) (Unit {0}))
        → outside s.phase ≡ true
        → first_recv N s.chan ≡ (some p, ch)
        → Step s (record s { chan = ch; phase = phase_after p; received = s.received ++ message p })
    begins :
        (s : System N.Chan T F) (ch : Channel N.Chan)
        → outside s.phase ≡ true
        → first_recv N s.chan ≡ (none, ch)
        → Step s (record s { chan = ch; phase = arming })
    awaits :
        (s : System N.Chan T F) (n : Notifier) (m : Machine F)
        → s.phase ≡ arming
        → await_notification s.chan.notifier s.machine ≡ ok (some (n, m))
        → Step s (record s { chan = record (s.chan) { notifier = n }; machine = m; phase = armed })
    retries :
        (s : System N.Chan T F) (ch : Channel N.Chan) (p : Poll (Option T) (Unit {0}))
        → s.phase ≡ armed
        → second_recv N s.chan ≡ (p, ch)
        → Step s (record s { chan = ch; phase = phase_after p; received = s.received ++ message p })
    -- The halves of `send`, by a sender that is not being dropped.
    puts :
        (s : System N.Chan T F) (ch : Channel N.Chan) (t : T)
        → s.dropping < N.senders s.chan.inner
        → put N s.chan t ≡ (ok tt, ch)
        → Step s (record s { chan = ch; notifying = s.notifying + 1; sent = s.sent ++ t ∷ [] })
    notifies :
        (s : System N.Chan T F) (n : Notifier) (m : Machine F) (k : ℕ)
        → s.notifying ≡ k + 1
        → notify s.chan.notifier s.machine ≡ ok (some (n, m))
        → Step s (record s { chan = record (s.chan) { notifier = n }; machine = m; notifying = k })
    clones :
        (s : System N.Chan T F)
        → s.dropping < N.senders s.chan.inner
        → Step s (record s { chan = clone_sender N s.chan })
    -- The halves of the drop of a sender.
    begins_drop :
        (s : System N.Chan T F) (n : Notifier) (m : Machine F)
        → s.dropping < N.senders s.chan.inner
        → notify s.chan.notifier s.machine ≡ ok (some (n, m))
        → Step s (record s {
          chan = record (s.chan) { notifier = n };
          machine = m;
          dropping = s.dropping + 1;
        })
    ends_drop :
        (s : System N.Chan T F) (k : ℕ)
        → s.dropping ≡ k + 1
        → Step s (record s { chan = drop_inner N s.chan; dropping = k })
    -- Anything else that happens to the scheduler.
    moves : (s : System N.Chan T F) (m : Machine F) → Step s (record s { machine = m })

  abbrev pub initial : Machine F → System N.Chan T F
  initial m = record {
    chan = channel N;
    machine = m;
    phase = idle;
    notifying = 0;
    dropping = 0;
    sent = [];
    received = [];
  }

  pub data Reach (m : Machine F) : System N.Chan T F → Type 0 where
    start : Reach m (initial m)
    later : {s s' : System N.Chan T F} → Reach m s → Step s s' → Reach m s'

  abbrev pub queue : System N.Chan T F → List T
  queue s = N.queue s.chan.inner
