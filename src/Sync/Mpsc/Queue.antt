-- ===== src/Sync/Mpsc/Queue.antt =====
-- What the channel of src/sync/mpsc.rs promises: a queue of messages and a number of senders, and what
-- the two sides may observe. The steps of src/sync/mpsc.rs are labelled with it.
use fibers_rs.Prelude.{ℕ, ◌+◌, ◌<◌, ◌≡◌, Option, none, some, List, [], ◌∷◌, ◌++◌}
use fibers_rs.Prelude.Results.{ok, err, Poll, ready, not_ready}
use fibers_rs.Fiber.Schedule.{Machine}
use fibers_rs.Sync.Nbchan.{Mpsc}
use fibers_rs.Sync.Mpsc.Steps.{
  System, Step, receives, begins, awaits, retries, puts, notifies, clones, begins_drop, ends_drop,
  moves, Reach, start, later,
}

-- `sees_end` is the end of the stream, `sees_nothing` that there is no message yet, `internal` what
-- neither side sees.
pub data Action (T : Type 0) : Type 0 where
  sends takes : T → Action T
  sees_end sees_nothing adds_sender loses_sender internal fails : Action T

pub record Queue (T : Type 0) : Type 0 where
  pub messages : List T
  pub senders : ℕ

pub data Does {T : Type 0} : Action T → Queue T → Queue T → Type 0 where
  send :
      (q : Queue T) (t : T)
      → 0 < q.senders
      → Does (sends t) q (record q { messages = q.messages ++ t ∷ [] })
  take :
      (q : Queue T) (t : T) (rest : List T)
      → q.messages ≡ t ∷ rest
      → Does (takes t) q (record q { messages = rest })
  end : (q : Queue T) → q.messages ≡ [] → q.senders ≡ 0 → Does sees_end q q
  wait : (q : Queue T) → q.messages ≡ [] → 0 < q.senders → Does sees_nothing q q
  add : (q : Queue T) → 0 < q.senders → Does adds_sender q (record q { senders = q.senders + 1 })
  lose : (q : Queue T) (n : ℕ) → q.senders ≡ n + 1 → Does loses_sender q (record q { senders = n })
  silent : (q : Queue T) → Does internal q q

pub data Runs {T : Type 0} : List (Action T) → Queue T → Type 0 where
  new : Runs [] (record { messages = []; senders = 1 })
  next :
      {l : List (Action T)} {a : Action T} {q r : Queue T}
      → Runs l q
      → Does a q r
      → Runs (l ++ a ∷ []) r

abbrev pub seen : {T : Type 0} → Poll (Option T) (Unit {0}) → Action T
seen (ok (ready (some t))) = takes t
seen (ok (ready none)) = sees_end
seen (ok not_ready) = sees_nothing
seen (err e) = fails

abbrev pub view : {T : Type 0} (N : Mpsc T) → N.Chan → Queue T
view N c = record { messages = N.queue c; senders = N.senders c }

module _ {T F : Type 0} (N : Mpsc T) where
  abbrev pub action : {s s' : System N.Chan T F} → Step N s s' → Action T
  action (receives s ch p o e) = seen p
  action (begins s ch o e) = sees_nothing
  action (awaits s n m o e) = internal
  action (retries s ch p o e) = seen p
  action (puts s ch t l e) = sends t
  action (notifies s n m k q e) = internal
  action (clones s l) = adds_sender
  action (begins_drop s n m l e) = internal
  action (ends_drop s k q) = loses_sender
  action (moves s m) = internal

  abbrev pub trace : {m : Machine F} {s : System N.Chan T F} → Reach N m s → List (Action T)
  trace start = []
  trace (later r st) = trace r ++ action st ∷ []
