-- ===== src/Poll/Poller.antt =====
-- src/io/poll/poller.rs: `Poller`, its requests, its timeouts and its events.
pub mod Waiting
pub mod Requests
pub mod Events
pub mod Whole
use fibers_rs.Prelude.{
  ℕ, ◌+◌, ◌-◌, Bool, true, false, not, ◌&&◌, ◌||◌, Option, none, some, List, [], ◌∷◌, ◌++◌, map,
  length, leb, ltb, ◌==◌, if◌then◌else◌,
}
use fibers_rs.Prelude.HashMap.{HashMap, get, insert, remove, contains_key, len}
use fibers_rs.Prelude.Usize.{free_id}
use fibers_rs.Prelude.Results.{Result, ok, err, Fault, panic, diverges}
use fibers_rs.Collections.Tree.{Ord, SplayMap}
use fibers_rs.Collections.ListMap.{key_ord}
use fibers_rs.Collections.{HeapMap, push_if_absent, remove_key, peek, heap_len}
use fibers_rs.Collections.Drain.{drain}
use fibers_rs.Poll.Mio.{Mio, Ready, Event}

pub data Interest : Type 0 where
  read write : Interest

-- The sides that wait (`W`, a `Monitored`) and those that answer (`R`) are named by values. The
-- evented object is named by a number.
pub record Registrant (W : Type 0) : Type 0 where
  pub is_first : Bool
  pub evented : ℕ
  pub read_waitings : List W
  pub write_waitings : List W

pub data Request (W R : Type 0) : Type 0 where
  register : ℕ → R → Request W R
  deregister : ℕ → Request W R
  monitor : ℕ → Interest → W → Request W R
  set_timeout : ℕ → ℕ → R → Request W R
  cancel_timeout : ℕ → ℕ → Request W R

-- What the poller does to others: an answer to `Register` with a token, a message to a timeout that
-- has expired, a notification of a fiber that waits for an event.
pub data Effect (W R : Type 0) : Type 0 where
  replied : R → ℕ → Effect W R
  expired : R → Effect W R
  exited : W → Effect W R

-- A call panics, never ends, or fails with an error of the operating system.
pub data Fail (IoError : Type 0) : Type 0 where
  fault : Fault → Fail IoError
  io : IoError → Fail IoError

abbrev pub is_empty {ℓ} : {A : Type ℓ} → List A → Bool
is_empty [] = true
is_empty (x ∷ xs) = false

module _ {W : Type 0} where
  -- `Registrant::new`
  unfoldable pub new_registrant : ℕ → Registrant W
  new_registrant evented = record {
    is_first = true;
    evented = evented;
    read_waitings = [];
    write_waitings = [];
  }

  unfoldable pub mio_interest : Registrant W → Ready
  mio_interest r = record {
    readable = not (is_empty r.read_waitings);
    writable = not (is_empty r.write_waitings);
  }

  -- `r.read_waitings.push(notifier)` or `r.write_waitings.push(notifier)`
  unfoldable pub add_waiting : Registrant W → Interest → W → Registrant W
  add_waiting r read w = record r { read_waitings = r.read_waitings ++ w ∷ [] }
  add_waiting r write w = record r { write_waitings = r.write_waitings ++ w ∷ [] }

  -- The registrant without the waiting sides that an event notifies.
  unfoldable pub without_notified : Registrant W → Ready → Registrant W
  without_notified r i = record r {
    read_waitings = if i.readable then [] else r.read_waitings;
    write_waitings = if i.writable then [] else r.write_waitings;
  }

  unfoldable pub notified : Registrant W → Ready → List W
  notified r i =
      (if i.readable then r.read_waitings else []) ++ (if i.writable then r.write_waitings else [])

-- `interest != mio::Ready::empty()`
abbrev pub is_wanted : Ready → Bool
is_wanted i = i.readable || i.writable

abbrev pub lift : {E : Type 0} → Result (Unit {0}) E → Result (Unit {0}) (Fail E)
lift (ok u) = ok tt
lift (err e) = err (io e)

-- `requests` is the content of the channel of `request_tx` and `request_rx`, and `effects` what the
-- poller has done so far. `P` is the type of mio's poller, `H` that of the tree of timeouts.
pub record Poller (W R P H : Type 0) : Type 0 where
  pub os_poll : P
  pub requests : List (Request W R)
  pub next_token : ℕ
  pub registrants : HashMap (Registrant W)
  pub timeout_queue : HeapMap H
  pub effects : List (Effect W R)

module _ {W R IoError : Type 0} (M : Mio IoError) (S : SplayMap (ℕ × ℕ) R key_ord) where
  -- `mio_register`
  unfoldable pub mio_register :
      M.Poll → ℕ → Registrant W → Result (Unit {0}) IoError × M.Poll × Registrant W
  mio_register p token r =
      if is_wanted (mio_interest r)
      then if r.is_first
        then (let (x, p') = M.register p r.evented token (mio_interest r) in
            (x, p', record r { is_first = false }))
        else (let (x, p') = M.reregister p r.evented token (mio_interest r) in (x, p', r))
      else (ok tt, p, r)

  -- A registrant through `mio_register`, and back into the map.
  unfoldable pub register_again :
      Poller W R M.Poll S.Map
      → ℕ
      → Registrant W
      → Result (Unit {0}) (Fail IoError) × Poller W R M.Poll S.Map
  unfolding mio_register
  register_again p token r =
      let (x, p', r') = mio_register p.os_poll token r in
      (lift x, record p { os_poll = p'; registrants = insert p.registrants token r' })

  -- `next_token`; the fuel is enough (`free_id_total`).
  unfoldable pub fresh_token : Poller W R M.Poll S.Map → Option (ℕ × ℕ)
  fresh_token p = free_id (len p.registrants + 1) (contains_key p.registrants) p.next_token

  unfoldable pub handle_request :
      Poller W R M.Poll S.Map
      → Request W R
      → Result (Unit {0}) (Fail IoError) × Poller W R M.Poll S.Map
  handle_request p (register evented reply) = elim (fresh_token p) [
    | none ↦ (err (fault diverges), p)
    | some (token, next) ↦ (
      ok tt,
      record p {
        next_token = next;
        registrants = insert p.registrants token (new_registrant evented);
        effects = p.effects ++ replied reply token ∷ [];
      },
    )
  ]
  handle_request p (deregister token) = elim (get p.registrants token) [
    | none ↦ (err (fault panic), p)
    | some r ↦
        let p1 = record p { registrants = remove p.registrants token } in
        if not r.is_first
        then (let (x, p') = M.deregister p.os_poll r.evented in
            (lift x, record p1 { os_poll = p' }))
        else (ok tt, p1)
  ]
  handle_request p (monitor token interest notifier) = elim (get p.registrants token) [
    | none ↦ (err (fault panic), p)
    | some r ↦
        let r' = add_waiting r interest notifier in
        if length r'.read_waitings == 1 || length r'.write_waitings == 1
        then register_again p token r'
        else (ok tt, record p { registrants = insert p.registrants token r' })
  ]
  handle_request p (set_timeout timeout_id expiry_time reply) =
      let (absent, h) = push_if_absent S p.timeout_queue (expiry_time, timeout_id) reply in
      (if absent then ok tt else err (fault panic), record p { timeout_queue = h })
  handle_request p (cancel_timeout timeout_id expiry_time) =
      let (found, h) = remove_key S p.timeout_queue (expiry_time, timeout_id) in
      (ok tt, record p { timeout_queue = h })

  -- The loop over expired timeouts; the fuel is enough (`drain_lem`).
  unfoldable pub expire :
      Poller W R M.Poll S.Map → ℕ → Result (Unit {0}) (Fail IoError) × Poller W R M.Poll S.Map
  expire p now =
      elim (drain S (heap_len S p.timeout_queue + 1) p.timeout_queue (λ k v. leb k.0 now)) [
        | none ↦ (err (fault diverges), p)
        | some (entries, h) ↦ (
          ok tt,
          record p {
            timeout_queue = h;
            effects = p.effects ++ map (λ (e : (ℕ × ℕ) × R). expired e.1) entries;
          },
        )
      ]

  -- The timeout for the operating system's poll; `k.0 - now` panics where it would be negative.
  unfoldable pub os_timeout :
      Poller W R M.Poll S.Map → ℕ → Bool → Option ℕ → Result (Option ℕ) Fault
  os_timeout p now did_something timeout =
      if did_something then ok (some 0) else elim (peek S p.timeout_queue) [
        | none ↦ ok timeout
        | some (k, v) ↦ if ltb k.0 now then err panic else elim timeout [
          | none ↦ ok (some (k.0 - now))
          | some t ↦ ok (some (if leb t (k.0 - now) then t else k.0 - now))
        ]
      ]

  -- The body of the loop over the events.
  unfoldable pub handle_event :
      Poller W R M.Poll S.Map → Event → Result (Unit {0}) (Fail IoError) × Poller W R M.Poll S.Map
  handle_event p e = elim (get p.registrants e.token) [
    | none ↦ (err (fault panic), p)
    | some r ↦
        register_again (record p { effects = p.effects ++ map exited (notified r e.readiness) })
          e.token (without_notified r e.readiness)
  ]

  unfoldable pub handle_events :
      Poller W R M.Poll S.Map
      → List Event
      → Result (Unit {0}) (Fail IoError) × Poller W R M.Poll S.Map
  handle_events p [] = (ok tt, p)
  handle_events p (e ∷ es) =
      let (r, p') = handle_event p e in
      let rest = handle_events p' es in elim r [ err x ↦ (err x, p') | ok u ↦ rest ]

  -- `poll` from the expiry of timeouts on.
  unfoldable pub poll_events :
      Poller W R M.Poll S.Map
      → ℕ
      → Bool
      → Option ℕ
      → Result (Unit {0}) (Fail IoError) × Poller W R M.Poll S.Map
  poll_events p now did_something timeout =
      let (r, p1) = expire p now in
      elim r [
        | err x ↦ (err x, p1)
        | ok u ↦ elim (os_timeout p1 now did_something timeout) [
          | err x ↦ (err (fault x), p1)
          | ok t ↦
              let (es, q) = M.poll p1.os_poll t in
              let p2 = record p1 { os_poll = q } in
              elim es [ err x ↦ (err (io x), p2) | ok events ↦ handle_events p2 events ]
        ]
      ]

  -- `Poller::poll`; `now` is what `Instant::now()` returns in it.
  unfoldable pub poll :
      Poller W R M.Poll S.Map
      → ℕ
      → Option ℕ
      → Result (Unit {0}) (Fail IoError) × Poller W R M.Poll S.Map
  poll p now timeout = elim p.requests [
    | [] ↦ poll_events p now false timeout
    | q ∷ rest ↦
        let (r, p1) = handle_request (record p { requests = rest }) q in
        elim r [ err x ↦ (err x, p1) | ok u ↦ poll_events p1 now true timeout ]
  ]
