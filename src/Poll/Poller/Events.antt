-- ===== src/Poll/Poller/Events.antt =====
-- The timeouts and events of src/io/poll/poller.rs (`Poller::poll` after its request).
use fibers_rs.Prelude.{
  ℕ, ◌+◌, ◌-◌, ◌≡◌, refl, sym, ◌∙◌, subst, ap, ◌⊎◌, inl, inr, Bool, true, false, Option, some, List,
  [], ◌∷◌, ◌++◌, map, arith, ◌==◌, leb, if◌then◌else◌, Option-cases,
}
use fibers_rs.Prelude.HashMap.{get, get-insert, is_some}
use fibers_rs.Prelude.Results.{Result, ok, err}
use fibers_rs.Collections.Tree.{SplayMap}
use fibers_rs.Collections.ListMap.{key_ord}
use fibers_rs.Collections.{heap_len}
use fibers_rs.Collections.Laws.{find, peek_lem}
use fibers_rs.Collections.Drain.{drain, Drained, drain_lem}
use fibers_rs.Poll.Mio.{Mio, Event, has_event}
use fibers_rs.Poll.Poller.{
  Registrant, Poller, Fail, io, lift, mio_register, register_again, expire, os_timeout,
  handle_event, handle_events, without_notified, notified, poll_events, exited, expired,
}
use fibers_rs.Poll.Poller.Waiting.{IsArmed, register_again-IsArmed}
use fibers_rs.Poll.Poller.Requests.{none_exempt, unmoved-IsArmed}

-- `leb k.0 now`: the predicate of the loop over timeouts.
abbrev pub is_expired : {R : Type 0} → ℕ → ℕ × ℕ → R → Bool
is_expired now k v = leb k.0 now

has_event-tail :
    (e : Event) (es : List Event) (j : ℕ)
    → e.token == j ≡ false
    → has_event es j ≡ false
    → has_event (e ∷ es) j ≡ false
has_event-tail e es j a b = ground (arith, a, b)

pub lift_cases :
    {E : Type 0} (x : Result (Unit {0}) E) → (lift x ≡ ok tt) ⊎ ((e : E) × (lift x ≡ err (io e)))
lift_cases (ok u) = inl refl
lift_cases (err e) = inr (e, refl)

module _ {W R IoError : Type 0} (M : Mio IoError) (S : SplayMap (ℕ × ℕ) R key_ord) where
  -- What the loop over expired timeouts leaves.
  pub record Expired (p : Poller W R M.Poll S.Map) (now : ℕ)
      (x : Result (Unit {0}) (Fail IoError) × Poller W R M.Poll S.Map) : Type 0 where
    pub drained :
        Drained S p.timeout_queue
          (is_expired now)
          (drain S (heap_len S p.timeout_queue + 1) p.timeout_queue (is_expired now))
    pub result : x ≡ (
      ok tt,
      record p {
        timeout_queue = drained.left;
        effects = p.effects ++ map (λ (e : (ℕ × ℕ) × R). expired e.1) drained.taken;
      },
    )

  -- The loop over the timeouts ends, without a panic. It takes out all entries whose time has come, the
  -- earlier first, and only those, and sends to each of them, in that order; nothing else changes.
  pub expire_lem : (p : Poller W R M.Poll S.Map) (now : ℕ) → Expired p now (expire M S p now)
  unfolding expire
  expire_lem p now =
      let d =
        drain_lem S (is_expired now) (λ k j v w. ground arith) (heap_len S p.timeout_queue + 1)
          p.timeout_queue (omega arith) in
      record { drained = d; result = ground (arith, d.result) }

  -- After the loop, the time to the next timeout is not negative, and the call does not panic.
  os_timeout_lem :
      (p : Poller W R M.Poll S.Map) (now : ℕ) (did_something : Bool) (timeout : Option ℕ)
      → ((j : ℕ × ℕ) (w : R) → find S p.timeout_queue j ≡ some w → leb j.0 now ≡ false)
      → (t : Option ℕ) × (os_timeout M S p now did_something timeout ≡ ok t)
  unfolding os_timeout
  os_timeout_lem p now true timeout later = (some 0, refl)
  os_timeout_lem p now false timeout later = elim (peek_lem S p.timeout_queue) [
    | inl (e, none_left) ↦ (timeout, ground (arith, e))
    | inr (k, v, e, at_k, least) ↦ elim (Option-cases timeout) [
      | inl forever ↦ (some (k.0 - now), ground (arith, e, forever, later k v at_k))
      | inr (t, until) ↦ (
        some (if leb t (k.0 - now) then t else k.0 - now),
        ground (arith, e, until, later k v at_k),
      )
    ]
  ]

  -- Events that succeed leave everybody who waits armed; else the operating system has failed.
  pub data Handled (x : Result (Unit {0}) (Fail IoError) × Poller W R M.Poll S.Map) : Type 0 where
    done : x.0 ≡ ok tt → IsArmed M S none_exempt x.1 → Handled x
    failed : (e : IoError) → x.0 ≡ err (io e) → Handled x

  register_again-keys :
      (p : Poller W R M.Poll S.Map) (t j : ℕ) (r : Registrant W)
      → is_some (get p.registrants j) ≡ true
      → is_some (get (register_again M S p t r).1.registrants j) ≡ true
  unfolding register_again
  register_again-keys p t j r e =
      ground (arith, e, get-insert p.registrants t (mio_register M S p.os_poll t r).2 j)

  pub register_again-result :
      (p : Poller W R M.Poll S.Map) (t : ℕ) (r : Registrant W)
      → ((register_again M S p t r).0 ≡ ok tt)
        ⊎ ((e : IoError) × ((register_again M S p t r).0 ≡ err (io e)))
  unfolding register_again
  register_again-result p t r = lift_cases (mio_register M S p.os_poll t r).0

  handle_event-known :
      (p : Poller W R M.Poll S.Map) (e : Event) (r : Registrant W)
      → get p.registrants e.token ≡ some r
      → handle_event M S p e
        ≡ register_again M S
            (record p { effects = p.effects ++ map exited (notified r e.readiness) })
            e.token
            (without_notified r e.readiness)
  unfolding handle_event
  handle_event-known p e r at_t = ground (arith, at_t)

  pub handle_events_lem :
      (p : Poller W R M.Poll S.Map) (es : List Event)
      → ((t : ℕ) → has_event es t ≡ true → is_some (get p.registrants t) ≡ true)
      → IsArmed M S (has_event es) p
      → Handled (handle_events M S p es)
  unfolding handle_events without_notified
  handle_events_lem p [] there h = done refl h
  handle_events_lem p (e ∷ es) there h = elim (Option-cases (get p.registrants e.token)) [
    | inl gone ↦ absurd (ground (arith, gone, there e.token))
    | inr (r, at_t) ↦
        let q = record p { effects = p.effects ++ map exited (notified r e.readiness) } in
        let r' = without_notified r e.readiness in
        let is = handle_event-known p e r at_t in
        elim (register_again-result q e.token r') [
          | inl good ↦
              let next = (register_again M S q e.token r').1 in
              let h' =
                register_again-IsArmed M S (has_event (e ∷ es)) (has_event es) q e.token r r' at_t
                  refl refl (λ j a b. has_event-tail e es j a b) good
                  (record { armed = h.armed; apart = h.apart; first = h.first; known = h.known }) in
              let rest =
                handle_events_lem next es
                  (λ t b. register_again-keys q e.token t r' (there t (ground (arith, b)))) h' in
              subst Handled (ground (arith, is, good)) rest
          | inr (x, bad) ↦ failed x (ground (arith, is, bad))
        ]
  ]

  -- mio's poll disarms nobody but those whose tokens it reports.
  polled-IsArmed :
      (p : Poller W R M.Poll S.Map) (timeout : Option ℕ) (events : List Event)
      → (M.poll p.os_poll timeout).0 ≡ ok events
      → IsArmed M S none_exempt p
      → IsArmed M S (has_event events) (record p { os_poll = (M.poll p.os_poll timeout).1 })
  polled-IsArmed p timeout events e h = record {
    armed = λ t r at_t wanted free.
        M.armed-poll p.os_poll timeout events r.evented t _ e (h.armed t r at_t wanted refl) free;
    apart = h.apart;
    first = λ t r at_t is_first.
        elim (Option-cases (M.armed (M.poll p.os_poll timeout).1 r.evented)) [
          | inl none_armed ↦ none_armed
          | inr ((u, i), q) ↦ absurd (
              ground (
                arith,
                M.poll-armed_before p.os_poll timeout events r.evented u i e q,
                h.first t r at_t is_first,
              ))
        ];
    known = λ d t i q. h.known d t i (M.poll-armed_before p.os_poll timeout events d t i e q);
  }

  reported-known :
      (p : Poller W R M.Poll S.Map) (timeout : Option ℕ) (events : List Event)
      → (M.poll p.os_poll timeout).0 ≡ ok events
      → IsArmed M S none_exempt p
      → (t : ℕ) → has_event events t ≡ true
      → is_some (get p.registrants t) ≡ true
  reported-known p timeout events e h t b =
      let (d, i, q) = M.poll-armed p.os_poll timeout events t e b in
      let (r, at_t, _) = h.known d t i q in ground (arith, at_t)

  -- `poll` after its request neither panics nor loops for ever: it fails with an error of the operating
  -- system, or succeeds, and then every registrant that somebody still waits for is armed with mio for
  -- just what is waited for. Before, everybody who waits must be armed.
  pub poll_events_lem :
      (p : Poller W R M.Poll S.Map) (now : ℕ) (did_something : Bool) (timeout : Option ℕ)
      → IsArmed M S none_exempt p
      → Handled (poll_events M S p now did_something timeout)
  unfolding poll_events
  poll_events_lem p now did_something timeout h =
      let x = expire_lem p now in
      let p1 = (expire M S p now).1 in
      let h1 : IsArmed M S none_exempt p1 =
        unmoved-IsArmed M S p p1 (ground (arith, x.result)) (ground (arith, x.result)) h in
      let same : p1.timeout_queue ≡ x.drained.left = ground (arith, x.result) in
      let (t, is_t) =
        os_timeout_lem p1 now did_something timeout
          (λ j w q. x.drained.exhausted j w (ap (λ m. find S m j) (sym same) ∙ q)) in
      let good : (expire M S p now).0 ≡ ok tt = ground (arith, x.result) in
      by_result p1 t refl h1 good is_t (M.poll p1.os_poll t).0 refl
    where
      by_result :
          (p1 : Poller W R M.Poll S.Map) (t : Option ℕ)
          → p1 ≡ (expire M S p now).1
          → IsArmed M S none_exempt p1
          → (expire M S p now).0 ≡ ok tt
          → os_timeout M S p1 now did_something timeout ≡ ok t
          → (es : Result (List Event) IoError) → (M.poll p1.os_poll t).0 ≡ es
          → Handled (poll_events M S p now did_something timeout)
      by_result p1 t same h1 good is_t (err e) q = failed e (ground (arith, same, good, is_t, q))
      by_result p1 t same h1 good is_t (ok events) q =
          let p2 = record p1 { os_poll = (M.poll p1.os_poll t).1 } in
          let is : poll_events M S p now did_something timeout ≡ handle_events M S p2 events =
            ground (arith, same, good, is_t, q) in
          subst Handled (sym is) (
            handle_events_lem p2 events (reported-known p1 t events q h1)
              (polled-IsArmed p1 t events q h1))
