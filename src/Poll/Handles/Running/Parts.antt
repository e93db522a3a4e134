-- ===== src/Poll/Handles/Running/Parts.antt =====
-- What the parts of `Poller::poll` keep, `poll` keeps (src/io/poll/poller.rs).
use fibers_rs.Prelude.{ℕ, ◌≡◌, Bool, true, false, Option, List, [], ◌∷◌}
use fibers_rs.Prelude.Results.{Result, ok, err, Fault}
use fibers_rs.Collections.Tree.{SplayMap}
use fibers_rs.Collections.ListMap.{key_ord}
use fibers_rs.Poll.Mio.{Mio, Event}
use fibers_rs.Poll.Poller.{
  Poller, Request, Fail, fault, io, handle_request, handle_event, handle_events, expire, os_timeout,
  poll, poll_events,
}

module _ {W R IoError : Type 0} (M : Mio IoError) (S : SplayMap (ℕ × ℕ) R key_ord)
    (Q : Poller W R M.Poll S.Map → Type 0)
    (on_expire : (p : Poller W R M.Poll S.Map) (now : ℕ) → Q p → Q (expire M S p now).1)
    (on_poll : (p : Poller W R M.Poll S.Map) (q : M.Poll) → Q p → Q (record p { os_poll = q }))
    (on_event : (p : Poller W R M.Poll S.Map) (e : Event) → Q p → Q (handle_event M S p e).1) where
  either_keeps :
      {E : Type 0} (r : Result (Unit {0}) E) (f : E → Fail IoError) (p1 : Poller W R M.Poll S.Map)
      (rest : Result (Unit {0}) (Fail IoError) × Poller W R M.Poll S.Map)
      → Q p1
      → Q rest.1
      → Q
          (elim r as (λ x. Result (Unit {0}) (Fail IoError) × Poller W R M.Poll S.Map) [
            | err x ↦ (err (f x), p1)
            | ok u ↦ rest
          ]).1
  either_keeps (err x) f p1 rest here there = here
  either_keeps (ok u) f p1 rest here there = there

  events_keep : (p : Poller W R M.Poll S.Map) (es : List Event) → Q p → Q (handle_events M S p es).1
  unfolding handle_events
  events_keep p [] h = h
  events_keep p (e ∷ es) h =
      either_keeps (handle_event M S p e).0 (λ x. x) (handle_event M S p e).1 _ (on_event p e h)
        (events_keep (handle_event M S p e).1 es (on_event p e h))

  reported_keep :
      (p2 : Poller W R M.Poll S.Map) (es : Result (List Event) IoError)
      → Q p2
      → Q
          (elim es as (λ x. Result (Unit {0}) (Fail IoError) × Poller W R M.Poll S.Map) [
            | err x ↦ (err (io x), p2)
            | ok events ↦ handle_events M S p2 events
          ]).1
  reported_keep p2 (err x) h = h
  reported_keep p2 (ok events) h = events_keep p2 events h

  waited_keep :
      (p1 : Poller W R M.Poll S.Map) (t : Result (Option ℕ) Fault)
      → Q p1
      → Q
          (elim t as (λ x. Result (Unit {0}) (Fail IoError) × Poller W R M.Poll S.Map) [
            | err x ↦ (err (fault x), p1)
            | ok t ↦
                let (es, q) = M.poll p1.os_poll t in
                let p2 = record p1 { os_poll = q } in
                elim es as (λ x. Result (Unit {0}) (Fail IoError) × Poller W R M.Poll S.Map) [
                  | err x ↦ (err (io x), p2)
                  | ok events ↦ handle_events M S p2 events
                ]
          ]).1
  waited_keep p1 (err x) h = h
  waited_keep p1 (ok t) h =
      reported_keep (record p1 { os_poll = (M.poll p1.os_poll t).1 }) (M.poll p1.os_poll t).0
        (on_poll p1 (M.poll p1.os_poll t).1 h)

  poll_events_keep :
      (p : Poller W R M.Poll S.Map) (now : ℕ) (did_something : Bool) (timeout : Option ℕ)
      → Q p
      → Q (poll_events M S p now did_something timeout).1
  unfolding poll_events
  poll_events_keep p now did_something timeout h =
      let p1 = (expire M S p now).1 in
      let h1 = on_expire p now h in
      either_keeps (expire M S p now).0 (λ x. x) p1 _ h1
        (waited_keep p1 (os_timeout M S p1 now did_something timeout) h1)

  -- `poll` handles the first request, if there is one, and then does the rest.
  pub poll_keeps :
      (p : Poller W R M.Poll S.Map) (now : ℕ) (timeout : Option ℕ) (qs : List (Request W R))
      → p.requests ≡ qs
      → (p.requests ≡ [] → Q p)
      → ((q : Request W R) (rest : List (Request W R))
          → p.requests ≡ q ∷ rest
          → Q (handle_request M S (record p { requests = rest }) q).1)
      → Q (poll M S p now timeout).1
  unfolding poll
  poll_keeps p now timeout [] is none_left some_left =
      rw (poll, is) (poll_events_keep p now false timeout (none_left is))
  poll_keeps p now timeout (q ∷ rest) is none_left some_left =
      let x = handle_request M S (record p { requests = rest }) q in
      rw (poll, is)
        (either_keeps x.0 (λ y. y) x.1 _ (some_left q rest is)
          (poll_events_keep x.1 now true timeout (some_left q rest is)))
