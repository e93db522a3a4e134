-- ===== src/Poll/Poller/Whole.antt =====
-- `Poller::poll` of src/io/poll/poller.rs as a whole: a request, timeouts and events.
use fibers_rs.Prelude.{
  ℕ, ◌<◌, ◌≡◌, refl, sym, subst, ◌⊎◌, inl, inr, true, false, ◌||◌, Option, none, List, [], ◌∷◌,
  arith, ◌==◌, Bool-cases, Option-cases, length,
}
use fibers_rs.Prelude.HashMap.{get, contains_key, len}
use fibers_rs.Prelude.Usize.{usize_mod, free_id_total}
use fibers_rs.Prelude.Results.{ok, err}
use fibers_rs.Collections.Tree.{SplayMap}
use fibers_rs.Collections.ListMap.{key_ord}
use fibers_rs.Collections.Laws.{find, push_if_absent_lem}
use fibers_rs.Poll.Mio.{Mio}
use fibers_rs.Poll.Poller.{
  Poller, Request, register, deregister, monitor, set_timeout, cancel_timeout, handle_request,
  add_waiting, fresh_token, poll, poll_events, io,
}
use fibers_rs.Poll.Poller.Waiting.{IsArmed}
use fibers_rs.Poll.Poller.Requests.{IsProper, none_exempt, handle_request-IsArmed, unmoved-IsArmed}
use fibers_rs.Poll.Poller.Events.{
  Handled, failed, poll_events_lem, register_again-result, lift_cases,
}

module _ {W R IoError : Type 0} (M : Mio IoError) (S : SplayMap (ℕ × ℕ) R key_ord) where
  -- A request that names live registrants only, or a new timeout; identifiers are left over.
  abbrev pub IsServable : Poller W R M.Poll S.Map → Request W R → Type 0
  IsServable p (register evented reply) =
      (p.next_token < usize_mod) × (len p.registrants < usize_mod)
  IsServable p (deregister token) = contains_key p.registrants token ≡ true
  IsServable p (monitor token interest notifier) = contains_key p.registrants token ≡ true
  IsServable p (set_timeout timeout_id expiry_time reply) =
      find S p.timeout_queue (expiry_time, timeout_id) ≡ none
  IsServable p (cancel_timeout timeout_id expiry_time) = Unit

  -- Then the call does not panic: it succeeds, or the operating system fails.
  pub handle_request-result :
      (p : Poller W R M.Poll S.Map) (q : Request W R)
      → IsServable p q
      → ((handle_request M S p q).0 ≡ ok tt)
        ⊎ ((e : IoError) × ((handle_request M S p q).0 ≡ err (io e)))
  unfolding handle_request fresh_token contains_key
  handle_request-result p (register evented reply) (fits, room) =
      inl (ground (arith, (free_id_total p.registrants p.next_token fits room).result))
  handle_request-result p (deregister token) live = elim (Option-cases (get p.registrants token)) [
    | inl gone ↦ absurd (ground (arith, gone, live))
    | inr (r, at_t) ↦ elim (Bool-cases r.is_first) [
      | inl is_first ↦ inl (ground (arith, at_t, is_first))
      | inr later ↦ ground (arith, at_t, later, lift_cases (M.deregister p.os_poll r.evented).0)
    ]
  ]
  handle_request-result p (monitor token interest notifier) live =
      elim (Option-cases (get p.registrants token)) [
        | inl gone ↦ absurd (ground (arith, gone, live))
        | inr (r, at_t) ↦
            let r' = add_waiting r interest notifier in
            elim (Bool-cases (length r'.read_waitings == 1 || length r'.write_waitings == 1)) [
              | inl again ↦ ground (arith, at_t, again, register_again-result M S p token r')
              | inr kept ↦ inl (ground (arith, at_t, kept))
            ]
      ]
  handle_request-result p (set_timeout timeout_id expiry_time reply) absent = inl (
      ground
        (arith, absent, (push_if_absent_lem S p.timeout_queue (expiry_time, timeout_id) reply).0))
  handle_request-result p (cancel_timeout timeout_id expiry_time) u = inl refl

  -- What the first of the requests has to meet.
  abbrev pub IsNext : Poller W R M.Poll S.Map → List (Request W R) → Type 0
  IsNext p [] = Unit
  IsNext p (q ∷ rest) = IsServable p q × IsProper M S p q

  -- `poll` neither panics nor loops for ever: it fails with an error of the operating system, or succeeds,
  -- and then every registrant that somebody waits for is armed with mio for just what is waited for.
  -- Before, that must hold too; and the next request, if there is one, must name a live registrant, a new
  -- object or a new timeout, while tokens are left over.
  pub poll-Handled :
      (p : Poller W R M.Poll S.Map) (now : ℕ) (timeout : Option ℕ)
      → IsNext p p.requests
      → IsArmed M S none_exempt p
      → Handled M S (poll M S p now timeout)
  unfolding poll
  poll-Handled p now timeout next h = by_requests p.requests refl next
    where
      by_requests :
          (requests : List (Request W R))
          → p.requests ≡ requests
          → IsNext p requests
          → Handled M S (poll M S p now timeout)
      by_requests [] is u =
          let same : poll M S p now timeout ≡ poll_events M S p now false timeout =
            ground (arith, is) in
          subst (Handled M S) (sym same) (poll_events_lem M S p now false timeout h)
      by_requests (q ∷ rest) is (servable, proper) =
          let p0 = record p { requests = rest } in
          let h0 : IsArmed M S none_exempt p0 = unmoved-IsArmed M S p p0 refl refl h in
          elim (handle_request-result p0 q servable) [
            | inl good ↦
                let p1 = (handle_request M S p0 q).1 in
                let same : poll M S p now timeout ≡ poll_events M S p1 now true timeout =
                  ground (arith, is, good) in
                subst (Handled M S) (sym same) (
                  poll_events_lem M S p1 now true timeout
                    (handle_request-IsArmed M S p0 q proper good h0))
            | inr (e, bad) ↦ failed e (ground (arith, is, bad))
          ]
