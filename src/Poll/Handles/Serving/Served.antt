-- ===== src/Poll/Handles/Serving/Served.antt =====
-- The users of a poller and the poller (src/io/poll/poller.rs): the poller's side.
use fibers_rs.Prelude.{
  ℕ, zero, suc, ◌+◌, ◌<◌, ◌≡◌, refl, sym, subst, ap, Bool, true, false, none, some, List, [], ◌∷◌,
  ◌++◌, All, count, map, arith, inl, inr, ◌⊎◌, Option-cases, Bool-cases, ◌==◌,
}
use fibers_rs.Prelude.HashMap.{HashMap, contains_key, insert, get, len, get-insert}
use fibers_rs.Prelude.Usize.{usize_mod, free_id, wrapping_add}
use fibers_rs.Prelude.Results.{ok, err}
use fibers_rs.Collections.Tree.{SplayMap}
use fibers_rs.Collections.ListMap.{key_ord}
use fibers_rs.Collections.Laws.{find}
use fibers_rs.Poll.Mio.{Mio, Event}
use fibers_rs.Poll.Poller.{
  Poller, Request, Registrant, register, deregister, monitor, set_timeout, cancel_timeout,
  handle_request, handle_event, expire, fresh_token, io, new_registrant, replied, exited, notified,
  without_notified,
}
use fibers_rs.Poll.Poller.Events.{expire_lem}
use fibers_rs.Poll.Poller.Whole.{IsServable, handle_request-result}
use fibers_rs.Poll.Handles.{Polling, new_handle, cancel}
use fibers_rs.Poll.Handles as Handles
use fibers_rs.Poll.Handles.Orderly.{Spares, IsFitting, IsOrderly, IsKept}
use fibers_rs.Poll.Handles.Serving.Users.{
  send-IsInOrder, nameless, drops-IsInOrder, sets-IsInOrder, monitors-IsInOrder,
}
use fibers_rs.Poll.Handles.Serving.Taken.{
  IsKept-IsInOrder, Taken-IsInOrder, handle_request-Taken, IsKept-Taken, insert-IsKept,
  register_again-IsKept,
}
use fibers_rs.Poll.Handles.Serving.{
  Step, registers, monitors, drops, sets, cancels, replies, serves, expires, polls, handles_event,
  Reach, new, later, IsInOrder,
}

zero_or_more : (n : ℕ) → (n ≡ 0) ⊎ (0 < n)
zero_or_more n = ground arith

free_id-unused :
    (f : ℕ) (used : ℕ → Bool) (next t n : ℕ) → free_id f used next ≡ some (t, n) → used t ≡ false
unfolding free_id
free_id-unused zero used next t n e = absurd (ground (arith, e))
free_id-unused (suc f) used next t n e = elim (Bool-cases (used next)) [
  | inl busy ↦ free_id-unused f used (wrapping_add next 1) t n (ground (arith, e, busy))
  | inr free ↦ ground (arith, e, free)
]

module _ {W R IoError : Type 0} (M : Mio IoError) (S : SplayMap (ℕ × ℕ) R key_ord) where
  -- A token that was free is in no request.
  unnamed :
      (p : Poller W R M.Poll S.Map) (next token : ℕ) (es : List (Request W R))
      → contains_key p.registrants token ≡ false
      → IsOrderly M S p next es
      → All (Spares token) es
  unnamed p next token [] free h = tt
  unnamed p next token (register evented reply ∷ es) free (fit, _, h) =
      (tt, unnamed p next token es free h)
  unnamed p next token (deregister t ∷ es) free (fit, _, h) = (
    (λ is. ground (arith, fit, free, ap (contains_key p.registrants) is)),
    unnamed p next token es free h,
  )
  unnamed p next token (monitor t interest notifier ∷ es) free (fit, _, h) =
      (tt, unnamed p next token es free h)
  unnamed p next token (set_timeout j time reply ∷ es) free (fit, _, h) =
      (tt, unnamed p next token es free h)
  unnamed p next token (cancel_timeout j time ∷ es) free (fit, _, h) =
      (tt, unnamed p next token es free h)

  new_handle-IsInOrder :
      (w : Polling W R M.Poll S.Map) (token : ℕ)
      → contains_key w.poller.registrants token ≡ true
      → All (Spares token) w.poller.requests
      → count token w.handles ≡ 0
      → IsInOrder M S w
      → IsInOrder M S (new_handle w token)
  unfolding new_handle
  new_handle-IsInOrder w token live spares free h = record {
    orderly = h.orderly;
    named = λ t held. elim (Bool-cases (token == t)) [
      | inl is ↦
          let same : token ≡ t = ground (arith, is) in
          subst
            (λ u. (contains_key w.poller.registrants u ≡ true) × All (Spares u) w.poller.requests)
            same (live, spares)
      | inr other ↦ h.named t (ground (arith, held, other))
    ];
    once = λ t. ground (arith, h.once t, free);
    numbered = h.numbered;
  }

  insert-there :
      (m : HashMap (Registrant W)) (t : ℕ) (r : Registrant W) → contains_key (insert m t r) t ≡ true
  unfolding contains_key
  insert-there m t r = ground (arith, get-insert m t r t)

  unheld :
      (w : Polling W R M.Poll S.Map) (token : ℕ)
      → contains_key w.poller.registrants token ≡ false
      → IsInOrder M S w
      → count token w.handles ≡ 0
  unheld w token free h = elim (zero_or_more (count token w.handles)) [
    | inl e ↦ e
    | inr some_held ↦ absurd (ground (arith, (h.named token some_held).0, free))
  ]

  pub replies-IsInOrder :
      (w : Polling W R M.Poll S.Map) (evented token next : ℕ) (reply : R)
      (rest : List (Request W R))
      → w.poller.requests ≡ register evented reply ∷ rest
      → fresh_token M S (record (w.poller) { requests = rest }) ≡ some (token, next)
      → IsInOrder M S w
      → IsInOrder M S (
          new_handle
            (record w {
              poller =
                  (handle_request M S
                    (record (w.poller) { requests = rest })
                    (register evented reply)).1;
            })
            token)
  unfolding fresh_token handle_request
  replies-IsInOrder w evented token next reply rest is fresh h =
      let p1 = record (w.poller) {
        requests = rest;
        next_token = next;
        registrants = insert w.poller.registrants token (new_registrant evented);
        effects = w.poller.effects ++ replied reply token ∷ [];
      } in
      let done' : p1
          ≡ (handle_request M S (record (w.poller) { requests = rest })
              (register evented reply)).1 =
        ground (arith, fresh) in
      let free : contains_key w.poller.registrants token ≡ false =
        free_id-unused (len w.poller.registrants + 1) (contains_key w.poller.registrants)
          w.poller.next_token token next fresh in
      let kept : IsKept M S w.poller p1 =
        insert-IsKept M S w.poller token (new_registrant evented) p1 refl refl in
      let spares = unnamed w.poller w.next_timeout_id token w.poller.requests free h.orderly in
      let (_, spare) = subst (All (Spares token)) is spares in
      let w1 : Polling W R M.Poll S.Map = record w { poller = p1 } in
      let h1 : IsInOrder M S w1 =
        Taken-IsInOrder M S w (register evented reply) rest p1 is
          (IsKept-Taken M S w (register evented reply) rest p1 refl kept) h in
      let live : contains_key p1.registrants token ≡ true =
        insert-there w.poller.registrants token (new_registrant evented) in
      subst (λ p. IsInOrder M S (new_handle (record w { poller = p }) token)) done'
        (new_handle-IsInOrder w1 token live spare (unheld w token free h) h1)

  expires-IsInOrder :
      (w : Polling W R M.Poll S.Map) (now : ℕ)
      → IsInOrder M S w
      → IsInOrder M S (record w { poller = (expire M S w.poller now).1 })
  unfolding expire
  expires-IsInOrder w now h =
      let x = expire_lem M S w.poller now in
      let p1 = (expire M S w.poller now).1 in
      let queue : p1.timeout_queue ≡ x.drained.left = ground (arith, x.drained.result) in
      let kept : IsKept M S w.poller p1 = record {
        live = λ t e.
            subst (λ m. contains_key m t ≡ true) (sym (ap (λ y. (y.1).registrants) x.result)) e;
        timed =
            λ k e. subst (λ q. find S q k ≡ none) (sym queue) (ground (arith, e, x.drained.rest k));
      } in
      IsKept-IsInOrder M S w p1 kept (ap (λ y. (y.1).requests) x.result) h

  handles_event-IsInOrder :
      (w : Polling W R M.Poll S.Map) (e : Event)
      → IsInOrder M S w
      → IsInOrder M S (record w { poller = (handle_event M S w.poller e).1 })
  unfolding handle_event
  handles_event-IsInOrder w e h = elim (Option-cases (get w.poller.registrants e.token)) [
    | inl gone ↦ rw (handle_event, gone) h
    | inr (r, there) ↦
        let p0 = record (w.poller) {
          effects = w.poller.effects ++ map exited (notified r e.readiness);
        } in
        let (kept, same) =
          register_again-IsKept M S w.poller p0 e.token (without_notified r e.readiness) refl
            refl in
        rw (handle_event, there) (IsKept-IsInOrder M S w _ kept same h)
  ]

  -- Every step of the users and of the poller keeps the requests in order.
  pub Step-IsInOrder :
      {w v : Polling W R M.Poll S.Map} → Step M S w v → IsInOrder M S w → IsInOrder M S v
  unfolding Handles.register cancel
  Step-IsInOrder (registers w evented reply) h =
      send-IsInOrder M S w (register evented reply) tt (nameless M S w _ refl refl) (λ t held. tt) h
  Step-IsInOrder (monitors w token interest monitored held) h =
      monitors-IsInOrder M S w token interest monitored held h
  Step-IsInOrder (drops w token before after is) h = drops-IsInOrder M S w token before after is h
  Step-IsInOrder (sets w now delay_from_now tx fits) h =
      sets-IsInOrder M S w now delay_from_now tx fits h
  Step-IsInOrder (cancels w c) h =
      send-IsInOrder M S w (cancel_timeout c.timeout_id c.expiry_time) tt
        (nameless M S w _ refl refl) (λ t held. tt) h
  Step-IsInOrder (replies w evented token next reply rest is fresh) h =
      replies-IsInOrder w evented token next reply rest is fresh h
  Step-IsInOrder (serves w q rest is other) h =
      Taken-IsInOrder M S w q rest _ is (handle_request-Taken M S w q rest other) h
  Step-IsInOrder (expires w now) h = expires-IsInOrder w now h
  Step-IsInOrder (polls w q) h =
      IsKept-IsInOrder M S w _ (record { live = λ t e. e; timed = λ k e. e }) refl h
  Step-IsInOrder (handles_event w e) h = handles_event-IsInOrder w e h

  new-IsInOrder :
      (w : Polling W R M.Poll S.Map)
      → w.poller.requests ≡ []
      → w.handles ≡ []
      → ((k : ℕ × ℕ) → find S w.poller.timeout_queue k ≡ none)
      → IsInOrder M S w
  new-IsInOrder w no_request no_handle no_timeout = record {
    orderly = subst (IsOrderly M S w.poller w.next_timeout_id) (sym no_request) tt;
    named = λ t held. absurd (ground (arith, held, no_handle));
    once = λ t. ground (arith, no_handle);
    numbered = λ k r e. absurd (ground (arith, e, no_timeout k));
  }

  pub Reach-IsInOrder : {w : Polling W R M.Poll S.Map} → Reach M S w → IsInOrder M S w
  Reach-IsInOrder (new w a b c) = new-IsInOrder w a b c
  Reach-IsInOrder (later r st) = Step-IsInOrder st (Reach-IsInOrder r)

  pub servable :
      (w : Polling W R M.Poll S.Map) (q : Request W R) (rest : List (Request W R))
      → w.poller.next_token < usize_mod
      → len w.poller.registrants < usize_mod
      → IsFitting M S w.poller w.next_timeout_id q
      → IsServable M S (record (w.poller) { requests = rest }) q
  servable w (register evented reply) rest token room fit = (token, room)
  servable w (deregister t) rest token room fit = fit
  servable w (monitor t interest notifier) rest token room fit = fit
  servable w (set_timeout i time reply) rest token room (_, absent) = absent time
  servable w (cancel_timeout i time) rest token room fit = tt

  -- No request that handles send can make the poller panic, in any interleaving: when its turn comes, a
  -- registrant that it names is there, and a timeout that it sets is new; the poller handles it, or
  -- the operating system fails. Tokens must be left over, and fewer than 2^64 timeouts be set.
  pub Reach-servable :
      {w : Polling W R M.Poll S.Map}
      → Reach M S w
      → (q : Request W R) (rest : List (Request W R)) → w.poller.requests ≡ q ∷ rest
      → w.poller.next_token < usize_mod
      → len w.poller.registrants < usize_mod
      → ((handle_request M S (record (w.poller) { requests = rest }) q).0 ≡ ok tt)
        ⊎ ((e : IoError) × ((handle_request M S (record (w.poller) { requests = rest }) q).0
              ≡ err (io e)))
  Reach-servable {w} r q rest is token room =
      let (fit, _, _) =
        subst (IsOrderly M S w.poller w.next_timeout_id) is (Reach-IsInOrder r).orderly in
      handle_request-result M S (record (w.poller) { requests = rest }) q
        (servable w q rest token room fit)
