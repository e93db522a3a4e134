-- ===== src/Poll/Handles/Running/Polled.antt =====
-- What a `poll` keeps, whatever it returns (src/io/poll/poller.rs).
use fibers_rs.Prelude.{
  ℕ, ◌+◌, ◌<◌, ◌≡◌, refl, sym, subst, ap, Option, List, ◌∷◌, ◌++◌, arith, inl, inr, Option-cases,
}
use fibers_rs.Prelude.HashMap.{get, len}
use fibers_rs.Prelude.Usize.{usize_mod, free_id_total, wrapping_add}
use fibers_rs.Collections.Tree.{SplayMap}
use fibers_rs.Collections.ListMap.{key_ord}
use fibers_rs.Poll.Mio.{Mio, Event}
use fibers_rs.Poll.Poller.{
  Poller, Request, register, deregister, monitor, set_timeout, cancel_timeout, handle_request,
  handle_event, expire, fresh_token, register_again, poll,
}
use fibers_rs.Poll.Poller.Waiting.{IsArmed}
use fibers_rs.Poll.Poller.Events.{expire_lem}
use fibers_rs.Poll.Poller.Requests.{none_exempt}
use fibers_rs.Poll.Handles.{Polling, new_handle}
use fibers_rs.Poll.Handles.Serving.{
  IsInOrder, serves, expires, polls, handles_event, IsRegister, registering,
}
use fibers_rs.Poll.Handles.Serving.Taken.{handle_request-Taken}
use fibers_rs.Poll.Handles.Serving.Served.{Step-IsInOrder, replies-IsInOrder}
use fibers_rs.Poll.Handles.Running.{new_tokens}
use fibers_rs.Poll.Handles.Running.Parts.{poll_keeps}
use fibers_rs.Poll.Handles.Running.Owned.{
  IsOwned, handle_event-IsOwned, expire-IsOwned, handle_request-IsOwned,
}

module _ {W R IoError : Type 0} (M : Mio IoError) (S : SplayMap (ℕ × ℕ) R key_ord) where
  pub record IsServing (w : Polling W R M.Poll S.Map) : Type 0 where
    pub order : IsInOrder M S w
    pub armed : IsArmed M S none_exempt w.poller
    pub owned : IsOwned w.poller.registrants w.poller.requests
    pub token : w.poller.next_token < usize_mod

  -- What the parts of `poll` keep; `handles` are those there will be then.
  abbrev pub Kept : Polling W R M.Poll S.Map → List ℕ → Poller W R M.Poll S.Map → Type 0
  Kept w handles p =
      IsInOrder M S (record w { poller = p; handles = handles })
      × IsOwned p.registrants p.requests
      × (p.next_token < usize_mod)

  next_token-event :
      (p : Poller W R M.Poll S.Map) (e : Event)
      → ((handle_event M S p e).1.next_token ≡ p.next_token)
        × ((handle_event M S p e).1.requests ≡ p.requests)
  unfolding handle_event register_again
  next_token-event p e = elim (Option-cases (get p.registrants e.token)) [
    | inl gone ↦ rw (handle_event, gone) (refl, refl)
    | inr (r, there) ↦ rw (handle_event, there) (refl, refl)
  ]

  on_event :
      (w : Polling W R M.Poll S.Map) (handles : List ℕ) (p : Poller W R M.Poll S.Map) (e : Event)
      → Kept w handles p
      → Kept w handles (handle_event M S p e).1
  on_event w handles p e (order, owned, token) =
      let (next, requests) = next_token-event p e in
      (
        Step-IsInOrder M S (handles_event (record w { poller = p; handles = handles }) e) order,
        subst (IsOwned (handle_event M S p e).1.registrants) (sym requests)
            (handle_event-IsOwned M S p e p.requests owned),
        omega (arith, next, token),
      )

  on_expire :
      (w : Polling W R M.Poll S.Map) (handles : List ℕ) (p : Poller W R M.Poll S.Map) (now : ℕ)
      → Kept w handles p
      → Kept w handles (expire M S p now).1
  on_expire w handles p now (order, owned, token) =
      let x = (expire_lem M S p now).result in
      (
        Step-IsInOrder M S (expires (record w { poller = p; handles = handles }) now) order,
        subst (IsOwned (expire M S p now).1.registrants) (sym (ap (λ y. (y.1).requests) x))
            (expire-IsOwned M S p now p.requests owned),
        omega (arith, ap (λ y. (y.1).next_token) x, token),
      )

  next_token-request :
      (p : Poller W R M.Poll S.Map) (q : Request W R)
      → ¬ IsRegister q
      → (handle_request M S p q).1.next_token ≡ p.next_token
  unfolding handle_request register_again
  next_token-request p (register evented reply) other = absurd (other (registering evented reply))
  next_token-request p (deregister t) other = ground arith
  next_token-request p (monitor t interest notifier) other = ground arith
  next_token-request p (set_timeout i time reply) other = refl
  next_token-request p (cancel_timeout i time) other = refl

  -- The first request is handled.
  other_handled :
      (w : Polling W R M.Poll S.Map) (q : Request W R) (rest : List (Request W R))
      → w.poller.requests ≡ q ∷ rest
      → ¬ IsRegister q
      → IsServing w
      → Kept w w.handles (handle_request M S (record (w.poller) { requests = rest }) q).1
  other_handled w q rest is other h =
      let p0 = record (w.poller) { requests = rest } in
      let owned : IsOwned w.poller.registrants (q ∷ rest) =
        subst (IsOwned w.poller.registrants) is h.owned in
      (
        Step-IsInOrder M S (serves w q rest is other) h.order,
        subst (IsOwned (handle_request M S p0 q).1.registrants)
            (sym (handle_request-Taken M S w q rest other).requests)
            (handle_request-IsOwned M S w.poller q rest owned),
        omega (arith, next_token-request p0 q other, h.token),
      )

  register_handled :
      (w : Polling W R M.Poll S.Map) (evented : ℕ) (reply : R) (rest : List (Request W R))
      → w.poller.requests ≡ register evented reply ∷ rest
      → len w.poller.registrants < usize_mod
      → IsServing w
      → Kept w
          (new_tokens M S w.poller (register evented reply ∷ rest) ++ w.handles)
          (handle_request M S (record (w.poller) { requests = rest }) (register evented reply)).1
  unfolding fresh_token new_handle handle_request
  register_handled w evented reply rest is room h =
      let p0 = record (w.poller) { requests = rest } in
      let found = free_id_total w.poller.registrants w.poller.next_token h.token room in
      let token = wrapping_add w.poller.next_token found.skipped in
      let next = wrapping_add w.poller.next_token (found.skipped + 1) in
      let p1 = (handle_request M S p0 (register evented reply)).1 in
      let handles : token ∷ w.handles
          ≡ new_tokens M S w.poller (register evented reply ∷ rest) ++ w.handles =
        ground (arith, found.result) in
      let owned : IsOwned w.poller.registrants (register evented reply ∷ rest) =
        subst (IsOwned w.poller.registrants) is h.owned in
      let requests : rest ≡ p1.requests = ground (arith, found.result) in
      let bound : p1.next_token ≡ next = ground (arith, found.result) in
      (
        subst (λ hs. IsInOrder M S (record w { poller = p1; handles = hs })) handles
            (replies-IsInOrder M S w evented token next reply rest is found.result h.order),
        subst (IsOwned p1.registrants) requests
            (handle_request-IsOwned M S w.poller (register evented reply) rest owned),
        omega (arith, bound),
      )

  request_handled :
      (w : Polling W R M.Poll S.Map) (q : Request W R) (rest : List (Request W R))
      → w.poller.requests ≡ q ∷ rest
      → len w.poller.registrants < usize_mod
      → IsServing w
      → Kept w
          (new_tokens M S w.poller (q ∷ rest) ++ w.handles)
          (handle_request M S (record (w.poller) { requests = rest }) q).1
  request_handled w (register evented reply) rest is room h =
      register_handled w evented reply rest is room h
  request_handled w (deregister t) rest is room h =
      other_handled w (deregister t) rest is (λ x. elim x [ ]) h
  request_handled w (monitor t interest notifier) rest is room h =
      other_handled w (monitor t interest notifier) rest is (λ x. elim x [ ]) h
  request_handled w (set_timeout i time reply) rest is room h =
      other_handled w (set_timeout i time reply) rest is (λ x. elim x [ ]) h
  request_handled w (cancel_timeout i time) rest is room h =
      other_handled w (cancel_timeout i time) rest is (λ x. elim x [ ]) h

  pub poll-Kept :
      (w : Polling W R M.Poll S.Map) (now : ℕ) (timeout : Option ℕ)
      → len w.poller.registrants < usize_mod
      → IsServing w
      → Kept w
          (new_tokens M S w.poller w.poller.requests ++ w.handles)
          (poll M S w.poller now timeout).1
  poll-Kept w now timeout room h =
      let handles = new_tokens M S w.poller w.poller.requests ++ w.handles in
      poll_keeps M S (Kept w handles) (on_expire w handles)
        (λ p q k.
          (Step-IsInOrder M S (polls (record w { poller = p; handles = handles }) q) k.0, k.1, k.2))
        (on_event w handles) w.poller now timeout w.poller.requests refl
        (λ none_left. (
          subst
              (λ qs. IsInOrder M S (record w { handles = new_tokens M S w.poller qs ++ w.handles }))
              (sym none_left) h.order,
          h.owned,
          h.token,
        ))
        (λ q rest is.
          subst
            (λ qs.
              Kept w (new_tokens M S w.poller qs ++ w.handles)
                (handle_request M S (record (w.poller) { requests = rest }) q).1)
            (sym is) (request_handled w q rest is room h))
