-- ===== src/Poll/Poller/Requests.antt =====
-- The requests of src/io/poll/poller.rs (`Poller::handle_request`) against mio's registry.
use fibers_rs.Prelude.{
  ℕ, ◌+◌, ◌≡◌, ◌≢◌, subst, refl, sym, ◌∙◌, ap, inl, inr, Bool, false, ◌||◌, none, some, List, [],
  ◌∷◌, ◌++◌, arith, ◌==◌, if◌then◌else◌, Bool-cases, Option-cases, length,
}
use fibers_rs.Prelude.HashMap.{get, insert, remove, get-insert, get-remove, contains_key, len}
use fibers_rs.Prelude.Usize.{free_id-unused}
use fibers_rs.Prelude.Results.{ok}
use fibers_rs.Collections.Tree.{SplayMap}
use fibers_rs.Collections.ListMap.{key_ord}
use fibers_rs.Poll.Mio.{Mio}
use fibers_rs.Poll.Poller.{
  Registrant, Poller, mio_interest, register_again, is_empty, Interest, read, write, Request,
  register, deregister, monitor, set_timeout, cancel_timeout, handle_request, add_waiting,
  new_registrant, fresh_token, replied,
}
use fibers_rs.Poll.Poller.Waiting.{IsArmed, register_again-IsArmed}

-- A list that is not of length 1 after a push was not empty before.
more_than_one :
    {W : Type 0} (ws : List W) (w : W)
    → length (ws ++ w ∷ []) == 1 ≡ false
    → is_empty (ws ++ w ∷ []) ≡ is_empty ws
more_than_one [] w e = absurd (ground (arith, e))
more_than_one (x ∷ ws) w e = refl

abbrev pub none_exempt : ℕ → Bool
none_exempt t = false

module _ {W R IoError : Type 0} (M : Mio IoError) (S : SplayMap (ℕ × ℕ) R key_ord) where
  -- No registrant's object: an evented object is registered once.
  abbrev pub IsFresh : Poller W R M.Poll S.Map → ℕ → Type 0
  IsFresh p evented =
      (t : ℕ) (r : Registrant W) → get p.registrants t ≡ some r → r.evented ≢ evented

  -- What the program keeps to when it sends a request.
  abbrev pub IsProper : Poller W R M.Poll S.Map → Request W R → Type 0
  IsProper p (register evented reply) = IsFresh p evented
  IsProper p (deregister token) = Unit
  IsProper p (monitor token interest notifier) = Unit
  IsProper p (set_timeout timeout_id expiry_time reply) = Unit
  IsProper p (cancel_timeout timeout_id expiry_time) = Unit

  kept-IsArmed :
      (p p' : Poller W R M.Poll S.Map) (t : ℕ) (r0 r : Registrant W)
      → get p.registrants t ≡ some r0
      → p'.registrants ≡ insert p.registrants t r
      → p'.os_poll ≡ p.os_poll
      → r.evented ≡ r0.evented
      → r.is_first ≡ r0.is_first
      → mio_interest r ≡ mio_interest r0
      → IsArmed M S none_exempt p
      → IsArmed M S none_exempt p'
  kept-IsArmed p p' t r0 r at_t put same_os same same_first interest h = record {
    armed = λ j r1 e wanted free. ground (
      arith,
      ap (λ m. get m j) put,
      same_os,
      get-insert p.registrants t r j,
      h.armed j r1,
      h.armed t r0,
    );
    apart = λ j k r1 r2 e f q. ground (
      arith,
      ap (λ m. get m j) put,
      ap (λ m. get m k) put,
      get-insert p.registrants t r j,
      get-insert p.registrants t r k,
      h.apart j k r1 r2,
      h.apart t k r0 r2,
      h.apart j t r1 r0,
    );
    first = λ j r1 e f. ground (
      arith,
      ap (λ m. get m j) put,
      same_os,
      get-insert p.registrants t r j,
      h.first j r1,
      h.first t r0,
    );
    known = λ e u i q.
        let (r1, at_u, q1) = h.known e u i (ground (arith, q, same_os)) in
        elim (Bool-cases (t == u)) [
          | inl here ↦ (
            r,
            ground (arith, ap (λ m. get m u) put, get-insert p.registrants t r u, here),
            ground (arith, at_t, at_u, here, q1, same),
          )
          | inr there ↦ (
            r1,
            ground (arith, ap (λ m. get m u) put, get-insert p.registrants t r u, there, at_u),
            q1,
          )
        ];
  }

  pub fresh_token-unused :
      (p : Poller W R M.Poll S.Map) (token next : ℕ)
      → fresh_token M S p ≡ some (token, next)
      → contains_key p.registrants token ≡ false
  unfolding fresh_token
  fresh_token-unused p token next found =
      free_id-unused (len p.registrants + 1) (contains_key p.registrants) p.next_token token next
        found

  registered-IsArmed :
      (p : Poller W R M.Poll S.Map) (evented token next : ℕ) (reply : R)
      → contains_key p.registrants token ≡ false
      → IsFresh p evented
      → IsArmed M S none_exempt p
      → IsArmed M S none_exempt (record p {
        next_token = next;
        registrants = insert p.registrants token (new_registrant evented);
        effects = p.effects ++ replied reply token ∷ [];
      })
  unfolding new_registrant mio_interest contains_key
  registered-IsArmed p evented token next reply unused fresh h =
      let r' : Registrant W = new_registrant evented in
      record {
        armed =
            λ j r e wanted free. ground (arith, get-insert p.registrants token r' j, h.armed j r);
        apart = λ j k r1 r2 e f q. ground (
          arith,
          get-insert p.registrants token r' j,
          get-insert p.registrants token r' k,
          h.apart j k r1 r2,
          fresh j r1,
          fresh k r2,
        );
        first = λ j r e f. elim (Bool-cases (token == j)) [
          | inl here ↦
              let named : r.evented ≡ evented =
                ground (arith, get-insert p.registrants token r' j, here, e) in
              elim (Option-cases (M.armed p.os_poll r.evented)) [
                | inl none_armed ↦ none_armed
                | inr ((u, i), q) ↦
                    let (r1, at_u, q1) = h.known r.evented u i q in
                    absurd (fresh u r1 at_u (q1 ∙ named))
              ]
          | inr there ↦
              h.first j r (ground (arith, get-insert p.registrants token r' j, there, e)) f
        ];
        known = λ e u i q.
            let (r, at_u, q1) = h.known e u i q in
            (r, ground (arith, get-insert p.registrants token r' u, unused, at_u), q1);
      }

  -- A registrant goes, and so does its registration with mio.
  removed-IsArmed :
      (p p' : Poller W R M.Poll S.Map) (t : ℕ) (r0 : Registrant W)
      → get p.registrants t ≡ some r0
      → p'.registrants ≡ remove p.registrants t
      → ((e : ℕ) → M.armed p'.os_poll e ≡ (if r0.evented == e then none else M.armed p.os_poll e))
      → IsArmed M S none_exempt p
      → IsArmed M S none_exempt p'
  removed-IsArmed p p' t r0 at_t cut away h = record {
    armed = λ j r e wanted free. ground (
      arith,
      ap (λ m. get m j) cut,
      get-remove p.registrants t j,
      away r.evented,
      h.armed j r,
      h.apart t j r0 r,
    );
    apart = λ j k r1 r2 e f q. ground (
      arith,
      ap (λ m. get m j) cut,
      ap (λ m. get m k) cut,
      get-remove p.registrants t j,
      get-remove p.registrants t k,
      h.apart j k r1 r2,
    );
    first = λ j r e f.
        ground
          (arith, ap (λ m. get m j) cut, get-remove p.registrants t j, away r.evented, h.first j r);
    known = λ e u i q.
        let (r, at_u, q1) = h.known e u i (ground (arith, away e, q)) in
        (
          r,
          ground (
            arith,
            ap (λ m. get m u) cut,
            get-remove p.registrants t u,
            at_u,
            at_t,
            away e,
            q,
            q1,
          ),
          q1,
        );
  }

  deregistered-IsArmed :
      (p : Poller W R M.Poll S.Map) (token : ℕ)
      → (handle_request M S p (deregister token)).0 ≡ ok tt
      → IsArmed M S none_exempt p
      → IsArmed M S none_exempt (handle_request M S p (deregister token)).1
  unfolding handle_request
  deregistered-IsArmed p token done h = elim (Option-cases (get p.registrants token)) [
    | inl gone ↦ absurd (ground (arith, done, gone))
    | inr (r0, at_t) ↦
        removed-IsArmed p _ token r0 at_t (ground (arith, at_t))
          (λ e.
            ground
              (arith, at_t, done, h.first token r0 at_t, M.armed-deregister p.os_poll r0.evented e))
          h
  ]

  add_waiting_lem :
      (r : Registrant W) (interest : Interest) (w : W)
      → ((add_waiting r interest w).evented ≡ r.evented)
        × ((add_waiting r interest w).is_first ≡ r.is_first)
  unfolding add_waiting
  add_waiting_lem r read w = (refl, refl)
  add_waiting_lem r write w = (refl, refl)

  add_waiting-interest :
      (r : Registrant W) (interest : Interest) (w : W)
      → length (add_waiting r interest w).read_waitings == 1
          || length (add_waiting r interest w).write_waitings == 1
        ≡ false
      → mio_interest (add_waiting r interest w) ≡ mio_interest r
  unfolding add_waiting mio_interest
  add_waiting-interest r read w e = ground (arith, more_than_one r.read_waitings w, e)
  add_waiting-interest r write w e = ground (arith, more_than_one r.write_waitings w, e)

  monitored-IsArmed :
      (p : Poller W R M.Poll S.Map) (token : ℕ) (interest : Interest) (notifier : W)
      → (handle_request M S p (monitor token interest notifier)).0 ≡ ok tt
      → IsArmed M S none_exempt p
      → IsArmed M S none_exempt (handle_request M S p (monitor token interest notifier)).1
  unfolding handle_request
  monitored-IsArmed p token interest notifier done h =
      elim (Option-cases (get p.registrants token)) [
        | inl gone ↦ absurd (ground (arith, done, gone))
        | inr (r0, at_t) ↦
            let r' = add_waiting r0 interest notifier in
            let (evented, first) = add_waiting_lem r0 interest notifier in
            elim (Bool-cases (length r'.read_waitings == 1 || length r'.write_waitings == 1)) [
              | inl again ↦
                  let is : handle_request M S p (monitor token interest notifier)
                      ≡ register_again M S p token r' =
                    ground (arith, at_t, again) in
                  subst (λ x. IsArmed M S none_exempt x.1) (sym is)
                    (register_again-IsArmed M S none_exempt none_exempt p token r0 r' at_t evented
                      first (λ j a b. b) (ap (λ x. x.0) (sym is) ∙ done) h)
              | inr kept ↦
                  kept-IsArmed p _ token r0 r' at_t (ground (arith, at_t, kept))
                    (ground (arith, at_t, kept)) evented first
                    (add_waiting-interest r0 interest notifier kept) h
            ]
      ]

  pub unmoved-IsArmed :
      (p p' : Poller W R M.Poll S.Map)
      → p'.registrants ≡ p.registrants
      → p'.os_poll ≡ p.os_poll
      → IsArmed M S none_exempt p
      → IsArmed M S none_exempt p'
  unmoved-IsArmed p p' same same_os h = record {
    armed = λ j r e wanted free. ground (arith, ap (λ m. get m j) same, same_os, h.armed j r);
    apart = λ j k r1 r2 e f q.
        ground (arith, ap (λ m. get m j) same, ap (λ m. get m k) same, h.apart j k r1 r2);
    first = λ j r e f. ground (arith, ap (λ m. get m j) same, same_os, h.first j r);
    known = λ e u i q.
        let (r, at_u, q1) = h.known e u i (ground (arith, same_os, q)) in
        (r, ground (arith, ap (λ m. get m u) same, at_u), q1);
  }

  -- Every request that succeeds keeps the registry: each registrant that somebody waits for is armed
  -- with mio for just what is waited for, each has an object of its own, and mio knows those alone. The
  -- object of a new registrant must not be another registrant's.
  pub handle_request-IsArmed :
      (p : Poller W R M.Poll S.Map) (q : Request W R)
      → IsProper p q
      → (handle_request M S p q).0 ≡ ok tt
      → IsArmed M S none_exempt p
      → IsArmed M S none_exempt (handle_request M S p q).1
  unfolding handle_request
  handle_request-IsArmed p (register evented reply) proper done h =
      elim (Option-cases (fresh_token M S p)) [
        | inl lost ↦ absurd (ground (arith, done, lost))
        | inr ((token, next), found) ↦
            let unused = fresh_token-unused p token next found in
            let is : (handle_request M S p (register evented reply)).1 ≡ record p {
              next_token = next;
              registrants = insert p.registrants token (new_registrant evented);
              effects = p.effects ++ replied reply token ∷ [];
            } =
              ground (arith, found) in
            subst (λ x. IsArmed M S none_exempt x) (sym is)
              (registered-IsArmed p evented token next reply unused proper h)
      ]
  handle_request-IsArmed p (deregister token) proper done h = deregistered-IsArmed p token done h
  handle_request-IsArmed p (monitor token interest notifier) proper done h =
      monitored-IsArmed p token interest notifier done h
  handle_request-IsArmed p (set_timeout timeout_id expiry_time reply) proper done h =
      unmoved-IsArmed p _ refl refl h
  handle_request-IsArmed p (cancel_timeout timeout_id expiry_time) proper done h =
      unmoved-IsArmed p _ refl refl h
