-- ===== src/Poll/Handles/Running/Owned.antt =====
-- Every registrant has an object of its own, and every request to register brings another one
-- (src/io/poll/poller.rs).
use fibers_rs.Prelude.{
  ℕ, ◌≡◌, ◌≢◌, refl, sym, subst, ap, ◌∙◌, some, List, [], ◌∷◌, ◌++◌, All, map, arith, inl, inr,
  ◌==◌, Option-cases, Bool-cases, length, ◌||◌,
}
use fibers_rs.Prelude.HashMap.{HashMap, get, insert, remove, get-insert, get-remove}
use fibers_rs.Collections.Tree.{SplayMap}
use fibers_rs.Collections.ListMap.{key_ord}
use fibers_rs.Poll.Mio.{Mio, Event}
use fibers_rs.Poll.Poller.{
  Poller, Request, Interest, read, write, Registrant, register, deregister, monitor, set_timeout,
  cancel_timeout, handle_request, handle_event, expire, fresh_token, register_again, mio_register,
  add_waiting, new_registrant, notified, without_notified, exited,
}
use fibers_rs.Poll.Poller.Events.{expire_lem}
use fibers_rs.Poll.Handles.Orderly.{All-append}
use fibers_rs.Poll.Handles.Running.{object_of}

module _ {W : Type 0} where
  -- No registrant's object.
  abbrev pub IsUnused : HashMap (Registrant W) → ℕ → Type 0
  IsUnused m evented = (t : ℕ) (r : Registrant W) → get m t ≡ some r → r.evented ≢ evented

  -- The second map has no other objects than the first one.
  abbrev pub Within : HashMap (Registrant W) → HashMap (Registrant W) → Type 0
  Within m m' =
      (t : ℕ) (r : Registrant W)
      → get m' t ≡ some r
      → (t0 : ℕ) × (r0 : Registrant W) × (get m t0 ≡ some r0) × (r0.evented ≡ r.evented)

  evented-add_waiting :
      (r : Registrant W) (i : Interest) (w : W) → r.evented ≡ (add_waiting r i w).evented
  unfolding add_waiting
  evented-add_waiting r read w = refl
  evented-add_waiting r write w = refl

module _ {W R : Type 0} where
  abbrev pub IsOwned : HashMap (Registrant W) → List (Request W R) → Type 0
  IsOwned m [] = Unit
  IsOwned m (register evented reply ∷ qs) =
      IsUnused m evented × All (λ q. object_of q ≢ some evented) qs × IsOwned m qs
  IsOwned m (deregister token ∷ qs) = IsOwned m qs
  IsOwned m (monitor token interest notifier ∷ qs) = IsOwned m qs
  IsOwned m (set_timeout timeout_id expiry_time reply ∷ qs) = IsOwned m qs
  IsOwned m (cancel_timeout timeout_id expiry_time ∷ qs) = IsOwned m qs

  Within-IsOwned :
      (m m' : HashMap (Registrant W)) (qs : List (Request W R))
      → Within m m'
      → IsOwned m qs
      → IsOwned m' qs
  Within-IsOwned m m' [] w h = tt
  Within-IsOwned m m' (register evented reply ∷ qs) w (fresh, apart, h) = (
    (λ t r e same. let (t0, r0, e0, q) = w t r e in fresh t0 r0 e0 (q ∙ same)),
    apart,
    Within-IsOwned m m' qs w h,
  )
  Within-IsOwned m m' (deregister token ∷ qs) w h = Within-IsOwned m m' qs w h
  Within-IsOwned m m' (monitor token interest notifier ∷ qs) w h = Within-IsOwned m m' qs w h
  Within-IsOwned m m' (set_timeout i time reply ∷ qs) w h = Within-IsOwned m m' qs w h
  Within-IsOwned m m' (cancel_timeout i time ∷ qs) w h = Within-IsOwned m m' qs w h

  -- A request is sent that registers nothing, or a new object.
  pub IsOwned-append :
      (m : HashMap (Registrant W)) (qs : List (Request W R)) (q : Request W R)
      → IsOwned m (q ∷ [])
      → ((e : ℕ) → object_of q ≡ some e → All (λ x. object_of x ≢ some e) qs)
      → IsOwned m qs
      → IsOwned m (qs ++ q ∷ [])
  IsOwned-append m [] q own new h = own
  IsOwned-append m (register evented reply ∷ qs) q own new (fresh, apart, h) = (
    fresh,
    All-append (λ x. object_of x ≢ some evented) qs q apart (λ is. (new evented is).0 refl),
    IsOwned-append m qs q own (λ e is. (new e is).1) h,
  )
  IsOwned-append m (deregister token ∷ qs) q own new h =
      IsOwned-append m qs q own (λ e is. (new e is).1) h
  IsOwned-append m (monitor token interest notifier ∷ qs) q own new h =
      IsOwned-append m qs q own (λ e is. (new e is).1) h
  IsOwned-append m (set_timeout i time reply ∷ qs) q own new h =
      IsOwned-append m qs q own (λ e is. (new e is).1) h
  IsOwned-append m (cancel_timeout i time ∷ qs) q own new h =
      IsOwned-append m qs q own (λ e is. (new e is).1) h

  -- A new registrant takes its object; the other requests bring other ones.
  insert-IsOwned :
      (m : HashMap (Registrant W)) (token evented : ℕ) (qs : List (Request W R))
      → All (λ q. object_of q ≢ some evented) qs
      → IsOwned m qs
      → IsOwned (insert m token (new_registrant evented)) qs
  unfolding new_registrant
  insert-IsOwned m token evented [] apart h = tt
  insert-IsOwned m token evented (register e reply ∷ qs) (other, apart) (fresh, away, h) = (
    (λ t r at_t same. elim (Bool-cases (token == t)) [
      | inl is ↦
          other (ground (arith, at_t, same, is, get-insert m token (new_registrant evented) t))
      | inr not_it ↦
          fresh t r (ground (arith, at_t, not_it, get-insert m token (new_registrant evented) t))
            same
    ]),
    away,
    insert-IsOwned m token evented qs apart h,
  )
  insert-IsOwned m token evented (deregister t ∷ qs) (_, apart) h =
      insert-IsOwned m token evented qs apart h
  insert-IsOwned m token evented (monitor t interest notifier ∷ qs) (_, apart) h =
      insert-IsOwned m token evented qs apart h
  insert-IsOwned m token evented (set_timeout i time reply ∷ qs) (_, apart) h =
      insert-IsOwned m token evented qs apart h
  insert-IsOwned m token evented (cancel_timeout i time ∷ qs) (_, apart) h =
      insert-IsOwned m token evented qs apart h

  put-IsOwned :
      (m : HashMap (Registrant W)) (t : ℕ) (r0 r : Registrant W) (qs : List (Request W R))
      → get m t ≡ some r0
      → r0.evented ≡ r.evented
      → IsOwned m qs
      → IsOwned (insert m t r) qs
  put-IsOwned m t r0 r qs at_t same = Within-IsOwned m (insert m t r) qs λ j s at_j.
      elim (Bool-cases (t == j)) [
        | inl is ↦ (t, r0, at_t, ground (arith, same, is, at_j, get-insert m t r j))
        | inr other ↦ (j, s, ground (arith, other, at_j, get-insert m t r j), refl)
      ]

  remove-IsOwned :
      (m : HashMap (Registrant W)) (t : ℕ) (qs : List (Request W R))
      → IsOwned m qs
      → IsOwned (remove m t) qs
  remove-IsOwned m t qs =
      Within-IsOwned m (remove m t) qs
        λ j r at_j. (j, r, ground (arith, at_j, get-remove m t j), refl)

module _ {W R IoError : Type 0} (M : Mio IoError) (S : SplayMap (ℕ × ℕ) R key_ord) where
  evented-mio_register :
      (q : M.Poll) (t : ℕ) (r : Registrant W) → r.evented ≡ (mio_register M S q t r).2.evented
  unfolding mio_register
  evented-mio_register q t r = ground arith

  -- `register_again` puts a registrant back with its object.
  register_again-IsOwned :
      (p : Poller W R M.Poll S.Map) (t : ℕ) (r0 r : Registrant W) (qs : List (Request W R))
      → get p.registrants t ≡ some r0
      → r0.evented ≡ r.evented
      → IsOwned p.registrants qs
      → IsOwned (register_again M S p t r).1.registrants qs
  unfolding register_again
  register_again-IsOwned p t r0 r qs at_t same =
      put-IsOwned p.registrants t r0 (mio_register M S p.os_poll t r).2 qs at_t
        (same ∙ evented-mio_register p.os_poll t r)

  pub handle_event-IsOwned :
      (p : Poller W R M.Poll S.Map) (e : Event) (qs : List (Request W R))
      → IsOwned p.registrants qs
      → IsOwned (handle_event M S p e).1.registrants qs
  unfolding handle_event without_notified
  handle_event-IsOwned p e qs h = elim (Option-cases (get p.registrants e.token)) [
    | inl gone ↦ rw (handle_event, gone) h
    | inr (r, there) ↦
        let p0 = record p { effects = p.effects ++ map exited (notified r e.readiness) } in
        rw (handle_event, there)
          (register_again-IsOwned p0 e.token r (without_notified r e.readiness) qs there refl h)
  ]

  pub expire-IsOwned :
      (p : Poller W R M.Poll S.Map) (now : ℕ) (qs : List (Request W R))
      → IsOwned p.registrants qs
      → IsOwned (expire M S p now).1.registrants qs
  expire-IsOwned p now qs h =
      subst (λ m. IsOwned m qs) (sym (ap (λ y. (y.1).registrants) (expire_lem M S p now).result)) h

  -- The poller handles a request.
  pub handle_request-IsOwned :
      (p : Poller W R M.Poll S.Map) (q : Request W R) (rest : List (Request W R))
      → IsOwned p.registrants (q ∷ rest)
      → IsOwned (handle_request M S (record p { requests = rest }) q).1.registrants rest
  unfolding handle_request
  handle_request-IsOwned p (register evented reply) rest (fresh, apart, h) =
      elim (Option-cases (fresh_token M S (record p { requests = rest }))) [
        | inl lost ↦ rw (handle_request, lost) h
        | inr ((token, next), found) ↦
            rw (handle_request, found) (insert-IsOwned p.registrants token evented rest apart h)
      ]
  handle_request-IsOwned p (deregister t) rest h = elim (Option-cases (get p.registrants t)) [
    | inl gone ↦ rw (handle_request, gone) h
    | inr (r, there) ↦ elim (Bool-cases r.is_first) [
      | inl is_first ↦ rw (handle_request, there, is_first) (remove-IsOwned p.registrants t rest h)
      | inr known ↦ rw (handle_request, there, known) (remove-IsOwned p.registrants t rest h)
    ]
  ]
  handle_request-IsOwned p (monitor t interest notifier) rest h =
      elim (Option-cases (get p.registrants t)) [
        | inl gone ↦ rw (handle_request, gone) h
        | inr (r, there) ↦
            let p0 = record p { requests = rest } in
            let r' = add_waiting r interest notifier in
            let same = evented-add_waiting r interest notifier in
            elim (Bool-cases (length r'.read_waitings == 1 || length r'.write_waitings == 1)) [
              | inl again ↦
                  rw (handle_request, there, again)
                    (register_again-IsOwned p0 t r r' rest there same h)
              | inr enough ↦
                  rw (handle_request, there, enough)
                    (put-IsOwned p.registrants t r r' rest there same h)
            ]
      ]
  handle_request-IsOwned p (set_timeout i time reply) rest h = h
  handle_request-IsOwned p (cancel_timeout i time) rest h = h
