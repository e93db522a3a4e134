-- ===== src/Poll/Handles/Serving/Taken.antt =====
-- What stays in order when the poller takes a request (src/io/poll/poller.rs, `handle_request`).
use fibers_rs.Prelude.{
  ℕ, ◌<◌, ◌≡◌, ◌≢◌, refl, sym, subst, ap, ◌∙◌, true, none, some, List, ◌∷◌, All, length, arith,
  ◌||◌, inl, inr, ◌⊎◌, Option-cases, Bool-cases, ◌==◌,
}
use fibers_rs.Prelude.HashMap.{contains_key, remove, insert, get, get-insert, contains_key-remove}
use fibers_rs.Collections.Tree.{SplayMap}
use fibers_rs.Collections.ListMap.{key_ord}
use fibers_rs.Collections.Laws.{find, push_if_absent_lem, remove_key_lem}
use fibers_rs.Poll.Mio.{Mio}
use fibers_rs.Poll.Poller.{
  Poller, Request, Registrant, register, deregister, monitor, set_timeout, cancel_timeout,
  handle_request, register_again, add_waiting, mio_register,
}
use fibers_rs.Poll.Handles.{Polling}
use fibers_rs.Poll.Handles.Orderly.{
  MayFollow, Spares, timeout_of, IsFitting, IsOrderly, IsOrderly-map, IsKept, IsKept-IsFitting,
  IsKept-IsOrderly,
}
use fibers_rs.Poll.Handles.Serving.{IsRegister, registering, IsInOrder}

module _ {W R IoError : Type 0} (M : Mio IoError) (S : SplayMap (ℕ × ℕ) R key_ord) where
  pub IsKept-IsInOrder :
      (w : Polling W R M.Poll S.Map) (p' : Poller W R M.Poll S.Map)
      → IsKept M S w.poller p'
      → p'.requests ≡ w.poller.requests
      → IsInOrder M S w
      → IsInOrder M S (record w { poller = p' })
  IsKept-IsInOrder w p' kept same h = record {
    orderly = subst (IsOrderly M S p' w.next_timeout_id) (sym same) (
        IsKept-IsOrderly M S w.poller p' w.next_timeout_id w.next_timeout_id w.poller.requests kept
          (omega arith) h.orderly);
    named = λ t held.
        let (live, spares) = h.named t held in
        (kept.live t live, subst (All (Spares t)) (sym same) spares);
    once = h.once;
    numbered = λ k r e. elim (Option-cases (find S w.poller.timeout_queue k)) [
      | inl gone ↦ absurd (ground (arith, e, kept.timed k gone))
      | inr (r', there) ↦ h.numbered k r' there
    ];
  }

  -- The poller has taken the first request and handled it.
  pub record Taken (w : Polling W R M.Poll S.Map) (q : Request W R) (rest : List (Request W R))
      (p' : Poller W R M.Poll S.Map) : Type 0 where
    pub requests : p'.requests ≡ rest
    pub fitting :
        (e : Request W R)
        → MayFollow q e
        → IsFitting M S w.poller w.next_timeout_id e
        → IsFitting M S p' w.next_timeout_id e
    pub live :
        (t : ℕ)
        → Spares t q
        → contains_key w.poller.registrants t ≡ true
        → contains_key p'.registrants t ≡ true
    pub timed :
        (k : ℕ × ℕ) (r : R)
        → find S p'.timeout_queue k ≡ some r
        → (timeout_of q ≡ some k.1) ⊎ ((r' : R) × (find S w.poller.timeout_queue k ≡ some r'))

  below_next :
      (w : Polling W R M.Poll S.Map) (q : Request W R) (i : ℕ)
      → IsFitting M S w.poller w.next_timeout_id q
      → timeout_of q ≡ some i
      → i < w.next_timeout_id
  below_next w (set_timeout j time reply) i (below, _) e =
      subst (λ k. k < w.next_timeout_id) (ground (arith, e)) below
  below_next w (register evented reply) i fit e = absurd (ground (arith, e))
  below_next w (deregister t) i fit e = absurd (ground (arith, e))
  below_next w (monitor t interest notifier) i fit e = absurd (ground (arith, e))
  below_next w (cancel_timeout j time) i fit e = absurd (ground (arith, e))

  pub Taken-IsInOrder :
      (w : Polling W R M.Poll S.Map) (q : Request W R) (rest : List (Request W R))
      (p' : Poller W R M.Poll S.Map)
      → w.poller.requests ≡ q ∷ rest
      → Taken w q rest p'
      → IsInOrder M S w
      → IsInOrder M S (record w { poller = p' })
  Taken-IsInOrder w q rest p' is taken h =
      let (fit, follow, orderly) = subst (IsOrderly M S w.poller w.next_timeout_id) is h.orderly in
      record {
        orderly = subst (IsOrderly M S p' w.next_timeout_id) (sym taken.requests) (
            IsOrderly-map M S w.poller p' w.next_timeout_id w.next_timeout_id (MayFollow q) rest
              taken.fitting follow orderly);
        named = λ t held.
            let (live, spares) = h.named t held in
            let (spare, others) = subst (All (Spares t)) is spares in
            (taken.live t spare live, subst (All (Spares t)) (sym taken.requests) others);
        once = h.once;
        numbered = λ k r e. elim (taken.timed k r e) [
          | inl set_now ↦ below_next w q k.1 fit set_now
          | inr (r', there) ↦ h.numbered k r' there
        ];
      }

  deregister-Taken :
      (w : Polling W R M.Poll S.Map) (t : ℕ) (rest : List (Request W R))
      (p' : Poller W R M.Poll S.Map)
      → p'.requests ≡ rest
      → p'.timeout_queue ≡ w.poller.timeout_queue
      → ((j : ℕ)
          → j ≢ t
          → contains_key w.poller.registrants j ≡ true
          → contains_key p'.registrants j ≡ true)
      → Taken w (deregister t) rest p'
  deregister-Taken w t rest p' requests same left = record {
    requests = requests;
    fitting = by_request;
    live = λ j spare e. left j (λ is. spare (sym is)) e;
    timed = λ k r e. inr (r, subst (λ h. find S h k ≡ some r) same e);
  }
    where
      by_request :
          (e : Request W R)
          → MayFollow (deregister t) e
          → IsFitting M S w.poller w.next_timeout_id e
          → IsFitting M S p' w.next_timeout_id e
      by_request (register evented reply) apart fit = tt
      by_request (deregister j) apart fit = left j (λ is. apart (ap some is)) fit
      by_request (monitor j interest notifier) apart fit = left j (λ is. apart (ap some is)) fit
      by_request (set_timeout i time reply) apart (below, absent) =
          (below, λ u. subst (λ h. find S h (u, i) ≡ none) (sym same) (absent u))
      by_request (cancel_timeout i time) apart fit = tt

  pub IsKept-Taken :
      (w : Polling W R M.Poll S.Map) (q : Request W R) (rest : List (Request W R))
      (p' : Poller W R M.Poll S.Map)
      → p'.requests ≡ rest
      → IsKept M S w.poller p'
      → Taken w q rest p'
  IsKept-Taken w q rest p' requests kept = record {
    requests = requests;
    fitting = λ e follow.
        IsKept-IsFitting M S w.poller p' w.next_timeout_id w.next_timeout_id kept (omega arith) e;
    live = λ j spare e. kept.live j e;
    timed = λ k r e. elim (Option-cases (find S w.poller.timeout_queue k)) [
      | inl gone ↦ absurd (ground (arith, e, kept.timed k gone))
      | inr (r', there) ↦ inr (r', there)
    ];
  }

  set_timeout-Taken :
      (w : Polling W R M.Poll S.Map) (i time : ℕ) (reply : R) (rest : List (Request W R))
      (p' : Poller W R M.Poll S.Map)
      → p'.requests ≡ rest
      → p'.registrants ≡ w.poller.registrants
      → ((k : ℕ × ℕ) → k.1 ≢ i → find S p'.timeout_queue k ≡ find S w.poller.timeout_queue k)
      → Taken w (set_timeout i time reply) rest p'
  set_timeout-Taken w i time reply rest p' requests same others = record {
    requests = requests;
    fitting = by_request;
    live = λ j spare e. subst (λ m. contains_key m j ≡ true) (sym same) e;
    timed = λ k r e. elim (Bool-cases (k.1 == i)) [
      | inl is ↦ inl (ap some (ground (arith, is)))
      | inr apart ↦ inr (r, sym (others k (λ q. ground (arith, q, apart))) ∙ e)
    ];
  }
    where
      by_request :
          (e : Request W R)
          → MayFollow (set_timeout i time reply) e
          → IsFitting M S w.poller w.next_timeout_id e
          → IsFitting M S p' w.next_timeout_id e
      by_request (register evented r) apart fit = tt
      by_request (deregister j) apart fit = subst (λ m. contains_key m j ≡ true) (sym same) fit
      by_request (monitor j interest notifier) apart fit =
          subst (λ m. contains_key m j ≡ true) (sym same) fit
      by_request (set_timeout j t r) apart (below, absent) =
          (below, λ u. others (u, j) (λ is. apart (ap some is)) ∙ absent u)
      by_request (cancel_timeout j t) apart fit = tt

  insert-live :
      (p : Poller W R M.Poll S.Map) (t j : ℕ) (r : Registrant W)
      → contains_key p.registrants j ≡ true
      → contains_key (insert p.registrants t r) j ≡ true
  unfolding contains_key
  insert-live p t j r e = ground (arith, e, get-insert p.registrants t r j)

  pub insert-IsKept :
      (p : Poller W R M.Poll S.Map) (t : ℕ) (r : Registrant W) (p' : Poller W R M.Poll S.Map)
      → p'.registrants ≡ insert p.registrants t r
      → p'.timeout_queue ≡ p.timeout_queue
      → IsKept M S p p'
  insert-IsKept p t r p' regs same = record {
    live = λ j e. subst (λ m. contains_key m j ≡ true) (sym regs) (insert-live p t j r e);
    timed = λ k e. subst (λ h. find S h k ≡ none) (sym same) e;
  }

  -- `register_again` puts the registrant back.
  pub register_again-IsKept :
      (p p0 : Poller W R M.Poll S.Map) (t : ℕ) (r : Registrant W)
      → p0.registrants ≡ p.registrants
      → p0.timeout_queue ≡ p.timeout_queue
      → IsKept M S p (register_again M S p0 t r).1
        × ((register_again M S p0 t r).1.requests ≡ p0.requests)
  unfolding register_again
  register_again-IsKept p p0 t r regs same = (
    insert-IsKept p t (mio_register M S p0.os_poll t r).2 (register_again M S p0 t r).1
        (ap (λ m. insert m t (mio_register M S p0.os_poll t r).2) regs) same,
    refl,
  )

  pub handle_request-Taken :
      (w : Polling W R M.Poll S.Map) (q : Request W R) (rest : List (Request W R))
      → ¬ IsRegister q
      → Taken w q rest (handle_request M S (record (w.poller) { requests = rest }) q).1
  unfolding handle_request
  handle_request-Taken w (register evented reply) rest other =
      absurd (other (registering evented reply))
  handle_request-Taken w (deregister t) rest other =
      let p0 = record (w.poller) { requests = rest } in
      elim (Option-cases (get w.poller.registrants t)) [
        | inl gone ↦
            rw (handle_request, gone) (deregister-Taken w t rest p0 refl refl (λ j apart e. e))
        | inr (r, there) ↦ elim (Bool-cases r.is_first) [
          | inl is_first ↦
              rw (handle_request, there, is_first)
                (deregister-Taken w t rest _ refl refl (removed t))
          | inr registered ↦
              rw (handle_request, there, registered)
                (deregister-Taken w t rest _ refl refl (removed t))
        ]
      ]
    where
      removed :
          (u j : ℕ)
          → j ≢ u
          → contains_key w.poller.registrants j ≡ true
          → contains_key (remove w.poller.registrants u) j ≡ true
      removed u j apart e = ground (arith, e, apart, contains_key-remove w.poller.registrants u j)
  handle_request-Taken w (monitor t interest notifier) rest other =
      let p0 = record (w.poller) { requests = rest } in
      let q : Request W R = monitor t interest notifier in
      elim (Option-cases (get w.poller.registrants t)) [
        | inl gone ↦
            rw (handle_request, gone)
              (IsKept-Taken w q rest p0 refl (record { live = λ j e. e; timed = λ k e. e }))
        | inr (r, there) ↦
            let r' = add_waiting r interest notifier in
            let (kept, same) = register_again-IsKept w.poller p0 t r' refl refl in
            elim (Bool-cases (length r'.read_waitings == 1 || length r'.write_waitings == 1)) [
              | inl again ↦ rw (handle_request, there, again) (IsKept-Taken w q rest _ same kept)
              | inr enough ↦
                  rw (handle_request, there, enough)
                    (IsKept-Taken w q rest _ refl (insert-IsKept w.poller t r' _ refl refl))
            ]
      ]
  handle_request-Taken w (set_timeout i time reply) rest other =
      set_timeout-Taken w i time reply rest _ refl refl (λ k apart.
        ground (arith, apart, (push_if_absent_lem S w.poller.timeout_queue (time, i) reply).1 k))
  handle_request-Taken w (cancel_timeout i time) rest other =
      IsKept-Taken w (cancel_timeout i time) rest _ refl (record {
        live = λ t e. e;
        timed = λ k e. ground (arith, e, (remove_key_lem S w.poller.timeout_queue (time, i)).1 k);
      })
