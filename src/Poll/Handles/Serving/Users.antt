-- ===== src/Poll/Handles/Serving/Users.antt =====
-- What the users of a poller send to it is in order (src/io/poll/poller.rs).
use fibers_rs.Prelude.{
  ℕ, ◌+◌, ◌<◌, ◌≤◌, ◌≡◌, ◌≢◌, refl, subst, ap, ◌∙◌, none, some, List, [], ◌∷◌, ◌++◌, All, count,
  count_by-append, arith, inl, inr, Option-cases, ◌==◌,
}
use fibers_rs.Prelude.Usize.{wrapping_add, usize_mod}
use fibers_rs.Collections.Tree.{SplayMap}
use fibers_rs.Collections.ListMap.{key_ord}
use fibers_rs.Collections.Laws.{find}
use fibers_rs.Poll.Mio.{Mio}
use fibers_rs.Poll.Poller.{
  Poller, Request, Interest, register, deregister, monitor, set_timeout, cancel_timeout,
}
use fibers_rs.Poll.Handles as Handles
use fibers_rs.Poll.Handles.{Polling, CancelTimeout, send, new_handle, drop_handle, cancel}
use fibers_rs.Poll.Handles.Orderly.{
  All-append, MayFollow, Spares, token_of, timeout_of, IsFitting, IsOrderly, IsOrderly-append,
  IsKept-IsOrderly,
}
use fibers_rs.Poll.Handles.Serving.{IsInOrder}

count-split :
    (t token : ℕ) (before after : List ℕ)
    → count t (before ++ token ∷ after) ≡ count t (token ∷ []) + count t (before ++ after)
count-split t token before after = omega (
  arith,
  count_by-append (λ j. j == t) before (token ∷ after),
  count_by-append (λ j. j == t) before after,
)

counts_itself : (t u : ℕ) → t ≡ u → count u (t ∷ []) ≡ 1
counts_itself t u e = ground (arith, e)

module _ {W R IoError : Type 0} (M : Mio IoError) (S : SplayMap (ℕ × ℕ) R key_ord) where
  -- A request is sent.
  pub send-IsInOrder :
      (w : Polling W R M.Poll S.Map) (q : Request W R)
      → IsFitting M S w.poller w.next_timeout_id q
      → All (λ e. MayFollow e q) w.poller.requests
      → ((t : ℕ) → 0 < count t w.handles → Spares t q)
      → IsInOrder M S w
      → IsInOrder M S (send w q)
  unfolding send
  send-IsInOrder w q fit follow spared h = record {
    orderly =
        IsKept-IsOrderly M S w.poller (send w q).poller w.next_timeout_id w.next_timeout_id
          (w.poller.requests ++ q ∷ []) (record { live = λ t e. e; timed = λ k e. e }) (omega arith)
          (IsOrderly-append M S w.poller w.next_timeout_id w.poller.requests q fit follow
            h.orderly);
    named = λ t held.
        let (live, spares) = h.named t held in
        (live, All-append (Spares t) w.poller.requests q spares (spared t held));
    once = h.once;
    numbered = h.numbered;
  }

  MayFollow-by :
      (e q : Request W R)
      → ((t : ℕ) → token_of q ≡ some t → Spares t e)
      → ((i : ℕ) → timeout_of q ≡ some i → timeout_of e ≢ some i)
      → MayFollow e q
  MayFollow-by (register evented reply) q spares apart = tt
  MayFollow-by (deregister t) q spares apart = λ is. spares t is refl
  MayFollow-by (monitor t interest notifier) q spares apart = tt
  MayFollow-by (set_timeout i time reply) q spares apart = λ is. apart i is refl
  MayFollow-by (cancel_timeout i time) q spares apart = tt

  All-MayFollow :
      (es : List (Request W R)) (q : Request W R)
      → ((t : ℕ) → token_of q ≡ some t → All (Spares t) es)
      → ((i : ℕ) → timeout_of q ≡ some i → All (λ e. timeout_of e ≢ some i) es)
      → All (λ e. MayFollow e q) es
  All-MayFollow [] q spares apart = tt
  All-MayFollow (e ∷ es) q spares apart = (
    MayFollow-by e q (λ t is. (spares t is).0) (λ i is. (apart i is).0),
    All-MayFollow es q (λ t is. (spares t is).1) (λ i is. (apart i is).1),
  )

  -- A new timeout has another number than those that are still to be set.
  unset :
      (p : Poller W R M.Poll S.Map) (next i : ℕ) (es : List (Request W R))
      → next ≤ i
      → IsOrderly M S p next es
      → All (λ e. timeout_of e ≢ some i) es
  unset p next i [] le h = tt
  unset p next i (register evented reply ∷ es) le (fit, _, h) =
      ((λ e. ground (arith, e)), unset p next i es le h)
  unset p next i (deregister t ∷ es) le (fit, _, h) =
      ((λ e. ground (arith, e)), unset p next i es le h)
  unset p next i (monitor t interest notifier ∷ es) le (fit, _, h) =
      ((λ e. ground (arith, e)), unset p next i es le h)
  unset p next i (set_timeout j time reply ∷ es) le ((below, _), _, h) =
      ((λ e. ground (arith, e, below, le)), unset p next i es le h)
  unset p next i (cancel_timeout j time ∷ es) le (fit, _, h) =
      ((λ e. ground (arith, e)), unset p next i es le h)

  fewer_handles :
      (w : Polling W R M.Poll S.Map) (handles : List ℕ)
      → ((t : ℕ) → count t handles ≤ count t w.handles)
      → IsInOrder M S w
      → IsInOrder M S (record w { handles = handles })
  fewer_handles w handles fewer h = record {
    orderly = h.orderly;
    named = λ t held. h.named t (omega (arith, held, fewer t));
    once = λ t. omega (arith, fewer t, h.once t);
    numbered = h.numbered;
  }

  pub drops-IsInOrder :
      (w : Polling W R M.Poll S.Map) (token : ℕ) (before after : List ℕ)
      → w.handles ≡ before ++ token ∷ after
      → IsInOrder M S w
      → IsInOrder M S (drop_handle w token (before ++ after))
  unfolding drop_handle send
  drops-IsInOrder w token before after is h =
      let left = before ++ after in
      let total : (t : ℕ) → count t w.handles ≡ count t (token ∷ []) + count t left =
        λ t. ap (count t) is ∙ count-split t token before after in
      let (live, spares) =
        h.named token (omega (arith, total token, counts_itself token token refl)) in
      let w1 : Polling W R M.Poll S.Map = record w { handles = left } in
      let h1 : IsInOrder M S w1 = fewer_handles w left (λ t. omega (arith, total t)) h in
      send-IsInOrder w1 (deregister token) live
        (All-MayFollow w.poller.requests (deregister token)
          (λ t e. subst (λ u. All (Spares u) w.poller.requests) (ground (arith, e)) spares)
          (λ i e. absurd (ground (arith, e))))
        (λ t held e. omega (arith, held, total t, counts_itself token t e, h.once t)) h1

  pub sets-IsInOrder :
      (w : Polling W R M.Poll S.Map) (now delay_from_now : ℕ) (tx : R)
      → w.next_timeout_id + 1 < usize_mod
      → IsInOrder M S w
      → IsInOrder M S (Handles.set_timeout w now delay_from_now tx).1
  unfolding Handles.set_timeout send
  sets-IsInOrder w now delay_from_now tx fits h =
      let i = w.next_timeout_id in
      let q : Request W R = set_timeout i (now + delay_from_now) tx in
      let more : wrapping_add i 1 ≡ i + 1 = omega (arith, fits) in
      let w1 : Polling W R M.Poll S.Map = record w { next_timeout_id = wrapping_add i 1 } in
      let h1 : IsInOrder M S w1 = record {
        orderly =
            IsKept-IsOrderly M S w.poller w.poller i (wrapping_add i 1) w.poller.requests
              (record { live = λ t e. e; timed = λ k e. e }) (omega (arith, more)) h.orderly;
        named = h.named;
        once = h.once;
        numbered = λ k r e. omega (arith, more, h.numbered k r e);
      } in
      let absent : (t : ℕ) → find S w.poller.timeout_queue (t, i) ≡ none = λ t.
        elim (Option-cases (find S w.poller.timeout_queue (t, i))) [
          | inl e ↦ e
          | inr (r, e) ↦ absurd (omega (arith, h.numbered (t, i) r e))
        ] in
      send-IsInOrder w1 q (omega (arith, more), absent)
        (All-MayFollow w.poller.requests q (λ t e. absurd (ground (arith, e)))
          (λ j e. unset w.poller i j w.poller.requests (ground (arith, e)) h.orderly))
        (λ t held. tt) h1

  pub nameless :
      (w : Polling W R M.Poll S.Map) (q : Request W R)
      → token_of q ≡ none
      → timeout_of q ≡ none
      → All (λ e. MayFollow e q) w.poller.requests
  nameless w q no_token no_timeout =
      All-MayFollow w.poller.requests q (λ t e. absurd (ground (arith, e, no_token)))
        (λ i e. absurd (ground (arith, e, no_timeout)))

  pub monitors-IsInOrder :
      (w : Polling W R M.Poll S.Map) (token : ℕ) (interest : Interest) (monitored : W)
      → 0 < count token w.handles
      → IsInOrder M S w
      → IsInOrder M S (Handles.monitor w token interest monitored)
  unfolding Handles.monitor
  monitors-IsInOrder w token interest monitored held h =
      let (live, spares) = h.named token held in
      let q : Request W R = monitor token interest monitored in
      send-IsInOrder w q live
        (All-MayFollow w.poller.requests q
          (λ t e. subst (λ u. All (Spares u) w.poller.requests) (ground (arith, e)) spares)
          (λ i e. absurd (ground (arith, e))))
        (λ t held. tt) h
