-- ===== src/Poll/Handles/Running/Forever.antt =====
-- A poller that is polled again and again serves its users (src/io/poll/poller.rs).
use fibers_rs.Prelude.{
  ℕ, ◌+◌, ◌<◌, ◌≡◌, ◌≢◌, refl, sym, subst, ap, ◌∙◌, none, some, Option, List, [], ◌∷◌, ◌++◌, All,
  arith,
}
use fibers_rs.Prelude.HashMap.{get, len}
use fibers_rs.Prelude.Usize.{usize_mod}
use fibers_rs.Prelude.Results.{Result, ok}
use fibers_rs.Collections.Tree.{SplayMap}
use fibers_rs.Collections.ListMap.{key_ord}
use fibers_rs.Poll.Mio.{Mio}
use fibers_rs.Poll.Poller.{
  Poller, Request, Fail, register, deregister, monitor, set_timeout, cancel_timeout, poll,
}
use fibers_rs.Poll.Poller.Waiting.{IsArmed}
use fibers_rs.Poll.Poller.Events.{Handled, done, failed}
use fibers_rs.Poll.Poller.Requests.{none_exempt, unmoved-IsArmed}
use fibers_rs.Poll.Poller.Whole.{IsNext, poll-Handled}
use fibers_rs.Poll.Handles as Handles
use fibers_rs.Poll.Handles.{Polling, drop_handle, cancel, new_handle, send}
use fibers_rs.Poll.Handles.Serving as Serving
use fibers_rs.Poll.Handles.Serving.{
  IsInOrder, serves, expires, polls, handles_event, IsRegister, registering,
}
use fibers_rs.Poll.Handles.Serving.Served.{Step-IsInOrder, Reach-IsInOrder}
use fibers_rs.Poll.Handles.Orderly.{IsOrderly}
use fibers_rs.Poll.Handles.Running.{
  object_of, Turn, registers, monitors, drops, sets, cancels, polled, new_poller, Reach, new, later,
}
use fibers_rs.Poll.Handles.Running.Owned.{IsOwned, IsOwned-append}
use fibers_rs.Poll.Handles.Running.Polled.{IsServing, poll-Kept}

module _ {W R IoError : Type 0} (M : Mio IoError) (S : SplayMap (ℕ × ℕ) R key_ord) where
  -- The next request is in order, and registers a new object if it registers one.
  serving-IsNext :
      (w : Polling W R M.Poll S.Map) (qs : List (Request W R))
      → w.poller.requests ≡ qs
      → len w.poller.registrants < usize_mod
      → IsServing M S w
      → IsNext M S w.poller qs
  serving-IsNext w [] is room h = tt
  serving-IsNext w (register evented reply ∷ rest) is room h =
      let (fresh, _, _) = subst (IsOwned w.poller.registrants) is h.owned in
      ((h.token, room), fresh)
  serving-IsNext w (deregister t ∷ rest) is room h =
      let (fit, _, _) = subst (IsOrderly M S w.poller w.next_timeout_id) is h.order.orderly in
      (fit, tt)
  serving-IsNext w (monitor t interest notifier ∷ rest) is room h =
      let (fit, _, _) = subst (IsOrderly M S w.poller w.next_timeout_id) is h.order.orderly in
      (fit, tt)
  serving-IsNext w (set_timeout i time reply ∷ rest) is room h =
      let (fit, _, _) = subst (IsOrderly M S w.poller w.next_timeout_id) is h.order.orderly in
      (fit.1 time, tt)
  serving-IsNext w (cancel_timeout i time ∷ rest) is room h = (tt, tt)

  poll-IsServing :
      (w : Polling W R M.Poll S.Map) (now : ℕ) (timeout : Option ℕ)
      → len w.poller.registrants < usize_mod
      → IsServing M S w
      → Handled M S (poll M S w.poller now timeout)
  poll-IsServing w now timeout room h =
      poll-Handled M S w.poller now timeout (serving-IsNext w w.poller.requests refl room h) h.armed

  still-IsArmed :
      (x : Result (Unit {0}) (Fail IoError) × Poller W R M.Poll S.Map)
      → x.0 ≡ ok tt
      → Handled M S x
      → IsArmed M S none_exempt x.1
  still-IsArmed x good (done _ armed) = armed
  still-IsArmed x good (failed e bad) = absurd (ground (arith, good, bad))

  -- `v` is `w` after a request has been sent.
  sent-IsServing :
      (w v : Polling W R M.Poll S.Map) (q : Request W R)
      → v.poller ≡ record (w.poller) { requests = w.poller.requests ++ q ∷ [] }
      → IsInOrder M S v
      → IsOwned w.poller.registrants (q ∷ [])
      → ((e : ℕ) → object_of q ≡ some e → All (λ x. object_of x ≢ some e) w.poller.requests)
      → IsServing M S w
      → IsServing M S v
  sent-IsServing w v q is order own new_one h = record {
    order = order;
    armed =
        unmoved-IsArmed M S w.poller v.poller (ap (λ p. p.registrants) is) (ap (λ p. p.os_poll) is)
          h.armed;
    owned =
        subst (λ p. IsOwned p.registrants p.requests) (sym is)
          (IsOwned-append w.poller.registrants w.poller.requests q own new_one h.owned);
    token = subst (λ p. p.next_token < usize_mod) (sym is) h.token;
  }

  -- Every step of a user, and every `poll` that succeeds, keeps the poller serving.
  pub Turn-IsServing :
      {w v : Polling W R M.Poll S.Map} → Turn M S w v → IsServing M S w → IsServing M S v
  unfolding Handles.register Handles.monitor drop_handle Handles.set_timeout cancel send
  Turn-IsServing (registers w evented reply fresh other) h =
      sent-IsServing w _ (register evented reply) refl
        (Step-IsInOrder M S (Serving.registers w evented reply) h.order) (fresh, tt, tt)
        (λ e is.
          subst (λ x. All (λ q. object_of q ≢ some x) w.poller.requests) (ground (arith, is)) other)
        h
  Turn-IsServing (monitors w token interest monitored held) h =
      sent-IsServing w _ (monitor token interest monitored) refl
        (Step-IsInOrder M S (Serving.monitors w token interest monitored held) h.order) tt
        (λ e is. absurd (ground (arith, is))) h
  Turn-IsServing (drops w token before after is) h =
      sent-IsServing w _ (deregister token) refl
        (Step-IsInOrder M S (Serving.drops w token before after is) h.order) tt
        (λ e same. absurd (ground (arith, same))) h
  Turn-IsServing (sets w now delay_from_now tx fits) h =
      sent-IsServing w _ (set_timeout w.next_timeout_id (now + delay_from_now) tx) refl
        (Step-IsInOrder M S (Serving.sets w now delay_from_now tx fits) h.order) tt
        (λ e is. absurd (ground (arith, is))) h
  Turn-IsServing (cancels w c) h =
      sent-IsServing w _ (cancel_timeout c.timeout_id c.expiry_time) refl
        (Step-IsInOrder M S (Serving.cancels w c) h.order) tt (λ e is. absurd (ground (arith, is)))
        h
  Turn-IsServing (polled w now timeout room good) h =
      let (order, owned, token) = poll-Kept M S w now timeout room h in
      record {
        order = order;
        armed =
            still-IsArmed (poll M S w.poller now timeout) good
              (poll-IsServing w now timeout room h);
        owned = owned;
        token = token;
      }

  new-IsServing :
      (os_poll : M.Poll) (p : Poller W R M.Poll S.Map)
      → ((e : ℕ) → M.armed os_poll e ≡ none)
      → new_poller M S (ok os_poll) ≡ ok p
      → IsServing M S (record { poller = p; next_timeout_id = 0; handles = [] })
  unfolding new_poller get
  new-IsServing os_poll p no_object made =
      let no_request : p.requests ≡ [] = ground (arith, made) in
      let no_registrant : p.registrants ≡ [] = ground (arith, made) in
      let os : p.os_poll ≡ os_poll = ground (arith, made) in
      let queue : p.timeout_queue.inner ≡ S.new = ground (arith, made) in
      let unknown : (e : ℕ) → M.armed p.os_poll e ≡ none =
        λ e. ap (λ o. M.armed o e) os ∙ no_object e in
      record {
        order = Reach-IsInOrder M S (
            Serving.new (record { poller = p; next_timeout_id = 0; handles = [] }) no_request refl
              (λ k. ap (λ m. S.get m k) queue ∙ S.get-new k));
        armed = record {
          armed = λ t r e wanted free. absurd (ground (arith, e, no_registrant));
          apart = λ t u r s e f same. absurd (ground (arith, e, no_registrant));
          first = λ t r e is. unknown r.evented;
          known = λ e t i q. absurd (ground (arith, q, unknown e));
        };
        owned = subst (IsOwned p.registrants) (sym no_request) tt;
        token = ground (arith, made);
      }

  Reach-IsServing : {w : Polling W R M.Poll S.Map} → Reach M S w → IsServing M S w
  Reach-IsServing (new os_poll p no_object made) = new-IsServing os_poll p no_object made
  Reach-IsServing (later r st) = Turn-IsServing st (Reach-IsServing r)

  -- In every state that a new poller and its users can reach while every call of `poll` has succeeded, the
  -- next call of `poll` neither panics nor loops for ever: it succeeds, and leaves everybody who waits for
  -- an event armed with mio, or the operating system fails. About the calls after a failed one nothing is
  -- said. It is assumed that an object is registered once, that fewer than 2^64 timeouts are set, and that
  -- there are fewer than 2^64 registrants.
  pub Reach-poll :
      {w : Polling W R M.Poll S.Map}
      → Reach M S w
      → (now : ℕ) (timeout : Option ℕ) → len w.poller.registrants < usize_mod
      → Handled M S (poll M S w.poller now timeout)
  Reach-poll {w} r now timeout room = poll-IsServing w now timeout room (Reach-IsServing r)
