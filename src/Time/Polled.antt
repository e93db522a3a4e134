-- ===== src/Time/Polled.antt =====
-- When timeouts expire (src/time.rs), and what is left of them (src/io/poll/poller.rs).
use fibers_rs.Prelude.{
  ℕ, ◌+◌, ◌-◌, ◌<◌, ◌≤◌, ◌≡◌, refl, subst, true, false, Option, none, some, [], ◌∷◌, ◌++◌, leb,
  arith, List, sym, ◌∙◌, ap, inl, inr, Bool-cases,
}
use fibers_rs.Prelude.Results.{Result, ok, err, Poll, ready, not_ready}
use fibers_rs.Collections.Tree.{SplayMap}
use fibers_rs.Collections.ListMap.{key_ord}
use fibers_rs.Collections.{heap_len, push_if_absent, remove_key}
use fibers_rs.Collections.Laws.{find, push_if_absent_lem, remove_key_lem}
use fibers_rs.Sync.Oneshot.{RecvError}
use fibers_rs.Poll.Mio.{Mio}
use fibers_rs.Poll.Poller as Pollers
use fibers_rs.Poll.Poller.{Poller, Request, Fail, handle_request}
use fibers_rs.Poll.Handles as Handles
use fibers_rs.Poll.Handles.{Polling, CancelTimeout, send}
use fibers_rs.Poll.Handles.Serving.{Reach}
use fibers_rs.Poll.Handles.Orderly.{IsOrderly}
use fibers_rs.Poll.Handles.Serving.Served.{Reach-IsInOrder}
use fibers_rs.Time.{
  Oneshots, PollerTimeout, Timeout, Moment, set_timeout, poll_inner, poll_set, poll,
}

module _ {R : Type 0} (O : Oneshots R) where
  open O use {World, Receiver, channel, poll_receiver}

  -- What the drop would cancel after a poll with this result: nothing, unless it is not ready.
  abbrev pub cancel_after : Poll (Unit {0}) RecvError → Option CancelTimeout → Option CancelTimeout
  cancel_after (ok not_ready) c = c
  cancel_after (ok (ready u)) c = none
  cancel_after (err e) c = none

  poll_inner_lem :
      (t : PollerTimeout Receiver) (w : World)
      → poll_inner O t w ≡ (
        (poll_receiver t.rx w).0,
        record {
          cancel_on_drop = cancel_after (poll_receiver t.rx w).0 t.cancel_on_drop;
          rx = (poll_receiver t.rx w).1;
        },
        (poll_receiver t.rx w).2,
      )
  unfolding poll_inner
  poll_inner_lem t w = by_result (poll_receiver t.rx w) refl
    where
      by_result :
          (x : Poll (Unit {0}) RecvError × Receiver × World)
          → poll_receiver t.rx w ≡ x
          → poll_inner O t w ≡ (
            (poll_receiver t.rx w).0,
            record {
              cancel_on_drop = cancel_after (poll_receiver t.rx w).0 t.cancel_on_drop;
              rx = (poll_receiver t.rx w).1;
            },
            (poll_receiver t.rx w).2,
          )
      by_result (err e, rx, w1) is = ground (arith, is)
      by_result (ok not_ready, rx, w1) is = ground (arith, is)
      by_result (ok (ready u), rx, w1) is = ground (arith, is)

  module _ {W P H : Type 0} where
    -- The outcomes of the first `poll`: the time has passed; no fiber polls; or a timeout is set at the
    -- poller, and its channel gives the result.
    pub data Polled (m : Moment) (t : Timeout Receiver) (p : Polling W R P H) (w : World)
        (x : Poll (Unit {0}) RecvError × Timeout Receiver × Polling W R P H × World) : Type 0 where
      has_passed :
          t.start + t.duration ≤ m.elapsed_at → x ≡ (ok (ready tt), t, p, w) → Polled m t p w x
      no_fiber : m.in_fiber ≡ false → x ≡ (ok not_ready, t, p, w) → Polled m t p w x
      newly_set :
          (expiry : ℕ) (p1 : Polling W R P H) (inner : PollerTimeout Receiver)
          → m.in_fiber ≡ true
          → m.elapsed_at < t.start + t.duration
          → expiry ≡ t.start + t.duration + (m.set_at - m.elapsed_at)
          → p1.poller.requests
            ≡ p.poller.requests ++ Pollers.set_timeout p.next_timeout_id expiry (channel w).0 ∷ []
          → inner.cancel_on_drop
            ≡ cancel_after
                (poll_receiver (channel w).1 (channel w).2).0
                (some (record { timeout_id = p.next_timeout_id; expiry_time = expiry }))
          → x ≡ (
            (poll_receiver (channel w).1 (channel w).2).0,
            record t { inner = some inner },
            p1,
            (poll_receiver (channel w).1 (channel w).2).2,
          )
          → Polled m t p w x

    -- A timeout is never early: its first `poll` is ready at once only when the duration has passed. Else,
    -- in a fiber, it sets a timeout at the poller for the end of the duration, later only by what passes
    -- between the two looks at the clock, and the result is that of its channel. What a drop would
    -- cancel is exactly that timeout, as long as it is not ready. Outside of a fiber nothing is set. The
    -- clock must not go back.
    pub poll-Polled :
        (m : Moment) (t : Timeout Receiver) (p : Polling W R P H) (w : World)
        → t.inner ≡ none
        → t.start ≤ m.elapsed_at
        → m.elapsed_at ≤ m.set_at
        → Polled m t p w (poll O m t p w)
    unfolding poll set_timeout poll_set Handles.set_timeout send
    poll-Polled m t p w first started later =
        elim (Bool-cases (leb t.duration (m.elapsed_at - t.start))) [
          | inl passed ↦
              has_passed (ground (arith, passed, started)) (ground (arith, first, passed))
          | inr early ↦ elim (Bool-cases m.in_fiber) [
            | inr outside ↦ no_fiber outside (ground (arith, first, early, outside))
            | inl inside ↦
                let rest = t.duration - (m.elapsed_at - t.start) in
                let (tx, rx, w1) = channel w in
                let set_now = Handles.set_timeout p m.set_at rest tx in
                let result = poll_receiver rx w1 in
                let asked =
                  poll_inner_lem (record { cancel_on_drop = some set_now.0; rx = rx }) w1 in
                newly_set (m.set_at + rest) set_now.1
                  (record {
                    cancel_on_drop = cancel_after result.0 (some set_now.0);
                    rx = result.1;
                  })
                  inside (ground (arith, early, started)) (ground (arith, early, started, later))
                  refl refl (ground (arith, first, early, inside, asked))
          ]
        ]

append_assoc : {A : Type 0} (xs ys zs : List A) → (xs ++ ys) ++ zs ≡ xs ++ (ys ++ zs)
append_assoc [] ys zs = refl
append_assoc (x ∷ xs) ys zs = ap (λ l. x ∷ l) (append_assoc xs ys zs)

append-same : {A : Type 0} (xs ys zs : List A) → xs ++ ys ≡ xs ++ zs → ys ≡ zs
append-same [] ys zs e = e
append-same (x ∷ xs) ys zs e = append-same xs ys zs (cc e)

module _ {W R IoError : Type 0} (M : Mio IoError) (S : SplayMap (ℕ × ℕ) R key_ord) where
  -- The poller takes the first of its requests, and `rest` stay in its channel.
  abbrev pub take_first :
      Poller W R M.Poll S.Map
      → Request W R
      → List (Request W R)
      → Result (Unit {0}) (Fail IoError) × Poller W R M.Poll S.Map
  take_first p q rest = handle_request M S (record p { requests = rest }) q

  -- The poller after a timeout that was set and dropped: both requests of it, `a` and `b`, are handled
  -- without a failure, the rest is still to do, and its timeouts are those from before, and as many.
  pub record LeavesNothing (p : Poller W R M.Poll S.Map) (a b : Request W R)
      (rest : List (Request W R)) : Type 0 where
    pub first : (take_first p a (b ∷ rest)).0 ≡ ok tt
    pub second : (take_first (take_first p a (b ∷ rest)).1 b rest).0 ≡ ok tt
    pub left : (take_first (take_first p a (b ∷ rest)).1 b rest).1.requests ≡ rest
    pub same :
        (k : ℕ × ℕ)
        → find S (take_first (take_first p a (b ∷ rest)).1 b rest).1.timeout_queue k
          ≡ find S p.timeout_queue k
    pub as_many :
        heap_len S (take_first (take_first p a (b ∷ rest)).1 b rest).1.timeout_queue
        ≡ heap_len S p.timeout_queue

  back_again :
      (p : Poller W R M.Poll S.Map) (i time : ℕ) (tx : R)
      → find S p.timeout_queue (time, i) ≡ none
      → (k : ℕ × ℕ)
      → find S (remove_key S (push_if_absent S p.timeout_queue (time, i) tx).1 (time, i)).1 k
        ≡ find S p.timeout_queue k
  back_again p i time tx absent k =
      let pushed = (push_if_absent_lem S p.timeout_queue (time, i) tx).1 k in
      let removed =
        (remove_key_lem S (push_if_absent S p.timeout_queue (time, i) tx).1 (time, i)).1 k in
      elim (Bool-cases (key_ord.beq (time, i) k)) [
        | inl same ↦
            let is : (time, i) ≡ k = (key_ord.beq_iff (time, i) k).0 same in
            let gone : find S p.timeout_queue k ≡ none =
              subst (λ j. find S p.timeout_queue j ≡ none) is absent in
            ground (arith, same, gone, removed)
        | inr other ↦ ground (arith, other, absent, pushed, removed)
      ]

  as_many_again :
      (p : Poller W R M.Poll S.Map) (i time : ℕ) (tx : R)
      → find S p.timeout_queue (time, i) ≡ none
      → heap_len S (remove_key S (push_if_absent S p.timeout_queue (time, i) tx).1 (time, i)).1
        ≡ heap_len S p.timeout_queue
  unfolding push_if_absent remove_key heap_len
  as_many_again p i time tx absent =
      let m = p.timeout_queue.inner in
      let k : ℕ × ℕ = (time, i) in
      let vacant : S.contains_key m k ≡ false = ground (arith, absent, S.contains_key-get m k) in
      let there : S.get (S.insert m k tx) k ≡ some tx =
        ground (arith, S.get-insert m k tx k, (key_ord.beq_iff k k).1 refl) in
      let fewer = S.len-remove_present (S.insert m k tx) k tx there in
      let more = S.len-insert m k tx absent in ground (arith, vacant, fewer, more)

  vacant :
      (v : Polling W R M.Poll S.Map) (i time : ℕ) (tx : R) (rest : List (Request W R))
      → IsOrderly M S v.poller v.next_timeout_id (Pollers.set_timeout i time tx ∷ rest)
      → find S v.poller.timeout_queue (time, i) ≡ none
  vacant v i time tx rest ((_, absent), _, _) = absent time

  -- A user sets a timeout and drops it. The calls `set_timeout` and `cancel` send two requests. When the
  -- poller, after any run of it and of its users, has these first in its channel, it handles both without
  -- a failure, and nothing of them is left behind: its timeouts are those from before, and as many.
  pub set_timeout-cancel :
      (w : Polling W R M.Poll S.Map) (now delay_from_now : ℕ) (tx : R)
      (sent rest : List (Request W R)) {v : Polling W R M.Poll S.Map}
      → (Handles.cancel
          (Handles.set_timeout w now delay_from_now tx).1
          (Handles.set_timeout w now delay_from_now tx).0).poller.requests
        ≡ w.poller.requests ++ sent
      → Reach M S v
      → v.poller.requests ≡ sent ++ rest
      → (a b : Request W R) × (sent ≡ a ∷ b ∷ []) × LeavesNothing v.poller a b rest
  unfolding Handles.set_timeout Handles.cancel send handle_request heap_len
  set_timeout-cancel w now delay_from_now tx sent rest {v} sends r first =
      let i = w.next_timeout_id in
      let time = now + delay_from_now in
      let a : Request W R = Pollers.set_timeout i time tx in
      let b : Request W R = Pollers.cancel_timeout i time in
      let two : sent ≡ a ∷ b ∷ [] =
        append-same w.poller.requests sent (a ∷ b ∷ [])
          (sym sends ∙ append_assoc w.poller.requests (a ∷ []) (b ∷ [])) in
      let channel_is : v.poller.requests ≡ a ∷ b ∷ rest = first ∙ ap (λ qs. qs ++ rest) two in
      let absent : find S v.poller.timeout_queue (time, i) ≡ none = vacant v i time tx (b ∷ rest) (
        subst (IsOrderly M S v.poller v.next_timeout_id) channel_is
          (Reach-IsInOrder M S r).orderly) in
      let fresh = (push_if_absent_lem S v.poller.timeout_queue (time, i) tx) in
      (
        a,
        b,
        two,
        record {
          first = ground (arith, fresh.0, absent);
          second = refl;
          left = refl;
          same = back_again v.poller i time tx absent;
          as_many = as_many_again v.poller i time tx absent;
        },
      )
