-- ===== src/Sync/Mpsc/Order.antt =====
-- What holds of the channel of src/sync/mpsc.rs in every interleaving of its threads.
use mathlib.Core.List.{append_assoc}
use fibers_rs.Prelude.{
  ℕ, zero, suc, ◌+◌, ◌<◌, ◌≡◌, ◌≢◌, refl, sym, ◌⊎◌, inl, inr, Option, none, some, List, [], ◌∷◌,
  ◌++◌, arith, ap, ◌∙◌,
}
use fibers_rs.Prelude.Results.{ok, Poll}
use fibers_rs.Fiber.State.{Unpark}
use fibers_rs.Fiber.Schedule.{Machine}
use fibers_rs.Sync.Nbchan.{Mpsc}
use fibers_rs.Sync.Notifier.{notify-empties}
use fibers_rs.Sync.Halves.{Channel}
use fibers_rs.Sync.Mpsc.{
  first_recv, second_recv, put, drop_inner, clone_sender, channel, poll_result,
}
use fibers_rs.Sync.Mpsc.Steps.{
  idle, waiting, message, phase_after, System, Step, receives, begins, awaits, retries, puts,
  notifies, clones, begins_drop, ends_drop, moves, Reach, start, later, queue,
}

module _ {T : Type 0} (N : Mpsc T) where
  -- What one `try_recv` does to the queue, whatever it returns.
  pub received_lem :
      (c : N.Chan) → message (poll_result (N.try_recv c).0) ++ N.queue (N.try_recv c).1 ≡ N.queue c
  unfolding poll_result
  received_lem c = by_queue (N.queue c) (N.senders c) refl refl
    where
      by_queue :
          (q : List T) (k : ℕ)
          → N.queue c ≡ q
          → N.senders c ≡ k
          → message (poll_result (N.try_recv c).0) ++ N.queue (N.try_recv c).1 ≡ N.queue c
      by_queue (t ∷ rest) k is_q is_k = ground (arith, N.try_recv-cons c t rest is_q)
      by_queue [] zero is_q is_k = ground (arith, N.try_recv-disconnected c is_q is_k)
      by_queue [] (suc k) is_q is_k = ground (arith, N.try_recv-empty c is_q (omega (arith, is_k)))

  -- Not ready means that the queue was empty.
  not_ready-empty :
      (c : N.Chan)
      → phase_after (poll_result (N.try_recv c).0) ≡ waiting
      → N.queue (N.try_recv c).1 ≡ []
  unfolding poll_result
  not_ready-empty c e = by_queue (N.queue c) (N.senders c) refl refl
    where
      by_queue :
          (q : List T) (k : ℕ) → N.queue c ≡ q → N.senders c ≡ k → N.queue (N.try_recv c).1 ≡ []
      by_queue (t ∷ rest) k is_q is_k = absurd (ground (arith, N.try_recv-cons c t rest is_q, e))
      by_queue [] zero is_q is_k = ground (arith, N.try_recv-disconnected c is_q is_k)
      by_queue [] (suc k) is_q is_k = ground (arith, N.try_recv-empty c is_q (omega (arith, is_k)))

  first-some :
      (ch d : Channel N.Chan) (p : Poll (Option T) (Unit {0}))
      → first_recv N ch ≡ (some p, d)
      → (p ≡ poll_result (N.try_recv ch.inner).0)
        × (d ≡ record ch { inner = (N.try_recv ch.inner).1 })
        × (phase_after p ≡ idle)
  unfolding first_recv poll_result
  first-some ch d p e = ground (arith, e)

  first-none :
      (ch d : Channel N.Chan) → first_recv N ch ≡ (none, d) → N.queue d.inner ≡ N.queue ch.inner
  unfolding first_recv poll_result
  first-none ch d e = ground (arith, e, received_lem ch.inner)

  move_one :
      (a b : List T) (c d : N.Chan) (p : Poll (Option T) (Unit {0}))
      → a ++ N.queue c ≡ b
      → message p ++ N.queue d ≡ N.queue c
      → (a ++ message p) ++ N.queue d ≡ b
  move_one a b c d p e q = append_assoc a (message p) (N.queue d) ∙ ap (λ l. a ++ l) q ∙ e

  module _ {F : Type 0} where
    pub record IsLive (s : System N.Chan T F) : Type 0 where
      pub order : s.received ++ queue N s ≡ s.sent
      pub awake :
          (u : Unpark)
          → s.phase ≡ waiting
          → s.chan.notifier.unpark.inner ≡ some (some u)
          → (queue N s ≡ []) ⊎ (0 < s.notifying)

    first-IsLive :
        (s : System N.Chan T F) (ch : Channel N.Chan) (p : Poll (Option T) (Unit {0}))
        → first_recv N s.chan ≡ (some p, ch)
        → IsLive s
        → IsLive (record s { chan = ch; phase = phase_after p; received = s.received ++ message p })
    first-IsLive s ch p e h =
        let (q, c, out) = first-some s.chan ch p e in
        let one : message p ++ N.queue ch.inner ≡ N.queue s.chan.inner =
          ground (arith, q, c, received_lem s.chan.inner) in
        record {
          order = move_one s.received s.sent s.chan.inner ch.inner p h.order one;
          awake = λ u w cell. absurd (ground (arith, out, w));
        }

    second-IsLive :
        (s : System N.Chan T F) (ch : Channel N.Chan) (p : Poll (Option T) (Unit {0}))
        → second_recv N s.chan ≡ (p, ch)
        → IsLive s
        → IsLive (record s { chan = ch; phase = phase_after p; received = s.received ++ message p })
    unfolding second_recv
    second-IsLive s ch p e h =
        let one : message p ++ N.queue ch.inner ≡ N.queue s.chan.inner =
          ground (arith, e, received_lem s.chan.inner) in
        record {
          order = move_one s.received s.sent s.chan.inner ch.inner p h.order one;
          awake = λ u w cell. inl (ground (arith, e, not_ready-empty s.chan.inner, w));
        }

    puts-IsLive :
        (s : System N.Chan T F) (ch : Channel N.Chan) (t : T)
        → put N s.chan t ≡ (ok tt, ch)
        → IsLive s
        → IsLive (record s { chan = ch; notifying = s.notifying + 1; sent = s.sent ++ t ∷ [] })
    unfolding put
    puts-IsLive s ch t e h =
        let more : N.queue ch.inner ≡ N.queue s.chan.inner ++ t ∷ [] =
          ground (arith, e, N.queue-send s.chan.inner t) in
        record {
          order =
              ap (λ l. s.received ++ l) more
              ∙ sym (append_assoc s.received (N.queue s.chan.inner) (t ∷ []))
              ∙ ap (λ l. l ++ t ∷ []) h.order;
          awake = λ u w cell. inr (omega arith);
        }

    Step-IsLive : {s s' : System N.Chan T F} → Step N s s' → IsLive s → IsLive s'
    unfolding clone_sender drop_inner
    Step-IsLive (receives s ch p o e) h = first-IsLive s ch p e h
    Step-IsLive (begins s ch o e) h = record {
      order = ap (λ q. s.received ++ q) (first-none s.chan ch e) ∙ h.order;
      awake = λ u w cell. absurd (ground (arith, w));
    }
    Step-IsLive (awaits s n m o e) h = record {
      order = h.order;
      awake = λ u w cell. absurd (ground (arith, w));
    }
    Step-IsLive (retries s ch p o e) h = second-IsLive s ch p e h
    Step-IsLive (puts s ch t l e) h = puts-IsLive s ch t e h
    Step-IsLive (notifies s n m k q e) h = record {
      order = h.order;
      awake =
          λ u w cell. absurd (ground (arith, cell, notify-empties s.chan.notifier n s.machine m e));
    }
    Step-IsLive (clones s l) h = record {
      order = ap (λ q. s.received ++ q) (N.clone_sender-view s.chan.inner).0 ∙ h.order;
      awake = λ u w cell. ground (arith, N.clone_sender-view s.chan.inner, h.awake u w cell);
    }
    Step-IsLive (begins_drop s n m l e) h = record {
      order = h.order;
      awake =
          λ u w cell. absurd (ground (arith, cell, notify-empties s.chan.notifier n s.machine m e));
    }
    Step-IsLive (ends_drop s k q) h = record {
      order = ap (λ q. s.received ++ q) (N.drop_sender-view s.chan.inner).0 ∙ h.order;
      awake = λ u w cell. ground (arith, N.drop_sender-view s.chan.inner, h.awake u w cell);
    }
    Step-IsLive (moves s m) h = record { order = h.order; awake = h.awake }

    Reach-IsLive : {m : Machine F} {s : System N.Chan T F} → Reach N m s → IsLive s
    unfolding channel
    Reach-IsLive start = record { order = N.new-view.0; awake = λ u w cell. inl N.new-view.0 }
    Reach-IsLive (later r st) = Step-IsLive st (Reach-IsLive r)

    -- In every interleaving, the messages received so far and then those in the queue are the messages
    -- sent so far, in the order in which they were sent: none is lost, doubled or overtaken.
    pub first_in_first_out :
        {m : Machine F} {s : System N.Chan T F} → Reach N m s → s.received ++ queue N s ≡ s.sent
    first_in_first_out r = (Reach-IsLive r).order

    -- No notification of a message is lost: in every interleaving, when the receiver waits with its
    -- `Unpark` in the cell and the channel holds a message, the `send` of some message has not notified
    -- yet.
    pub no_lost_message :
        {m : Machine F} {s : System N.Chan T F}
        → Reach N m s
        → (u : Unpark) → s.phase ≡ waiting
        → s.chan.notifier.unpark.inner ≡ some (some u)
        → queue N s ≢ []
        → 0 < s.notifying
    no_lost_message r u w cell some_message = elim ((Reach-IsLive r).awake u w cell) [
      | inl none_left ↦ absurd (some_message none_left)
      | inr coming ↦ coming
    ]
