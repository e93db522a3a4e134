-- ===== src/Sync/Oneshot/Outside.antt =====
-- Links (src/sync/oneshot.rs) on a thread that is not in a fiber, as those of a thread pool.
use fibers_rs.Prelude.{
  ◌≡◌, ◌≢◌, refl, ◌⊎◌, inl, inr, Bool, true, false, Option, none, some, arith, Bool-cases,
  Option-cases,
}
use fibers_rs.Prelude.Results.{Result, ok, err, Poll, ready, not_ready}
use fibers_rs.Fiber.State.{Unpark}
use fibers_rs.Fiber.Schedule.{Machine}
use fibers_rs.Fiber.Context.{as_context, current_context_id}
use fibers_rs.Sync.Notifier.{
  Notifier, notify, notified, await_notification, awaited, borrow_round-free, drop_option,
}
use fibers_rs.Sync.Oneshot.{
  Nb, MonitorError, aborted, monitored, exit, send, drop_sender, drop_receiver,
}
use fibers_rs.Sync.Oneshot.Monitoring.{
  poll_monitor-value, poll_monitor-disconnected, poll_monitor-empty,
}
use fibers_rs.Sync.Oneshot.Links.{Link, peer, drop_rx, exit_link, drop_link, poll_link}

-- `Ok(Async::NotReady)`
abbrev pub is_waiting : {T E : Type 0} → Poll T E → Bool
is_waiting (ok not_ready) = true
is_waiting (ok (ready v)) = false
is_waiting (err e) = false

monitored-finished : {T E : Type 0} (r : Result T E) → is_waiting (monitored (ok (ready r))) ≡ false
unfolding monitored
monitored-finished (ok v) = refl
monitored-finished (err e) = refl

module _ {F : Type 0} where
  -- Outside of a fiber `await_notification` leaves nothing in the cell.
  await_outside :
      (n : Notifier) (m : Machine F)
      → n.unpark.inner ≡ some none
      → as_context m.context ≡ none
      → await_notification n m ≡ ok (some (n, m))
  unfolding await_notification awaited current_context_id
  await_outside n m free out = ground (arith, out, borrow_round-free awaited n m none free)

-- A link whose owner is gone.
abbrev gone_with : {C0 C1 : Type 0} → C0 → C1 → Link C0 C1
gone_with c d = record {
  tx = record { inner = c; notifier = record { unpark = record { inner = some none } } };
  rx = record { inner = d; notifier = record { unpark = record { inner = some none } } };
}

module _ {T0 E0 T1 E1 F : Type 0} (N0 : Nb (Result T0 E0)) (N1 : Nb (Result T1 E1)) where
  poll_link-value :
      (l : Link N0.Chan N1.Chan) (m : Machine F) (r : Result T1 E1)
      → N1.value l.rx.inner ≡ some r
      → (after : Link N0.Chan N1.Chan) × (poll_link N0 N1 l m
          ≡ ok (some (monitored (ok (ready r)), after, m)))
  unfolding poll_link
  poll_link-value l m r e = (
    record l { rx = record (l.rx) { inner = (N1.try_recv l.rx.inner).1 } },
    ground (arith, poll_monitor-value N1 l.rx m r e),
  )

module _ {T0 E0 T1 E1 F : Type 0} (N0 : Nb (Result T0 E0)) (N1 : Nb (Result T1 E1)) where
  -- What `Link::poll` does there: it says whether the peer has ended, and changes no notifier.
  pub data PolledLink (l : Link N0.Chan N1.Chan) (m : Machine F) : Type 0 where
    waits :
        poll_link N0 N1 l m ≡ ok (some (ok not_ready, l, m))
        → N1.value l.rx.inner ≡ none
        → N1.has_sender l.rx.inner ≡ true
        → PolledLink l m
    finished :
        (r : Poll T1 (MonitorError E1)) (c : N1.Chan)
        → poll_link N0 N1 l m ≡ ok (some (r, record l { rx = record (l.rx) { inner = c } }, m))
        → is_waiting r ≡ false
        → (N1.value l.rx.inner ≢ none) ⊎ (N1.has_sender l.rx.inner ≡ false)
        → PolledLink l m

  pub poll_outside :
      (l : Link N0.Chan N1.Chan) (m : Machine F)
      → l.rx.notifier.unpark.inner ≡ some none
      → as_context m.context ≡ none
      → PolledLink l m
  unfolding poll_link
  poll_outside l m free out = elim (Option-cases (N1.value l.rx.inner)) [
    | inr (r, is_r) ↦
        finished (monitored (ok (ready r))) (N1.try_recv l.rx.inner).1
          (ground (arith, poll_monitor-value N1 l.rx m r is_r)) (monitored-finished r)
          (inl (λ e. ground (arith, e, is_r)))
    | inl is_none ↦ elim (Bool-cases (N1.has_sender l.rx.inner)) [
      | inl there ↦
          waits
            (ground (
              arith,
              poll_monitor-empty N1 l.rx m m l.rx.notifier is_none there
                  (await_outside l.rx.notifier m free out),
            ))
            is_none there
      | inr gone ↦
          finished (err aborted) l.rx.inner
            (ground (arith, poll_monitor-disconnected N1 l.rx m is_none gone)) refl (inr gone)
    ]
  ]

  -- `drop_link` returns, whatever the notifiers hold.
  pub drop_outside :
      (l : Link N0.Chan N1.Chan) (m : Machine F) (a b : Option Unpark)
      → l.tx.notifier.unpark.inner ≡ some a
      → l.rx.notifier.unpark.inner ≡ some b
      → (l' : Link N0.Chan N1.Chan) × (m' : Machine F) × (drop_link N0 N1 l m
          ≡ ok (some (tt, l', m')))
  unfolding drop_link drop_rx drop_sender drop_receiver notify notified
  drop_outside l m a b free_tx free_rx =
      let once = borrow_round-free notified l.tx.notifier m a free_tx in
      let twice = borrow_round-free notified l.rx.notifier (drop_option m a) b free_rx in
      (
        gone_with (N0.drop_sender l.tx.inner) (N1.drop_receiver l.rx.inner),
        drop_option (drop_option m a) b,
        ground (arith, once, twice),
      )

  -- `exit_link` returns, and the peer, if it lives, has the result at its next poll.
  pub exit_outside :
      (l : Link N0.Chan N1.Chan) (m : Machine F) (result : Result T0 E0) (a b : Option Unpark)
      → l.tx.notifier.unpark.inner ≡ some a
      → l.rx.notifier.unpark.inner ≡ some b
      → (l' : Link N0.Chan N1.Chan) × (m' : Machine F) × (exit_link N0 N1 l m result
          ≡ ok (some (tt, l', m')))
        × ((N0.has_receiver l.tx.inner ≡ false)
            ⊎ ((m2 : Machine F)
                → (after : Link N1.Chan N0.Chan) × (poll_link N1 N0 (peer l') m2
                    ≡ ok (some (monitored (ok (ready result)), after, m2)))))
  unfolding exit_link drop_rx exit send drop_receiver notify notified poll_link
  exit_outside l m result a b free_tx free_rx =
      let once = borrow_round-free notified l.tx.notifier m a free_tx in
      let twice = borrow_round-free notified l.rx.notifier (drop_option m a) b free_rx in
      let l' = gone_with (N0.send l.tx.inner result).1 (N1.drop_receiver l.rx.inner) in
      (
        l',
        drop_option (drop_option m a) b,
        ground (arith, once, twice),
        elim (Bool-cases (N0.has_receiver l.tx.inner)) [
          | inr gone ↦ inl gone
          | inl alive ↦ inr (λ m2.
              poll_link-value N1 N0 (peer l') m2 result (N0.send-view l.tx.inner result alive).1)
        ],
      )
