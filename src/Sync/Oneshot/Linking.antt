-- ===== src/Sync/Oneshot/Linking.antt =====
-- Link pairs (src/sync/oneshot.rs): what one side sees when the other one ends.
use fibers_rs.Prelude.{
  ℕ, ◌≡◌, refl, ap, ◌∙◌, true, false, Option, none, some, List, arith, Option-cases, ◌+◌, ◌==◌,
  if◌then◌else◌, inl, inr, ◌≤◌, ◌++◌, ◌∷◌, [], count, count_by, count_by-append, Bool-cases,
}
use fibers_rs.Prelude.HashMap.{get}
use fibers_rs.Prelude.Results.{Result, ok, err, ready}
use fibers_rs.Fiber.State.{FiberId, FiberState, Unpark}
use fibers_rs.Fiber.Schedule.{Machine, update, send, Request, wake_up}
use fibers_rs.Fiber.Context.{take_held, is_runnable, drop_held, begin_drop}
use fibers_rs.Fiber.Invariant.{Inv, pending, is_wake_up}
use fibers_rs.Sync.Notifier.{
  notify, notified, borrow_round-free, drop_held_effect, drop_option, IsWoken,
}
use fibers_rs.Sync.Halves.{Channel}
use fibers_rs.Sync.Oneshot.{Nb, aborted, monitored, drop_receiver}
use fibers_rs.Sync.Oneshot.Monitoring.{exit-poll_monitor, drop_sender-poll_monitor}
use fibers_rs.Sync.Oneshot.Links.{Link, peer, drop_rx, exit_link, drop_link, poll_link}

module _ {F : Type 0} where
  drop_held-none : (m : Machine F) (u : Unpark) → take_held u m.held ≡ none → drop_held m u ≡ m
  unfolding drop_held
  drop_held-none m u e = ground (arith, e)

  more-runnable :
      (m m' : Machine F) (u : Unpark) (f : FiberState F)
      → m'.counters ≡ update m.counters u.unparks (m.counters u.unparks + 1)
      → is_runnable m f ≡ true
      → is_runnable m' f ≡ true
  unfolding is_runnable
  more-runnable m m' u f counted run =
      let now : m'.counters f.unparks
          ≡ (if u.unparks == f.unparks then m.counters u.unparks + 1 else m.counters f.unparks) =
        ap (λ (c : ℕ → ℕ). c f.unparks) counted ∙ ground arith in
      ground (arith, now, run)

  drop_held-runnable :
      (m : Machine F) (u : Unpark) (f : FiberState F)
      → is_runnable m f ≡ true
      → (is_runnable (drop_held m u) f ≡ true) × ((drop_held m u).fibers ≡ m.fibers)
  drop_held-runnable m u f run = elim (Option-cases (take_held u m.held)) [
    | inl none_held ↦
        let same : drop_held m u ≡ m = drop_held-none m u none_held in
        (rw same run, ap (λ (x : Machine F). x.fibers) same)
    | inr (rest, found) ↦
        let (counted, fibers) = drop_held_effect m u rest found in
        (more-runnable m (drop_held m u) u f counted run, fibers)
  ]

  more-pending :
      (m m' : Machine F) (rs : List (Request F)) (i : FiberId)
      → m'.requests ≡ m.requests ++ rs
      → m'.sending ≡ m.sending
      → pending m i ≤ pending m' i
  more-pending m m' rs i sent same = omega (
    arith,
    count_by-append (is_wake_up i) m.requests rs,
    ap (λ xs. count_by (is_wake_up i) xs) sent,
    ap (λ xs. count i xs) same,
  )

  same-pending :
      (m m' : Machine F) (i : FiberId)
      → m'.requests ≡ m.requests
      → m'.sending ≡ m.sending
      → pending m i ≤ pending m' i
  same-pending m m' i sent same =
      omega (arith, ap (λ xs. count_by (is_wake_up i) xs) sent, ap (λ xs. count i xs) same)

  drop_held-pending :
      (m : Machine F) (u : Unpark) (i : FiberId) → pending m i ≤ pending (drop_held m u) i
  unfolding drop_held begin_drop send
  drop_held-pending m u i = elim (Option-cases (take_held u m.held)) [
    | inl none_held ↦
        same-pending m (drop_held m u) i (ground (arith, none_held)) (ground (arith, none_held))
    | inr (rest, found) ↦ elim (Bool-cases (m.counters u.unparks == 0)) [
      | inl first ↦
          more-pending m (drop_held m u) (wake_up u.fiber_id ∷ []) i (ground (arith, found, first))
            (ground (arith, found, first))
      | inr later ↦
          same-pending m (drop_held m u) i (ground (arith, found, later))
            (ground (arith, found, later))
    ]
  ]

  drop_option-pending :
      (m : Machine F) (unpark : Option Unpark) (i : FiberId)
      → pending m i ≤ pending (drop_option m unpark) i
  drop_option-pending m none i = omega arith
  drop_option-pending m (some u) i = drop_held-pending m u i

  more-IsWoken :
      (running : Option FiberId) (m m' : Machine F) (i : FiberId) (f : FiberState F)
      → pending m i ≤ pending m' i
      → IsWoken running m i f
      → IsWoken running m' i f
  more-IsWoken running m m' i f more (inl polled) = inl polled
  more-IsWoken running m m' i f more (inr (inl queued)) = inr (inl queued)
  more-IsWoken running m m' i f more (inr (inr sent)) = inr (inr (omega arith))

  pub drop_option-runnable :
      (m : Machine F) (unpark : Option Unpark) (f : FiberState F)
      → is_runnable m f ≡ true
      → (is_runnable (drop_option m unpark) f ≡ true) × ((drop_option m unpark).fibers ≡ m.fibers)
  drop_option-runnable m none f run = (run, refl)
  drop_option-runnable m (some u) f run = drop_held-runnable m u f run

module _ {T0 E0 T1 E1 F : Type 0} (N0 : Nb (Result T0 E0)) (N1 : Nb (Result T1 E1)) where
  -- The drop of `rx` neither loops nor panics, and leaves a fiber that can run, or is woken, so.
  drop_rx_lem :
      (l : Link N0.Chan N1.Chan) (m : Machine F) (own : Option Unpark) (i : FiberId)
      (f : FiberState F) (running : Option FiberId)
      → l.rx.notifier.unpark.inner ≡ some own
      → get m.fibers i ≡ some f
      → is_runnable m f ≡ true
      → IsWoken running m i f
      → (rx : Channel N1.Chan) × (m' : Machine F) × (drop_rx N0 N1 l m
          ≡ ok (some (tt, record l { rx = rx }, m')))
        × (get m'.fibers i ≡ some f)
        × (is_runnable m' f ≡ true)
        × IsWoken running m' i f
        × (N1.has_receiver rx.inner ≡ false)
  unfolding drop_rx drop_receiver notify notified
  drop_rx_lem l m own i f running free at_i run woken =
      let (run', fibers) = drop_option-runnable m own f run in
      let there : get (drop_option m own).fibers i ≡ some f = rw fibers at_i in
      let once = borrow_round-free notified l.rx.notifier m own free in
      (
        record {
          inner = N1.drop_receiver l.rx.inner;
          notifier = record { unpark = record { inner = some none } };
        },
        drop_option m own,
        ground (arith, once),
        there,
        run',
        more-IsWoken running m (drop_option m own) i f (drop_option-pending m own i) woken,
        N1.drop_receiver-view l.rx.inner,
      )

  -- One side exits with a result, while no other thread uses the two channels: that does not loop or
  -- panic, and wakes the fiber that waits at the other side: it can run then, and is being polled,
  -- queued, or about to be woken. Its next poll returns the result.
  pub exit_link-peer :
      (l : Link N0.Chan N1.Chan) (m : Machine F) (result : Result T0 E0) (own : Option Unpark)
      (u : Unpark) (rest : List Unpark) (i : FiberId) (f : FiberState F)
      → N0.has_receiver l.tx.inner ≡ true
      → l.tx.notifier.unpark.inner ≡ some (some u)
      → l.rx.notifier.unpark.inner ≡ some own
      → take_held u m.held ≡ some rest
      → get m.fibers i ≡ some f
      → f.unparks ≡ u.unparks
      → Inv m.context.fiber m
      → (l' : Link N0.Chan N1.Chan) × (m' : Machine F) × (exit_link N0 N1 l m result
          ≡ ok (some (tt, l', m')))
        × (get m'.fibers i ≡ some f)
        × (is_runnable m' f ≡ true)
        × IsWoken m.context.fiber m' i f
        × ((m2 : Machine F)
            → (after : Link N1.Chan N0.Chan) × (poll_link N1 N0 (peer l') m2
                ≡ ok (some (monitored (ok (ready result)), after, m2))))
  unfolding exit_link poll_link
  exit_link-peer l m result own u rest i f alive cell free found at_i same inv =
      let (tx, m1, exited, there, run, woken, sees) =
        exit-poll_monitor N0 l.tx m result u rest i f alive cell found at_i same inv in
      let (rx, m', dropped, there', run', woken', _) =
        drop_rx_lem (record l { tx = tx }) m1 own i f m.context.fiber free there run woken in
      (
        record { tx = tx; rx = rx },
        m',
        ground (arith, exited, dropped),
        there',
        run',
        woken',
        λ m2. (
          record { tx = rx; rx = record tx { inner = (N0.try_recv tx.inner).1 } },
          ground (arith, sees m2),
        ),
      )

  -- One side is dropped without a result, while no other thread uses the two channels: that does not loop
  -- or panic, and wakes the fiber that waits at the other side: it can run then, and is being polled,
  -- queued, or about to be woken. Its next poll fails as the target has aborted.
  pub drop_link-peer :
      (l : Link N0.Chan N1.Chan) (m : Machine F) (own : Option Unpark) (u : Unpark)
      (rest : List Unpark) (i : FiberId) (f : FiberState F)
      → N0.value l.tx.inner ≡ none
      → l.tx.notifier.unpark.inner ≡ some (some u)
      → l.rx.notifier.unpark.inner ≡ some own
      → take_held u m.held ≡ some rest
      → get m.fibers i ≡ some f
      → f.unparks ≡ u.unparks
      → Inv m.context.fiber m
      → (l' : Link N0.Chan N1.Chan) × (m' : Machine F) × (drop_link N0 N1 l m
          ≡ ok (some (tt, l', m')))
        × (get m'.fibers i ≡ some f)
        × (is_runnable m' f ≡ true)
        × IsWoken m.context.fiber m' i f
        × ((m2 : Machine F) → poll_link N1 N0 (peer l') m2 ≡ ok (some (err aborted, peer l', m2)))
  unfolding drop_link poll_link
  drop_link-peer l m own u rest i f nothing cell free found at_i same inv =
      let (tx, m1, ended, there, run, woken, sees) =
        drop_sender-poll_monitor N0 l.tx m u rest i f nothing cell found at_i same inv in
      let (rx, m', dropped, there', run', woken', _) =
        drop_rx_lem (record l { tx = tx }) m1 own i f m.context.fiber free there run woken in
      (
        record { tx = tx; rx = rx },
        m',
        ground (arith, ended, dropped),
        there',
        run',
        woken',
        λ m2. ground (arith, sees m2),
      )
