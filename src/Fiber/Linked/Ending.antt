-- ===== src/Fiber/Linked/Ending.antt =====
-- The fiber of `spawn_link` (src/fiber/mod.rs) over a link pair of src/sync/oneshot.rs: how the owner of
-- the other half sees it end, and ends it.
use fibers_rs.Prelude.{◌≡◌, true, none, some, Option, List, arith}
use fibers_rs.Prelude.HashMap.{get}
use fibers_rs.Prelude.Results.{Result, ok, err, Poll, ready, not_ready}
use fibers_rs.Fiber.State.{FiberId, FiberState, Unpark}
use fibers_rs.Fiber.Schedule.{Machine}
use fibers_rs.Fiber.Context.{take_held, is_runnable}
use fibers_rs.Fiber.Invariant.{Inv}
use fibers_rs.Sync.Notifier.{IsWoken}
use fibers_rs.Sync.Halves.{Spins}
use fibers_rs.Sync.Oneshot.{Nb, aborted, monitored}
use fibers_rs.Sync.Oneshot.Links.{Link, peer, exit_link, drop_link, poll_link}
use fibers_rs.Sync.Oneshot.Linking.{exit_link-peer, drop_link-peer}
use fibers_rs.Fiber.Linked.{Halves, poll_linked, poll_select, after_select}

-- A call that has to spin leaves everything as it is, and returns `b`.
abbrev pub or_else : {A L M : Type 0} → Spins (A × L × M) → A → L → M → A × (L × M)
or_else (ok (some (a, l, m))) b k n = (a, (l, m))
or_else (ok none) b k n = (b, (k, n))
or_else (err e) b k n = (b, (k, n))

-- `poll` of a future that has ended with this result
abbrev pub ended : {T E : Type 0} → Result T E → Poll T E
ended (ok v) = ok (ready v)
ended (err e) = err e

module _ {T E G : Type 0} (N0 : Nb (Result T E)) (N1 : Nb (Result (Unit {0}) (Unit {0}))) where
  -- The fiber's half of a link pair; the pair and the scheduler are the shared state.
  abbrev pub link_half : Halves (Link N0.Chan N1.Chan × Machine G) T E
  link_half = record {
    Half = Unit {0};
    poll_half =
        λ h s. let (r, s1) = or_else (poll_link N0 N1 s.0 s.1) (ok not_ready) s.0 s.1 in (r, h, s1);
    exit = λ h result s. (or_else (exit_link N0 N1 s.0 s.1 result) tt s.0 s.1).1;
    drop_half = λ h s. (or_else (drop_link N0 N1 s.0 s.1) tt s.0 s.1).1;
  }

  module _ {Fut : Type 0}
      (poll_fiber : Fut
        → Link N0.Chan N1.Chan × Machine G
        → Poll T E × Fut × (Link N0.Chan N1.Chan × Machine G)) where
    exits :
        (f f1 : Fut) (l l1 : Link N0.Chan N1.Chan) (m m1 m2 : Machine G) (result : Result T E)
        → poll_fiber f (l, m) ≡ (ended result, f1, (l, m1))
        → exit_link N0 N1 l m1 result ≡ ok (some (tt, l1, m2))
        → poll_linked poll_fiber link_half (some (f, tt)) (l, m)
          ≡ ok (ok (ready tt), none, (l1, m2))
    unfolding poll_linked poll_select after_select
    exits f f1 l l1 m m1 m2 (ok v) is e = ground (arith, is, e)
    exits f f1 l l1 m m1 m2 (err x) is e = ground (arith, is, e)

    stops :
        (f f1 : Fut) (l l1 : Link N0.Chan N1.Chan) (m m1 : Machine G)
        → poll_fiber f (l, m) ≡ (ok not_ready, f1, (l, m1))
        → poll_link N0 N1 l m1 ≡ ok (some (err aborted, l1, m1))
        → poll_linked poll_fiber link_half (some (f, tt)) (l, m)
          ≡ ok (ok (ready tt), none, (or_else (drop_link N0 N1 l1 m1) tt l1 m1).1)
    unfolding poll_linked poll_select after_select
    stops f f1 l l1 m m1 is e = ground (arith, is, e)

    -- The future of a linked fiber ends, while no other thread uses the link: the fiber ends with it,
    -- the fiber that waits at the other half is woken (it can run, and is being polled, queued, or about
    -- to be woken), and its next poll of that half returns the result of the future.
    pub poll_linked-peer :
        (f f1 : Fut) (l : Link N0.Chan N1.Chan) (m m1 : Machine G) (result : Result T E)
        (own : Option Unpark) (u : Unpark) (rest : List Unpark) (i : FiberId)
        (waiter : FiberState G)
        → poll_fiber f (l, m) ≡ (ended result, f1, (l, m1))
        → N0.has_receiver l.tx.inner ≡ true
        → l.tx.notifier.unpark.inner ≡ some (some u)
        → l.rx.notifier.unpark.inner ≡ some own
        → take_held u m1.held ≡ some rest
        → get m1.fibers i ≡ some waiter
        → waiter.unparks ≡ u.unparks
        → Inv m1.context.fiber m1
        → (l' : Link N0.Chan N1.Chan) × (m' : Machine G) × (poll_linked poll_fiber link_half
              (some (f, tt))
              (l, m)
            ≡ ok (ok (ready tt), none, (l', m')))
          × (get m'.fibers i ≡ some waiter)
          × (is_runnable m' waiter ≡ true)
          × IsWoken m1.context.fiber m' i waiter
          × ((m2 : Machine G)
              → (after : Link N1.Chan N0.Chan) × (poll_link N1 N0 (peer l') m2
                  ≡ ok (some (monitored (ok (ready result)), after, m2))))
    poll_linked-peer f f1 l m m1 result own u rest i waiter is alive cell free found at_i same inv =
        let (l', m', exited, there, run, woken, sees) =
          exit_link-peer N0 N1 l m1 result own u rest i waiter alive cell free found at_i same
            inv in
        (l', m', exits f f1 l l' m m1 m' result is exited, there, run, woken, sees)

    -- The other half of the link of a linked fiber is dropped, while no other thread uses the link and
    -- the fiber waits: the fiber is woken (it can run, and is being polled, queued, or about to be
    -- woken), and its next poll ends it, although its future is never ready; the future must leave the
    -- link alone.
    pub drop_link-poll_linked :
        (link0 : Link N1.Chan N0.Chan) (m : Machine G) (own : Option Unpark) (u : Unpark)
        (rest : List Unpark) (i : FiberId) (fiber : FiberState G) (f : Fut)
        → ((s : Link N0.Chan N1.Chan × Machine G)
            → (f1 : Fut) × (m1 : Machine G) × (poll_fiber f s ≡ (ok not_ready, f1, (s.0, m1))))
        → N1.value link0.tx.inner ≡ none
        → link0.tx.notifier.unpark.inner ≡ some (some u)
        → link0.rx.notifier.unpark.inner ≡ some own
        → take_held u m.held ≡ some rest
        → get m.fibers i ≡ some fiber
        → fiber.unparks ≡ u.unparks
        → Inv m.context.fiber m
        → (l' : Link N1.Chan N0.Chan) × (m' : Machine G) × (drop_link N1 N0 link0 m
            ≡ ok (some (tt, l', m')))
          × (get m'.fibers i ≡ some fiber)
          × (is_runnable m' fiber ≡ true)
          × IsWoken m.context.fiber m' i fiber
          × ((m1 : Machine G)
              → (s : Link N0.Chan N1.Chan × Machine G) × (poll_linked poll_fiber link_half
                    (some (f, tt))
                    (peer l', m1)
                  ≡ ok (ok (ready tt), none, s)))
    drop_link-poll_linked link0 m own u rest i fiber f never nothing cell free found at_i same inv =
        let (l', m', dropped, there, run, woken, sees) =
          drop_link-peer N1 N0 link0 m own u rest i fiber nothing cell free found at_i same inv in
        (
          l',
          m',
          dropped,
          there,
          run,
          woken,
          λ m1.
              let (f1, m2, is) = never (peer l', m1) in
              (
                (or_else (drop_link N0 N1 (peer l') m2) tt (peer l') m2).1,
                stops f f1 (peer l') (peer l') m1 m2 is (sees m2),
              ),
        )
