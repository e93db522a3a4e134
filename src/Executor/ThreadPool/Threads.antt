-- ===== src/Executor/ThreadPool/Threads.antt =====
-- src/executor/thread_pool.rs: the threads that `PollerPool::new` and `SchedulerPool::new` start, one
-- round of their loops at a time.
use fibers_rs.Prelude.{ℕ, true, none, some, List, if◌then◌else◌}
use fibers_rs.Prelude.Results.{Result, ok, err, ◌>>=◌}
use fibers_rs.Collections.Tree.{SplayMap}
use fibers_rs.Collections.ListMap.{key_ord}
use fibers_rs.Fiber.State.{Run}
use fibers_rs.Fiber.Schedule.{Machine}
use fibers_rs.Fiber.Schedule
use fibers_rs.Fiber.Context
use fibers_rs.Fiber.Context.{done, waiting}
use fibers_rs.Poll.Mio.{Mio}
use fibers_rs.Poll.Poller as Pollers
use fibers_rs.Poll.Poller.{Poller, fault, io}
use fibers_rs.Sync.Halves.{Spins}
use fibers_rs.Sync.Oneshot.{Nb}
use fibers_rs.Sync.Oneshot.Links.{Link, poll_link, exit_link, drop_link}
use fibers_rs.Sync.Oneshot.Outside.{is_waiting}

-- A thread after a round: it goes on, has returned, or waits in `recv`.
pub data Thread (A : Type 0) : Type 0 where
  running ended blocked : A → Thread A

-- `machine` is what the thread sees of the fibers that it may wake.
pub record PollerThread (F C P : Type 0) : Type 0 where
  pub link1 : Link C C
  pub machine : Machine F
  pub poller : P

pub record SchedulerThread (F C : Type 0) : Type 0 where
  pub link1 : Link C C
  pub scheduler : Machine F

module _ {F W R IoError : Type 0} (N : Nb (Result (Unit {0}) IoError)) (M : Mio IoError)
    (S : SplayMap (ℕ × ℕ) R key_ord) where
  -- The body of the loop: `poller.poll`, and `link1.exit` when it fails. A panic ends the thread.
  unfoldable pub poll_or_exit :
      PollerThread F N.Chan (Poller W R M.Poll S.Map)
      → ℕ
      → Spins (Thread (PollerThread F N.Chan (Poller W R M.Poll S.Map)))
  poll_or_exit t now =
      let (r, p) = Pollers.poll M S t.poller now (some 1) in
      elim r [
        | ok u ↦ ok (some (running (record t { poller = p })))
        | err f ↦ elim f [
          | io e ↦ exit_link N N t.link1 t.machine (err e) >>= λ w. elim w [
            | none ↦ ok none
            | some (u, link1, m) ↦
                ok (some (ended (record { link1 = link1; machine = m; poller = p })))
          ]
          | fault x ↦ err x
        ]
      ]

  -- A round of `while let Ok(Async::NotReady) = link1.poll()`; the link is dropped at the end.
  unfoldable pub poller_round :
      PollerThread F N.Chan (Poller W R M.Poll S.Map)
      → ℕ
      → Spins (Thread (PollerThread F N.Chan (Poller W R M.Poll S.Map)))
  unfolding poll_or_exit
  poller_round t now = poll_link N N t.link1 t.machine >>= λ w. elim w [
    | none ↦ ok none
    | some (r, link1, m) ↦
        let t1 = record t { link1 = link1; machine = m } in
        if is_waiting r
        then poll_or_exit t1 now
        else (drop_link N N link1 m >>= λ x. elim x [
          | none ↦ ok none
          | some (u, link2, m2) ↦ ok (some (ended (record t { link1 = link2; machine = m2 })))
        ])
  ]

module _ {F E : Type 0} (poll_fiber : F → Run F) (N : Nb (Result (Unit {0}) E)) where
  -- The same for a scheduler; `arrivals` are the requests that reach it while it waits.
  unfoldable pub scheduler_round :
      SchedulerThread F N.Chan
      → List (Schedule.Request F)
      → Spins (Thread (SchedulerThread F N.Chan))
  scheduler_round t arrivals = poll_link N N t.link1 t.scheduler >>= λ w. elim w [
    | none ↦ ok none
    | some (r, link1, m) ↦
        if is_waiting r
        then (Context.run_once poll_fiber m true arrivals >>= λ turn. elim turn [
          | done m' ↦ ok (some (running (record { link1 = link1; scheduler = m' })))
          | waiting m' ↦ ok (some (blocked (record { link1 = link1; scheduler = m' })))
        ])
        else (drop_link N N link1 m >>= λ x. elim x [
          | none ↦ ok none
          | some (u, link2, m2) ↦ ok (some (ended (record { link1 = link2; scheduler = m2 })))
        ])
  ]
