-- ===== src/Executor/ThreadPool/Living.antt =====
-- What the threads of a pool (src/executor/thread_pool.rs) do, and what the owner of the pool sees of it.
use fibers_rs.Prelude.{ℕ, ◌≡◌, ◌≢◌, ◌⊎◌, false, none, some, []}
use fibers_rs.Prelude.Results.{Result, ok, err, Poll}
use fibers_rs.Collections.Tree.{SplayMap}
use fibers_rs.Collections.ListMap.{key_ord}
use fibers_rs.Fiber.State.{Run}
use fibers_rs.Fiber.Schedule.{Machine}
use fibers_rs.Fiber.Schedule
use fibers_rs.Fiber.Context
use fibers_rs.Fiber.Context.{waiting}
use fibers_rs.Fiber.Invariant.{Inv}
use fibers_rs.Fiber.Turns.{IsReady}
use fibers_rs.Fiber.Turns as Turns
use fibers_rs.Poll.Mio.{Mio}
use fibers_rs.Poll.Poller as Pollers
use fibers_rs.Poll.Poller.{Poller, Fail, io}
use fibers_rs.Poll.Poller.Events
use fibers_rs.Sync.Halves.{Spins}
use fibers_rs.Sync.Oneshot.{Nb, failed}
use fibers_rs.Sync.Oneshot.Links.{Link, peer, poll_link}
use fibers_rs.Executor.ThreadPool.Threads.{
  Thread, running, ended, blocked, PollerThread, SchedulerThread,
}

module _ {F W R IoError : Type 0} (N : Nb (Result (Unit {0}) IoError)) (M : Mio IoError)
    (S : SplayMap (ℕ × ℕ) R key_ord) where
  -- How a round of a poller's thread ends.
  pub data PollerRound (t : PollerThread F N.Chan (Poller W R M.Poll S.Map)) (now : ℕ)
      : Spins (Thread (PollerThread F N.Chan (Poller W R M.Poll S.Map))) → Type 0 where
    went_on :
        (Pollers.poll M S t.poller now (some 1)).0 ≡ ok tt
        → PollerRound t now
            (ok (some (running (record t { poller = (Pollers.poll M S t.poller now (some 1)).1 }))))
    stopped :
        (t' : PollerThread F N.Chan (Poller W R M.Poll S.Map))
        → (N.value t.link1.rx.inner ≢ none) ⊎ (N.has_sender t.link1.rx.inner ≡ false)
        → t'.poller ≡ t.poller
        → PollerRound t now (ok (some (ended t')))
    gave_up :
        (t' : PollerThread F N.Chan (Poller W R M.Poll S.Map)) (e : IoError)
        → (Pollers.poll M S t.poller now (some 1)).0 ≡ err (io e)
        → (N.has_receiver t.link1.tx.inner ≡ false)
          ⊎ ((m : Machine F)
              → (link0 : Link N.Chan N.Chan) × (poll_link N N (peer t'.link1) m
                  ≡ ok (some (err (failed e), link0, m))))
        → PollerRound t now (ok (some (ended t')))

module _ {F E : Type 0} (poll_fiber : F → Run F) (N : Nb (Result (Unit {0}) E)) where
  -- How a round of a scheduler's thread ends.
  pub data SchedulerRound (t : SchedulerThread F N.Chan)
      : Spins (Thread (SchedulerThread F N.Chan)) → Type 0 where
    worked :
        (m : Machine F)
        → Inv none m
        → m.context.fiber ≡ none
        → SchedulerRound t (ok (some (running (record t { scheduler = m }))))
    waits_for_request :
        (m : Machine F)
        → IsReady m
        → m.requests ≡ []
        → m.run_queue ≡ []
        → SchedulerRound t (ok (some (blocked (record t { scheduler = m }))))
    was_stopped :
        (t' : SchedulerThread F N.Chan)
        → (N.value t.link1.rx.inner ≢ none) ⊎ (N.has_sender t.link1.rx.inner ≡ false)
        → SchedulerRound t (ok (some (ended t')))
