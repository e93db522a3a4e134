-- ===== src/Executor/ThreadPool.antt =====
-- src/executor/thread_pool.rs: `ThreadPoolExecutor`, which deals fibers out to scheduler threads.
pub mod Rounds
pub mod Starting
pub mod Threads
pub mod Living
mod Tests
use fibers_rs.Prelude.{
  ℕ, zero, suc, ◌+◌, ◌%◌, Bool, true, false, Option, none, some, List, [], ◌∷◌, ◌++◌, length,
  get_elem?, set, ◌==◌, if◌then◌else◌, map, not,
}
use fibers_rs.Prelude.Usize.{wrapping_add}
use fibers_rs.Prelude.Results.{Result, ok, err, Fault, panic, assert, ◌>>=◌}

-- `schedulers` has for each scheduler the fibers that were sent to it, oldest first, `links` the links
-- to their threads. `spawn_queue` is the content of the channel of `spawn_tx`, `spawn_rx`.
pub record ThreadPool (T L : Type 0) : Type 0 where
  pub schedulers : List (List T)
  pub links : List L
  pub spawn_queue : List T
  pub round : ℕ
  pub steps : ℕ

-- `n % k`, which panics for zero.
abbrev pub rem : ℕ → ℕ → Result ℕ Fault
rem n k = if k == 0 then err panic else ok (n % k)

module _ {T L : Type 0} where
  -- A handle's `spawn_boxed`
  unfoldable pub spawn_boxed : ThreadPool T L → T → ThreadPool T L
  spawn_boxed p fiber = record p { spawn_queue = p.spawn_queue ++ fiber ∷ [] }

  -- The first part of `run_once`: a fiber goes to the next scheduler.
  unfoldable pub assign : ThreadPool T L → Result (ThreadPool T L) Fault
  assign p = elim p.spawn_queue [
    | [] ↦ ok p
    | task ∷ rest ↦ rem p.round (length p.schedulers) >>= λ i. elim (get_elem? p.schedulers i) [
      | none ↦ err panic
      | some sent ↦ ok (record p {
        schedulers = set p.schedulers i (sent ++ task ∷ []);
        spawn_queue = rest;
        round = wrapping_add p.round 1;
      })
    ]
  ]

  -- `run_once`; `poll_link` polls a link and says whether that is an error. The result is the number of
  -- the scheduler whose thread is aborted.
  unfoldable pub run_once :
      (L → Bool × L) → ThreadPool T L → Result (Result (Unit {0}) ℕ × ThreadPool T L) Fault
  run_once poll_link p = do
    p1 ← assign p
    let steps = wrapping_add p1.steps 1
    i ← rem steps (length p1.schedulers)
    elim (get_elem? p1.links i) [
      | none ↦ err panic
      | some link ↦
          let (is_err, polled) = poll_link link in
          let p2 = record p1 { steps = steps; links = set p1.links i polled } in
          ok (if is_err then (err i, p2) else (ok tt, p2))
    ]

-- `new_poller` is what `Poller::new` does.
module _ {W P E : Type 0} (new_poller : W → Result P E × W) where
  unfoldable pub new_pollers : ℕ → W → Result (List P) E × W
  new_pollers zero w = (ok [], w)
  new_pollers (suc pool_size) w =
      let (first, w1) = new_poller w in
      elim first [
        | err e ↦ (err e, w1)
        | ok p ↦
            (let (rest, w2) = new_pollers pool_size w1 in
              elim rest [ err e ↦ (err e, w2) | ok ps ↦ (ok (p ∷ ps), w2) ])
      ]

module _ {P T L : Type 0} where
  -- `SchedulerPool::new`; `new_link` is the link to the thread of the scheduler that it starts for a
  -- poller.
  unfoldable pub start_schedulers : (P → L) → List P → ThreadPool T L
  start_schedulers new_link pollers = record {
    schedulers = map (λ p. []) pollers;
    links = map new_link pollers;
    spawn_queue = [];
    round = 0;
    steps = 0;
  }

module _ {W P E T L : Type 0} (new_poller : W → Result P E × W) where
  unfoldable pub with_thread_count : (P → L) → ℕ → W → Result (Result (ThreadPool T L) E × W) Fault
  with_thread_count new_link count w = do
    _ ← assert (not (count == 0))
    let (r, w1) = new_pollers new_poller count w
    ok (elim r [ err e ↦ err e | ok pollers ↦ ok (start_schedulers new_link pollers) ], w1)
