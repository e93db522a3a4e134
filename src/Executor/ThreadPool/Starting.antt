-- ===== src/Executor/ThreadPool/Starting.antt =====
-- Pools as `with_thread_count` makes them (src/executor/thread_pool.rs).
use fibers_rs.Prelude.{
  ℕ, zero, suc, ◌<◌, ◌≡◌, refl, sym, subst, ◌∙◌, ap, Bool, List, [], ◌∷◌, length, arith, map,
}
use fibers_rs.Prelude.Results.{Result, ok, err}
use fibers_rs.Executor.ThreadPool.{
  ThreadPool, run_once, spawn_boxed, new_pollers, start_schedulers, with_thread_count,
}
use fibers_rs.Executor.ThreadPool.Rounds.{Ran, run_once-Ran}

module _ {W P E : Type 0} (new_poller : W → Result P E × W) where
  data Made (n : ℕ) : Result (List P) E × W → Type 0 where
    all_made : (ps : List P) (w : W) → length ps ≡ n → Made n (ok ps, w)
    one_failed : (e : E) (w : W) → Made n (err e, w)

  Made-cons :
      (n : ℕ) (w w1 : W) (p : P) (x : Result (List P) E × W)
      → new_poller w ≡ (ok p, w1)
      → new_pollers new_poller n w1 ≡ x
      → Made n x
      → Made (suc n) (new_pollers new_poller (suc n) w)
  unfolding new_pollers
  Made-cons n w w1 p x first rest (all_made ps w2 size) =
      subst (Made (suc n)) (ground (arith, first, rest))
        (all_made (p ∷ ps) w2 (omega (arith, size)))
  Made-cons n w w1 p x first rest (one_failed e w2) =
      subst (Made (suc n)) (ground (arith, first, rest)) (one_failed e w2)

  Made-first :
      (n : ℕ) (w : W) (x : Result P E × W)
      → new_poller w ≡ x
      → ((w1 : W) → Made n (new_pollers new_poller n w1))
      → Made (suc n) (new_pollers new_poller (suc n) w)
  unfolding new_pollers
  Made-first n w (ok p, w1) is again = Made-cons n w w1 p _ is refl (again w1)
  Made-first n w (err e, w1) is again = subst (Made (suc n)) (ground (arith, is)) (one_failed e w1)

  new_pollers-Made : (n : ℕ) (w : W) → Made n (new_pollers new_poller n w)
  unfolding new_pollers
  new_pollers-Made zero w = all_made [] w refl
  new_pollers-Made (suc n) w = Made-first n w (new_poller w) refl (new_pollers-Made n)

module _ {T L : Type 0} where
  -- What the owner of a pool and of its handles can do with it.
  pub data Used (poll_link : L → Bool × L) : ThreadPool T L → ThreadPool T L → Type 0 where
    unused : (p : ThreadPool T L) → Used poll_link p p
    spawned :
        (p q : ThreadPool T L) (fiber : T)
        → Used poll_link (spawn_boxed p fiber) q
        → Used poll_link p q
    ran :
        (p p1 q : ThreadPool T L) (r : Result (Unit {0}) ℕ)
        → run_once poll_link p ≡ ok (r, p1)
        → Used poll_link p1 q
        → Used poll_link p q

  Used-length :
      (poll_link : L → Bool × L) (p q : ThreadPool T L)
      → Used poll_link p q
      → 0 < length p.schedulers
      → length p.links ≡ length p.schedulers
      → (length q.schedulers ≡ length p.schedulers) × (length q.links ≡ length q.schedulers)
  unfolding spawn_boxed
  Used-length poll_link p q (unused _) some_scheduler one_each = (refl, one_each)
  Used-length poll_link p q (spawned _ _ fiber rest) some_scheduler one_each =
      Used-length poll_link (spawn_boxed p fiber) q rest some_scheduler one_each
  Used-length poll_link p q (ran _ p1 _ r e rest) some_scheduler one_each =
      let x = run_once-Ran poll_link p some_scheduler one_each in
      let same : x.after ≡ p1 = ground (arith, e, x.result) in
      let size : length p1.schedulers ≡ length p.schedulers =
        ap (λ (y : ThreadPool T L). length y.schedulers) (sym same) ∙ x.size in
      let still : length p1.links ≡ length p1.schedulers =
        subst (λ (y : ThreadPool T L). length y.links ≡ length y.schedulers) same x.one_each in
      let (kept, links) = Used-length poll_link p1 q rest (omega (arith, size)) still in
      (kept ∙ size, links)

length-map : {A B : Type 0} (f : A → B) (xs : List A) → length (map f xs) ≡ length xs
length-map f [] = refl
length-map f (x ∷ xs) = ap suc (length-map f xs)

positive : (count : ℕ) → 0 < suc count
positive count = omega arith

module _ {W P E T L : Type 0} (new_poller : W → Result P E × W) (new_link : P → L) where
  after_pollers :
      (count : ℕ) (w w1 : W) (p : ThreadPool T L) (x : Result (List P) E × W)
      → new_pollers new_poller (suc count) w ≡ x
      → Made new_poller (suc count) x
      → with_thread_count new_poller new_link (suc count) w ≡ ok (ok p, w1)
      → (length p.schedulers ≡ suc count) × (length p.links ≡ length p.schedulers)
  unfolding with_thread_count start_schedulers
  after_pollers count w w1 p x is (all_made ps w2 size) made =
      let q : start_schedulers new_link ps ≡ p = ground (arith, is, made) in
      subst
        (λ (y : ThreadPool T L).
          (length y.schedulers ≡ suc count) × (length y.links ≡ length y.schedulers))
        q (length-map _ ps ∙ size, length-map new_link ps ∙ sym (length-map _ ps))
  after_pollers count w w1 p x is (one_failed e w2) made = absurd (ground (arith, is, made))

  -- The assertion of `with_thread_count` rules out a pool without schedulers.
  size_of :
      (count : ℕ) (w w1 : W) (p : ThreadPool T L)
      → with_thread_count new_poller new_link count w ≡ ok (ok p, w1)
      → (0 < count) × (length p.schedulers ≡ count) × (length p.links ≡ length p.schedulers)
  unfolding with_thread_count
  size_of zero w w1 p made = absurd (ground (arith, made))
  size_of (suc count) w w1 p made =
      let (size, one_each) =
        after_pollers count w w1 p _ refl (new_pollers-Made new_poller (suc count) w) made in
      (positive count, size, one_each)

  -- A pool that `with_thread_count` has made works: after any sequence of spawns and of calls of
  -- `run_once`, it still has as many schedulers as were asked for, and a link for each, and the next
  -- call of `run_once` does not panic and deals the oldest fiber that is spawned then, if there is one,
  -- to one of them.
  pub with_thread_count-Ran :
      (count : ℕ) (w w1 : W) (poll_link : L → Bool × L) (p q : ThreadPool T L)
      → with_thread_count new_poller new_link count w ≡ ok (ok p, w1)
      → Used poll_link p q
      → (length q.schedulers ≡ count)
        × (length q.links ≡ count)
        × Ran poll_link q (run_once poll_link q)
  with_thread_count-Ran count w w1 poll_link p q made used =
      let (some_scheduler, size, one_each) = size_of count w w1 p made in
      let (kept, still) =
        Used-length poll_link p q used (omega (arith, some_scheduler, size)) one_each in
      (
        kept ∙ size,
        still ∙ kept ∙ size,
        run_once-Ran poll_link q (omega (arith, some_scheduler, size, kept)) still,
      )
