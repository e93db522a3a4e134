-- ===== src/Executor/ThreadPool/Rounds.antt =====
-- Which scheduler gets which fiber (src/executor/thread_pool.rs).
use native.Mathlib.Nat.{mod-lt, mod-add-div, mul-le-mul_left, mul-suc}
use fibers_rs.Prelude.{
  ℕ, suc, ◌+◌, ◌%◌, ◌/◌, ◌<◌, ◌≤◌, ◌≡◌, ◌≢◌, refl, sym, subst, ◌∙◌, ap, Bool, some, List, [], ◌∷◌,
  ◌++◌, length, get_elem?, set, length-set, get_elem?-set_self, get_elem?-set_ne, get_elem?-total,
  arith, if◌then◌else◌, List-cases, inl, inr, ◌⊎◌,
}
use fibers_rs.Prelude.Usize.{wrapping_add, usize_mod}
use fibers_rs.Prelude.Results.{Result, ok, err, Fault}
use fibers_rs.Executor.ThreadPool.{ThreadPool, assign, run_once}

le-or-lt : (a b : ℕ) → (a ≤ b) ⊎ (suc b ≤ a)
le-or-lt a b = ground arith

-- Two of as many numbers in a row have different remainders.
mod_apart : (r k i j : ℕ) → 0 < k → i < j → j < k → (r + i) % k ≢ (r + j) % k
mod_apart r k i j some_k i_lt j_lt e =
    let low = mod-add-div (r + i) k in
    let high = mod-add-div (r + j) k in
    elim (le-or-lt ((r + j) / k) ((r + i) / k)) [
      | inl le ↦ omega (arith, low, high, e, mul-le-mul_left k le)
      | inr lt ↦ omega (arith, low, high, e, mul-le-mul_left k lt, mul-suc k ((r + i) / k))
    ]

module _ {T L : Type 0} where
  -- The scheduler whose turn it is.
  abbrev pub target : ThreadPool T L → ℕ
  target p = p.round % length p.schedulers

  -- A fiber, if one is in the queue, goes to the scheduler whose turn it is; no other gets one.
  pub data Dealt (p p' : ThreadPool T L) : Type 0 where
    nothing :
        p.spawn_queue ≡ []
        → p'.spawn_queue ≡ []
        → p'.schedulers ≡ p.schedulers
        → p'.round ≡ p.round
        → Dealt p p'
    dealt :
        (task : T) (rest sent : List T)
        → p.spawn_queue ≡ task ∷ rest
        → p'.spawn_queue ≡ rest
        → p'.round ≡ wrapping_add p.round 1
        → get_elem? p.schedulers (target p) ≡ some sent
        → get_elem? p'.schedulers (target p) ≡ some (sent ++ task ∷ [])
        → ((j : ℕ) → target p ≢ j → get_elem? p'.schedulers j ≡ get_elem? p.schedulers j)
        → Dealt p p'

  pub record Assigned (p : ThreadPool T L) (r : Result (ThreadPool T L) Fault) : Type 0 where
    pub after : ThreadPool T L
    pub result : r ≡ ok after
    pub dealt_out : Dealt p after
    pub size : length after.schedulers ≡ length p.schedulers
    pub same_steps : after.steps ≡ p.steps
    pub same_links : after.links ≡ p.links

  assign_lem : (p : ThreadPool T L) → 0 < length p.schedulers → Assigned p (assign p)
  unfolding assign
  assign_lem p some_scheduler = elim (List-cases p.spawn_queue) [
    | inl e ↦ record {
      after = p;
      result = ground (arith, e);
      dealt_out = nothing e e refl refl;
      size = refl;
      same_steps = refl;
      same_links = refl;
    }
    | inr (task, rest, e) ↦
        let below : target p < length p.schedulers = mod-lt p.round some_scheduler in
        let (sent, at_target) = get_elem?-total p.schedulers (target p) below in
        let p' = record p {
          schedulers = set p.schedulers (target p) (sent ++ task ∷ []);
          spawn_queue = rest;
          round = wrapping_add p.round 1;
        } in
        record {
          after = p';
          result = ground (arith, e, at_target);
          dealt_out =
              dealt task rest sent e refl refl at_target
                (get_elem?-set_self p.schedulers (target p) (sent ++ task ∷ []) below)
                (λ j other. get_elem?-set_ne p.schedulers (target p) j (sent ++ task ∷ []) other);
          size = length-set p.schedulers (target p) (sent ++ task ∷ []);
          same_steps = refl;
          same_links = refl;
        }
  ]

  -- What one `run_once` does. `link` is the link that is polled.
  pub record Ran (poll_link : L → Bool × L) (p : ThreadPool T L)
      (r : Result (Result (Unit {0}) ℕ × ThreadPool T L) Fault) : Type 0 where
    pub after : ThreadPool T L
    pub link : ℕ
    pub link_is : link ≡ wrapping_add p.steps 1 % length p.schedulers
    pub before : L
    pub link_at : get_elem? p.links link ≡ some before
    pub result : r ≡ ok (if (poll_link before).0 then err link else ok tt, after)
    pub polled : after.links ≡ set p.links link (poll_link before).1
    pub dealt_out : Dealt p after
    pub size : length after.schedulers ≡ length p.schedulers
    pub one_each : length after.links ≡ length after.schedulers
    pub steps : after.steps ≡ wrapping_add p.steps 1

  Dealt-move :
      (p p1 p2 : ThreadPool T L)
      → p2.schedulers ≡ p1.schedulers
      → p2.spawn_queue ≡ p1.spawn_queue
      → p2.round ≡ p1.round
      → Dealt p p1
      → Dealt p p2
  Dealt-move p p1 p2 s q r (nothing a b c d) = nothing a (q ∙ b) (s ∙ c) (r ∙ d)
  Dealt-move p p1 p2 s q r (dealt t rest sent a b c d e f) =
      dealt t rest sent a (q ∙ b) (r ∙ c) d (ap (λ l. get_elem? l (target p)) s ∙ e)
        (λ j o. ap (λ l. get_elem? l j) s ∙ f j o)

  -- With a scheduler at least, and one link for each, `run_once` does not panic: the scheduler whose
  -- turn it is exists, and gets the oldest of the spawned fibers, if there is one, after those that it
  -- got before; the other schedulers get none. The link whose turn it is exists, and is polled; its
  -- number is the error if that poll is one.
  pub run_once-Ran :
      (poll_link : L → Bool × L) (p : ThreadPool T L)
      → 0 < length p.schedulers
      → length p.links ≡ length p.schedulers
      → Ran poll_link p (run_once poll_link p)
  unfolding run_once
  run_once-Ran poll_link p some_scheduler one_each =
      let a = assign_lem p some_scheduler in
      let link = wrapping_add p.steps 1 % length p.schedulers in
      let below : link < length p.links =
        rw one_each (mod-lt (wrapping_add p.steps 1) some_scheduler) in
      let (before, link_at) = get_elem?-total p.links link below in
      let p2 = record (a.after) {
        steps = wrapping_add a.after.steps 1;
        links = set p.links link (poll_link before).1;
      } in
      record {
        after = p2;
        link = link;
        link_is = refl;
        before = before;
        link_at = link_at;
        result = ground (arith, a.result, a.size, a.same_steps, a.same_links, link_at);
        polled = refl;
        dealt_out = Dealt-move p a.after p2 refl refl refl a.dealt_out;
        size = a.size;
        one_each = length-set p.links link (poll_link before).1 ∙ one_each ∙ sym a.size;
        steps = ap (λ k. wrapping_add k 1) a.same_steps;
      }

  -- `run_once`, so many times.
  pub data Rounds (poll_link : L → Bool × L) : ℕ → ThreadPool T L → ThreadPool T L → Type 0 where
    none_yet : (p : ThreadPool T L) → Rounds poll_link 0 p p
    one_more :
        (k : ℕ) (p p1 q : ThreadPool T L) (r : Result (Unit {0}) ℕ)
        → run_once poll_link p ≡ ok (r, p1)
        → Rounds poll_link k p1 q
        → Rounds poll_link (k + 1) p q

  Dealt-one :
      (p p1 : ThreadPool T L)
      → Dealt p p1
      → 0 < length p.spawn_queue
      → (p1.round ≡ wrapping_add p.round 1) × (length p1.spawn_queue + 1 ≡ length p.spawn_queue)
  Dealt-one p p1 (nothing a b c d) some_task = absurd (ground (arith, a, some_task))
  Dealt-one p p1 (dealt t rest sent a b c d e f) some_task =
      (c, omega (arith, ap length a, ap length b))

  rounds_lem :
      (poll_link : L → Bool × L) (k : ℕ) (p q : ThreadPool T L)
      → Rounds poll_link k p q
      → 0 < length p.schedulers
      → length p.links ≡ length p.schedulers
      → k ≤ length p.spawn_queue
      → p.round + k < usize_mod
      → (q.round ≡ p.round + k)
        × (length q.schedulers ≡ length p.schedulers)
        × (length q.spawn_queue + k ≡ length p.spawn_queue)
        × (length q.links ≡ length q.schedulers)
  rounds_lem poll_link k p q (none_yet _) a one_each b c =
      (omega arith, refl, omega arith, one_each)
  rounds_lem poll_link k p q (one_more j _ p1 _ r e rest) a one_each b c =
      let ran = run_once-Ran poll_link p a one_each in
      let same : ran.after ≡ p1 = ground (arith, e, ran.result) in
      let d : Dealt p p1 = subst (Dealt p) same ran.dealt_out in
      let size : length p1.schedulers ≡ length p.schedulers =
        ap (λ (x : ThreadPool T L). length x.schedulers) (sym same) ∙ ran.size in
      let still : length p1.links ≡ length p1.schedulers =
        subst (λ (x : ThreadPool T L). length x.links ≡ length x.schedulers) same ran.one_each in
      let (round, queue) = Dealt-one p p1 d (omega arith) in
      let (ih, ih_size, ih_queue, ih_links) =
        rounds_lem poll_link j p1 q rest (omega (arith, size)) still (omega arith) (omega arith) in
      (omega arith, ih_size ∙ size, omega arith, ih_links)

  -- The scheduler `k` has got the oldest of the spawned fibers.
  pub record Got (p p' : ThreadPool T L) (k : ℕ) : Type 0 where
    pub task : T
    pub rest : List T
    pub sent : List T
    pub oldest : p.spawn_queue ≡ task ∷ rest
    pub left : p'.spawn_queue ≡ rest
    pub before : get_elem? p.schedulers k ≡ some sent
    pub after : get_elem? p'.schedulers k ≡ some (sent ++ task ∷ [])

  Dealt-Got : (p p' : ThreadPool T L) → Dealt p p' → 0 < length p.spawn_queue → Got p p' (target p)
  Dealt-Got p p' (nothing a b c d) some_task = absurd (ground (arith, a, some_task))
  Dealt-Got p p' (dealt t rest sent a b c d e f) some_task = record {
    task = t;
    rest = rest;
    sent = sent;
    oldest = a;
    left = b;
    before = d;
    after = e;
  }

  run_once-Got :
      (poll_link : L → Bool × L) (p p1 : ThreadPool T L) (r : Result (Unit {0}) ℕ)
      → run_once poll_link p ≡ ok (r, p1)
      → 0 < length p.schedulers
      → length p.links ≡ length p.schedulers
      → 0 < length p.spawn_queue
      → Got p p1 (target p)
  run_once-Got poll_link p p1 r e some_scheduler one_each some_task =
      let ran = run_once-Ran poll_link p some_scheduler one_each in
      let same : ran.after ≡ p1 = ground (arith, e, ran.result) in
      Dealt-Got p p1 (subst (Dealt p) same ran.dealt_out) some_task

  -- The fibers are spread evenly: among as many calls of `run_once` as there are schedulers, any two
  -- give their fibers, the oldest that are spawned then, to two different schedulers. There must be one
  -- link for each scheduler, a fiber for each call, and the counter must not wrap around.
  pub run_once_spread :
      (poll_link : L → Bool × L) (i j : ℕ) (p q q1 s s1 : ThreadPool T L)
      (rq rs : Result (Unit {0}) ℕ)
      → Rounds poll_link i p q
      → run_once poll_link q ≡ ok (rq, q1)
      → Rounds poll_link j p s
      → run_once poll_link s ≡ ok (rs, s1)
      → i < j
      → j < length p.schedulers
      → j < length p.spawn_queue
      → length p.links ≡ length p.schedulers
      → p.round + j < usize_mod
      → (a b : ℕ) × (a ≢ b) × Got q q1 a × Got s s1 b
  run_once_spread poll_link i j p q q1 s s1 rq rs to_q run_q to_s run_s i_lt j_lt tasks one_each
        fits =
      let (round_q, size_q, queue_q, links_q) =
        rounds_lem poll_link i p q to_q (omega arith) one_each (omega arith) (omega arith) in
      let (round_s, size_s, queue_s, links_s) =
        rounds_lem poll_link j p s to_s (omega arith) one_each (omega arith) fits in
      (
        target q,
        target s,
        λ e. mod_apart p.round (length p.schedulers) i j (omega arith) i_lt j_lt (cc),
        run_once-Got poll_link q q1 rq run_q (omega arith) links_q (omega arith),
        run_once-Got poll_link s s1 rs run_s (omega arith) links_s (omega arith),
      )
