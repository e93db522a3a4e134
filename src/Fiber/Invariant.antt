-- ===== src/Fiber/Invariant.antt =====
-- What holds of a scheduler between any two steps (src/fiber): the run queue agrees with the flags of
-- the fibers, parks balance unparks, and a fiber that is not queued will be woken or has to wait.
use fibers_rs.Prelude.{
  ℕ, ◌+◌, ◌<◌, ◌≡◌, refl, ◌⊎◌, inl, inr, Bool, true, false, Option, none, some, List, [], ◌∷◌,
  arith, ◌==◌, if◌then◌else◌, count, count_by, All, subst, ap, Bool-cases, Option-cases,
}
use fibers_rs.Prelude.HashMap.{get}
use fibers_rs.Prelude.Usize.{usize_mod}
use fibers_rs.Fiber.State.{FiberId, FiberState, Unpark}
use fibers_rs.Fiber.Schedule.{Request, spawn, wake_up, Machine}
use fibers_rs.Fiber.Context.{same_unpark, take_held}

module _ {F : Type 0} where
  abbrev pub queued : Option (FiberState F) → ℕ
  queued none = 0
  queued (some f) = if f.in_run_queue then 1 else 0

  abbrev pub is_wake_up : FiberId → Request F → Bool
  is_wake_up i (spawn task) = false
  is_wake_up i (wake_up j) = j == i

  -- The wake-ups of a fiber that are sent, or about to be sent, and not yet handled.
  abbrev pub pending : Machine F → FiberId → ℕ
  pending m i = count_by (is_wake_up i) m.requests + count i m.sending

abbrev pub is_fiber : Option FiberId → FiberId → Bool
is_fiber none i = false
is_fiber (some j) i = j == i

-- How many of the `Unpark` objects belong to a counter.
abbrev pub held_at : ℕ → List Unpark → ℕ
held_at a = count_by (λ u. u.unparks == a)

module _ {F : Type 0} where
  -- A fiber is `cur`, or queued, or a wake-up for it is under way, or it is parked and no unpark has
  -- come.
  abbrev pub IsAwake : Option FiberId → Machine F → FiberId → FiberState F → Type 0
  IsAwake cur m i f =
      (is_fiber cur i ≡ true)
      ⊎ (f.in_run_queue ≡ true)
      ⊎ (0 < pending m i)
      ⊎ ((0 < f.parks) × (m.counters f.unparks ≡ 0))

  pub record Known (cur : Option FiberId) (m : Machine F) (i : FiberId) (f : FiberState F)
      : Type 0 where
    pub named : f.fiber_id ≡ i
    pub made : f.unparks < m.next_counter
    pub own : m.owner f.unparks ≡ i
    pub balance : m.counters f.unparks + held_at f.unparks m.held ≡ f.parks
    pub awake : IsAwake cur m i f

  abbrev pub IsOwned : Machine F → Unpark → Type 0
  IsOwned m u = (u.unparks < m.next_counter) × (m.owner u.unparks ≡ u.fiber_id)

  -- `cur` is the fiber that is being polled, if any.
  pub record Inv (cur : Option FiberId) (m : Machine F) : Type 0 where
    pub next_fits : m.next_id < usize_mod
    pub queue : (i : ℕ) → count i m.run_queue ≡ queued (get m.fibers i)
    pub known : (i : ℕ) (f : FiberState F) → get m.fibers i ≡ some f → Known cur m i f
    pub owned : All (IsOwned m) m.held

-- No object belongs to a counter that is not made yet.
pub held_at-fresh :
    {F : Type 0} (m : Machine F) (held : List Unpark)
    → All (IsOwned m) held
    → held_at m.next_counter held ≡ 0
held_at-fresh m [] h = refl
held_at-fresh m (u ∷ held) h = ground (arith, held_at-fresh m held h.1)

-- `rest` is `held` without one occurrence of `u`.
pub data Taken (u : Unpark) : List Unpark → List Unpark → Type 0 where
  here : {v : Unpark} {held : List Unpark} → v ≡ u → Taken u (v ∷ held) held
  there : {v : Unpark} {held rest : List Unpark} → Taken u held rest → Taken u (v ∷ held) (v ∷ rest)

pub take_held-Taken :
    (u : Unpark) (held rest : List Unpark) → take_held u held ≡ some rest → Taken u held rest
unfolding take_held
take_held-Taken u [] rest e = absurd (ground arith)
take_held-Taken u (v ∷ held) rest e = elim (Bool-cases (same_unpark u v)) [
  | inl hit ↦
      let q : held ≡ rest = ground arith in subst (Taken u (v ∷ held)) q (here (ground arith))
  | inr miss ↦ elim (Option-cases (take_held u held)) [
    | inl gone ↦ absurd (ground arith)
    | inr (l, found) ↦
        let q : v ∷ l ≡ rest = ground arith in
        subst (Taken u (v ∷ held)) q (there (take_held-Taken u held l found))
  ]
]

-- Taking an object out lowers the number of one counter's objects, by one.
pub held_at-Taken :
    {u : Unpark} {held rest : List Unpark}
    → Taken u held rest
    → (a : ℕ) → held_at a held ≡ held_at a rest + (if u.unparks == a then 1 else 0)
held_at-Taken {u} {held} {rest} (here e) a = ground (arith, ap (λ (x : Unpark). x.unparks) e)
held_at-Taken (there t) a = ground (arith, held_at-Taken t a)

pub All-Taken {ℓ} :
    (P : Unpark → Type ℓ) {u : Unpark} {held rest : List Unpark}
    → Taken u held rest
    → All P held
    → P u × All P rest
All-Taken P (here e) h = (subst P e h.0, h.1)
All-Taken P (there t) h = let (a, b) = All-Taken P t h.1 in (a, (h.0, b))
