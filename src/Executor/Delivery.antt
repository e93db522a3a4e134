-- ===== src/Executor/Delivery.antt =====
-- What a poll on the thread of a scheduler sends to it (src/executor/in_place.rs): it drops the `Unpark`s
-- of the fibers that it notifies.
use fibers_rs.Prelude.{
  ℕ, ◌+◌, ◌≡◌, refl, subst, sym, ◌∙◌, ap, Option, true, none, some, List, [], ◌∷◌, ◌++◌, arith,
}
use fibers_rs.Prelude.HashMap.{get}
use fibers_rs.Fiber.State.{FiberId, FiberState, Unpark}
use fibers_rs.Fiber.Schedule.{Machine}
use fibers_rs.Fiber.Context.{drop_held, take_held, is_runnable}
use fibers_rs.Fiber.Invariant.{Inv}
use fibers_rs.Fiber.Calls.{drop_held-Keeps}
use fibers_rs.Sync.Notifier.{drop_option, drop_held_effect, IsWoken}
use fibers_rs.Sync.Oneshot.Linking.{drop_option-runnable}

abbrev pub deliver : {F : Type 0} → Machine F → List (Option Unpark) → Machine F
deliver m [] = m
deliver m (u ∷ us) = deliver (drop_option m u) us

module _ {F : Type 0} where
  drop_option-kept :
      (m : Machine F) (unpark : Option Unpark)
      → Inv none m
      → m.context.fiber ≡ none
      → Inv none (drop_option m unpark) × ((drop_option m unpark).context.fiber ≡ none)
  drop_option-kept m none inv free = (inv, free)
  drop_option-kept m (some u) inv free =
      let k = drop_held-Keeps m u (subst (λ r. Inv r m) (sym free) inv) in
      (subst (λ r. Inv r (drop_held m u)) free k.inv, k.current ∙ free)

  pub deliver-kept :
      (m : Machine F) (us : List (Option Unpark))
      → Inv none m
      → m.context.fiber ≡ none
      → Inv none (deliver m us) × ((deliver m us).context.fiber ≡ none)
  deliver-kept m [] inv free = (inv, free)
  deliver-kept m (u ∷ us) inv free =
      let (inv', free') = drop_option-kept m u inv free in
      deliver-kept (drop_option m u) us inv' free'

  deliver-runnable :
      (m : Machine F) (us : List (Option Unpark)) (i : FiberId) (f : FiberState F)
      → get m.fibers i ≡ some f
      → is_runnable m f ≡ true
      → (get (deliver m us).fibers i ≡ some f) × (is_runnable (deliver m us) f ≡ true)
  deliver-runnable m [] i f at_i run = (at_i, run)
  deliver-runnable m (u ∷ us) i f at_i run =
      let (run', fibers) = drop_option-runnable m u f run in
      deliver-runnable (drop_option m u) us i f (rw fibers at_i) run'

  -- Every fiber whose `Unpark` is delivered, and has not been dropped before, can run afterwards, and is
  -- queued or about to be woken.
  abbrev pub AllWoken : Machine F → List (Option Unpark) → Machine F → Type 0
  AllWoken m us m' =
      (before after : List (Option Unpark)) (u : Unpark) (rest : List Unpark) (i : FiberId)
      (f : FiberState F)
      → us ≡ before ++ some u ∷ after
      → take_held u (deliver m before).held ≡ some rest
      → get (deliver m before).fibers i ≡ some f
      → f.unparks ≡ u.unparks
      → (get m'.fibers i ≡ some f) × (is_runnable m' f ≡ true) × IsWoken none m' i f

  drop-runnable :
      (m : Machine F) (u : Unpark) (rest : List Unpark) (i : FiberId) (f : FiberState F)
      → take_held u m.held ≡ some rest
      → get m.fibers i ≡ some f
      → f.unparks ≡ u.unparks
      → (get (drop_held m u).fibers i ≡ some f) × (is_runnable (drop_held m u) f ≡ true)
  unfolding is_runnable
  drop-runnable m u rest i f found at_i same =
      let (counted, fibers) = drop_held_effect m u rest found in
      let come : (drop_held m u).counters f.unparks ≡ m.counters u.unparks + 1 =
        ap (λ (c : ℕ → ℕ). c f.unparks) counted ∙ ground arith in
      (rw fibers at_i, ground (arith, come))

  deliver-append :
      (m : Machine F) (us vs : List (Option Unpark))
      → deliver m (us ++ vs) ≡ deliver (deliver m us) vs
  deliver-append m [] vs = refl
  deliver-append m (u ∷ us) vs = deliver-append (drop_option m u) us vs

  pub deliver-AllWoken :
      (m : Machine F) (us : List (Option Unpark))
      → Inv none m
      → m.context.fiber ≡ none
      → AllWoken m us (deliver m us)
  unfolding is_runnable
  deliver-AllWoken m us inv free before after u rest i f is found at_i same =
      let (there, run) = drop-runnable (deliver m before) u rest i f found at_i same in
      let (there', run') = deliver-runnable (drop_held (deliver m before) u) after i f there run in
      let all : deliver (drop_held (deliver m before) u) after ≡ deliver m us =
        sym (ap (deliver m) is ∙ deliver-append m before (some u ∷ after)) in
      let end : get (deliver m us).fibers i ≡ some f =
        subst (λ (x : Machine F). get x.fibers i ≡ some f) all there' in
      let runs : is_runnable (deliver m us) f ≡ true =
        subst (λ (x : Machine F). is_runnable x f ≡ true) all run' in
      (end, runs, ground (arith, (deliver-kept m us inv free).0.known i f end, runs))
