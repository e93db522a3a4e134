-- ===== src/Executor/Futures.antt =====
-- src/executor/mod.rs: the provided methods of `Executor`, over any `run_once`. `S` is the state of the
-- executor and of all that its fibers and the future share.
use fibers_rs.Prelude.{ℕ, zero, suc, ◌<◌, ◌≡◌, refl, sym, subst, ◌∙◌, arith}
use fibers_rs.Prelude.Results.{Result, ok, err, Poll, ready, not_ready, Fault, diverges, ◌>>=◌}

module _ {S V E IoError : Type 0}
    (run_once : S → Result (Result (Unit {0}) IoError × S) Fault) where
  -- The number is the fuel: how often the future may be polled.
  unfoldable pub run_future :
      (S → Poll V E × S) → ℕ → S → Result (Result (Result V E) IoError × S) Fault
  run_future poll zero s = err diverges
  run_future poll (suc n) s =
      let (p, s1) = poll s in
      elim p [
        | err e ↦ ok (ok (err e), s1)
        | ok a ↦ elim a [
          | ready v ↦ ok (ok (ok v), s1)
          | not_ready ↦ run_once s1 >>= λ t. elim (t.0) [
            | err e ↦ ok (err e, t.1)
            | ok u ↦ run_future poll n t.1
          ]
        ]
      ]

  -- `run_fiber` runs until a monitor, which is a future, is ready.
  unfoldable pub run_fiber :
      (S → Poll V E × S) → ℕ → S → Result (Result (Result V E) IoError × S) Fault
  run_fiber poll_monitor n s = run_future poll_monitor n s

  -- So many turns succeed, before each of which the future is polled and is not ready.
  pub data Pending (poll : S → Poll V E × S) : ℕ → S → S → Type 0 where
    no_turn : (s : S) → Pending poll 0 s s
    turn_first :
        (k : ℕ) (s s1 s2 q : S)
        → poll s ≡ (ok not_ready, s1)
        → run_once s1 ≡ ok (ok tt, s2)
        → Pending poll k s2 q
        → Pending poll (suc k) s q

  -- How the loop ends: the future is ready, or fails, or a turn fails or panics.
  pub data LastPoll (poll : S → Poll V E × S) (s : S)
      : Result (Result (Result V E) IoError × S) Fault → Type 0 where
    is_ready : (v : V) (q : S) → poll s ≡ (ok (ready v), q) → LastPoll poll s (ok (ok (ok v), q))
    future_failed : (e : E) (q : S) → poll s ≡ (err e, q) → LastPoll poll s (ok (ok (err e), q))
    turn_failed :
        (e : IoError) (s1 q : S)
        → poll s ≡ (ok not_ready, s1)
        → run_once s1 ≡ ok (err e, q)
        → LastPoll poll s (ok (err e, q))
    turn_died :
        (f : Fault) (s1 : S)
        → poll s ≡ (ok not_ready, s1)
        → run_once s1 ≡ err f
        → LastPoll poll s (err f)

  LastPoll-run_future :
      (poll : S → Poll V E × S) (n : ℕ) (s : S) (r : Result (Result (Result V E) IoError × S) Fault)
      → LastPoll poll s r
      → run_future poll (suc n) s ≡ r
  unfolding run_future
  LastPoll-run_future poll n s r (is_ready v q e) = ground (arith, e)
  LastPoll-run_future poll n s r (future_failed x q e) = ground (arith, e)
  LastPoll-run_future poll n s r (turn_failed x s1 q e t) = ground (arith, e, t)
  LastPoll-run_future poll n s r (turn_died f s1 e t) = ground (arith, e, t)

  more_fuel :
      (poll : S → Poll V E × S) (n : ℕ) (s s1 s2 : S)
      → poll s ≡ (ok not_ready, s1)
      → run_once s1 ≡ ok (ok tt, s2)
      → run_future poll (suc n) s ≡ run_future poll n s2
  unfolding run_future
  more_fuel poll n s s1 s2 e t = ground (arith, e, t)

  -- `run_future` returns once the future is ready: if it is not for `k` turns, which succeed, and then is
  -- ready, or fails, or the next turn fails or panics, the call with fuel for more than `k` polls gives
  -- exactly that, in the state that is reached then.
  pub run_future-Pending :
      (poll : S → Poll V E × S) (k n : ℕ) (s q : S)
      (r : Result (Result (Result V E) IoError × S) Fault)
      → Pending poll k s q
      → LastPoll poll q r
      → k < n
      → run_future poll n s ≡ r
  run_future-Pending poll k zero s q r wait last below = absurd (omega (arith, below))
  run_future-Pending poll k (suc n) s q r (no_turn _) last below =
      LastPoll-run_future poll n s r last
  run_future-Pending poll k (suc n) s q r (turn_first j _ s1 s2 _ e t rest) last below =
      more_fuel poll n s s1 s2 e t ∙ run_future-Pending poll j n s2 q r rest last (omega arith)

  -- How a call with fuel for so many polls ends.
  pub data Stopped (poll : S → Poll V E × S) (n : ℕ) (s : S)
      (r : Result (Result (Result V E) IoError × S) Fault) : Type 0 where
    stopped : (k : ℕ) (q : S) → Pending poll k s q → k < n → LastPoll poll q r → Stopped poll n s r
    out_of_fuel : (q : S) → Pending poll n s q → r ≡ err diverges → Stopped poll n s r

  Stopped-turn :
      (poll : S → Poll V E × S) (n : ℕ) (s s1 s2 : S)
      (r : Result (Result (Result V E) IoError × S) Fault)
      → poll s ≡ (ok not_ready, s1)
      → run_once s1 ≡ ok (ok tt, s2)
      → Stopped poll n s2 r
      → Stopped poll (suc n) s r
  Stopped-turn poll n s s1 s2 r e t (stopped k q wait below last) =
      stopped (suc k) q (turn_first k s s1 s2 q e t wait) (omega (arith, below)) last
  Stopped-turn poll n s s1 s2 r e t (out_of_fuel q wait is) =
      out_of_fuel q (turn_first n s s1 s2 q e t wait) is

  stop_now :
      (poll : S → Poll V E × S) (n : ℕ) (s : S) (r : Result (Result (Result V E) IoError × S) Fault)
      → LastPoll poll s r
      → Stopped poll (suc n) s (run_future poll (suc n) s)
  stop_now poll n s r last =
      subst (Stopped poll (suc n) s) (sym (LastPoll-run_future poll n s r last))
        (stopped 0 s (no_turn s) (omega arith) last)

  Stopped-not_ready :
      (poll : S → Poll V E × S) (n : ℕ) (s s1 : S)
      (t : Result (Result (Unit {0}) IoError × S) Fault)
      → poll s ≡ (ok not_ready, s1)
      → run_once s1 ≡ t
      → ((s2 : S) → Stopped poll n s2 (run_future poll n s2))
      → Stopped poll (suc n) s (run_future poll (suc n) s)
  Stopped-not_ready poll n s s1 (err f) e t again = stop_now poll n s _ (turn_died f s1 e t)
  Stopped-not_ready poll n s s1 (ok (err x, q)) e t again =
      stop_now poll n s _ (turn_failed x s1 q e t)
  Stopped-not_ready poll n s s1 (ok (ok u, s2)) e t again =
      subst (Stopped poll (suc n) s) (sym (more_fuel poll n s s1 s2 e t))
        (Stopped-turn poll n s s1 s2 (run_future poll n s2) e t (again s2))

  Stopped-poll :
      (poll : S → Poll V E × S) (n : ℕ) (s : S) (x : Poll V E × S)
      → poll s ≡ x
      → ((s2 : S) → Stopped poll n s2 (run_future poll n s2))
      → Stopped poll (suc n) s (run_future poll (suc n) s)
  Stopped-poll poll n s (err x, q) e again = stop_now poll n s _ (future_failed x q e)
  Stopped-poll poll n s (ok (ready v), q) e again = stop_now poll n s _ (is_ready v q e)
  Stopped-poll poll n s (ok not_ready, s1) e again =
      Stopped-not_ready poll n s s1 (run_once s1) e refl again

  -- Whatever `run_future` gives, it gives it for that reason: after fewer turns than the fuel allows, all
  -- of which succeed and find the future not ready, the future is ready or fails or a turn fails or
  -- panics, and the result is that; or the future is not ready as often as the fuel allows.
  pub run_future-Stopped :
      (poll : S → Poll V E × S) (n : ℕ) (s : S) → Stopped poll n s (run_future poll n s)
  unfolding run_future
  run_future-Stopped poll zero s = out_of_fuel s (no_turn s) refl
  run_future-Stopped poll (suc n) s =
      Stopped-poll poll n s (poll s) refl (run_future-Stopped poll n)

module _ {S IoError : Type 0} (run_once : S → Result (Result (Unit {0}) IoError × S) Fault) where
  unfoldable pub run : ℕ → S → Result (Result (Unit {0}) IoError × S) Fault
  run zero s = err diverges
  run (suc n) s = run_once s >>= λ t. elim (t.0) [ err e ↦ ok (err e, t.1) | ok u ↦ run n t.1 ]

  -- So many turns succeed one after the other, from the first state to the second.
  pub data Turns : ℕ → S → S → Type 0 where
    no_turn : (s : S) → Turns 0 s s
    turn_first :
        (k : ℕ) (s s1 q : S) → run_once s ≡ ok (ok tt, s1) → Turns k s1 q → Turns (suc k) s q

  pub record Failed (s q : S) (r : Result (Unit {0}) IoError) : Type 0 where
    pub turns : ℕ
    pub before : S
    pub error : IoError
    pub succeed : Turns turns s before
    pub fails : run_once before ≡ ok (err error, q)
    pub result : r ≡ err error

  Failed-turn :
      (n : ℕ) (s q : S) (r : Result (Unit {0}) IoError)
      (t : Result (Result (Unit {0}) IoError × S) Fault)
      → run_once s ≡ t
      → ((s1 : S) → run n s1 ≡ ok (r, q) → Failed s1 q r)
      → run (suc n) s ≡ ok (r, q)
      → Failed s q r
  unfolding run
  Failed-turn n s q r (err f) is again e = absurd (ground (arith, is, e))
  Failed-turn n s q r (ok (err x, q1)) is again e = record {
    turns = 0;
    before = s;
    error = x;
    succeed = no_turn s;
    fails = ground (arith, is, e);
    result = ground (arith, is, e);
  }
  Failed-turn n s q r (ok (ok u, s1)) is again e =
      let rest = again s1 (ground (arith, is, e)) in
      record {
        turns = suc rest.turns;
        before = rest.before;
        error = rest.error;
        succeed = turn_first rest.turns s s1 rest.before is rest.succeed;
        fails = rest.fails;
        result = rest.result;
      }

  -- `run` never returns with success: what it returns is the error of the first turn that fails.
  pub run-Failed :
      (n : ℕ) (s q : S) (r : Result (Unit {0}) IoError) → run n s ≡ ok (r, q) → Failed s q r
  unfolding run
  run-Failed zero s q r e = absurd (ground (arith, e))
  run-Failed (suc n) s q r e = Failed-turn n s q r (run_once s) refl (λ s1. run-Failed n s1 q r) e
