-- ===== src/Net/Retry.antt =====
-- How every operation of src/net waits: it polls its monitor, if it has one, and else tries the system
-- call; a call that would block gets a new monitor.
use fibers_rs.Prelude.{
  ℕ, zero, suc, ◌+◌, ◌≡◌, refl, subst, true, false, Option, none, some, arith, inl, inr, Bool-cases,
}
use fibers_rs.Prelude.Results.{Result, ok, err, Poll, ready, not_ready, Fault, diverges}
use fibers_rs.Sync.Oneshot.{MonitorError}
use fibers_rs.Net.Reactor.{IoError, kind, is_would_block, Reactor}

-- How it ends: with a value, an error of the call, an error of the monitor, or not yet.
pub data Retried (T : Type 0) : Type 0 where
  finished : T → Retried T
  refused : IoError → Retried T
  cut : MonitorError IoError → Retried T
  blocked : Retried T

three : (n : ℕ) → n + 3 ≡ suc (suc (suc n))
three n = omega arith

module _ (R : Reactor) where
  open R use {World, Mon, poll_monitor}

  module _ {T : Type 0} (call : World → Result T IoError × World)
      (start : World → Mon × World) where
    unfoldable pub retry : ℕ → Option Mon → World → Result (Retried T × Option Mon × World) Fault
    retry zero m w = err diverges
    retry (suc n) (some m) w =
        let (r, m', w') = poll_monitor m w in
        elim r [
          | err e ↦ ok (cut e, none, w')
          | ok a ↦ elim a [ not_ready ↦ ok (blocked, some m', w') | ready u ↦ retry n none w' ]
        ]
    retry (suc n) none w =
        let (r, w') = call w in
        elim r [
          | ok v ↦ ok (finished v, none, w')
          | err e ↦ elim (is_would_block (kind e)) [
            | true ↦ (let (m, w2) = start w' in retry n (some m) w2)
            | false ↦ ok (refused e, none, w')
          ]
        ]

    -- What the last step was.
    pub data Ended : Retried T × Option Mon × World → Type 0 where
      called : (w0 w : World) (v : T) → call w0 ≡ (ok v, w) → Ended (finished v, none, w)
      call_failed :
          (w0 w : World) (e : IoError)
          → call w0 ≡ (err e, w)
          → is_would_block (kind e) ≡ false
          → Ended (refused e, none, w)
      monitor_failed :
          (m m' : Mon) (w0 w : World) (e : MonitorError IoError)
          → poll_monitor m w0 ≡ (err e, m', w)
          → Ended (cut e, none, w)
      monitors :
          (m m' : Mon) (w0 w : World)
          → poll_monitor m w0 ≡ (ok not_ready, m', w)
          → Ended (blocked, some m', w)

    -- No event arrives between the start of a monitor and its first `poll`.
    abbrev pub IsCalm : Type 0
    IsCalm = (w : World) → (poll_monitor (start w).0 (start w).1).0 ≡ ok not_ready

    Ended-call :
        (n : ℕ) (w : World)
        → ((m : Mon) (w2 : World) (r : Retried T × Option Mon × World)
            → retry n (some m) w2 ≡ ok r
            → Ended r)
        → (r : Retried T × Option Mon × World) (x : Result T IoError × World) → call w ≡ x
        → retry (suc n) none w ≡ ok r
        → Ended r
    unfolding retry
    Ended-call n w again r (ok v, w') is e =
        let q : (finished v, none, w') ≡ r = ground (arith, is, e) in
        subst Ended q (called w w' v is)
    Ended-call n w again r (err x, w') is e = elim (Bool-cases (is_would_block (kind x))) [
      | inl would ↦ again (start w').0 (start w').1 r (ground (arith, is, would, e))
      | inr fatal ↦
          let q : (refused x, none, w') ≡ r = ground (arith, is, fatal, e) in
          subst Ended q (call_failed w w' x is fatal)
    ]

    Ended-monitor :
        (n : ℕ) (m : Mon) (w : World)
        → ((w2 : World) (r : Retried T × Option Mon × World) → retry n none w2 ≡ ok r → Ended r)
        → (r : Retried T × Option Mon × World)
          (x : Poll (Unit {0}) (MonitorError IoError) × Mon × World)
        → poll_monitor m w ≡ x
        → retry (suc n) (some m) w ≡ ok r
        → Ended r
    unfolding retry
    Ended-monitor n m w again r (err x, m', w') is e =
        let q : (cut x, none, w') ≡ r = ground (arith, is, e) in
        subst Ended q (monitor_failed m m' w w' x is)
    Ended-monitor n m w again r (ok not_ready, m', w') is e =
        let q : (blocked, some m', w') ≡ r = ground (arith, is, e) in
        subst Ended q (monitors m m' w w' is)
    Ended-monitor n m w again r (ok (ready u), m', w') is e = again w' r (ground (arith, is, e))

    -- Whatever `retry` returns, its last step was of that kind.
    pub retry-Ended :
        (n : ℕ) (m : Option Mon) (w : World) (r : Retried T × Option Mon × World)
        → retry n m w ≡ ok r
        → Ended r
    unfolding retry
    retry-Ended zero m w r e = absurd (ground (arith, e))
    retry-Ended (suc n) (some m) w r e =
        Ended-monitor n m w (retry-Ended n none) r (poll_monitor m w) refl e
    retry-Ended (suc n) none w r e = Ended-call n w (λ m. retry-Ended n (some m)) r (call w) refl e

    -- A monitor that has just been started keeps the loop from going round again.
    started :
        IsCalm
        → (n : ℕ) (w : World)
        → (r : Retried T × Option Mon × World) × (retry (suc n) (some (start w).0) (start w).1
            ≡ ok r)
    unfolding retry
    started calm n w =
        let x = poll_monitor (start w).0 (start w).1 in
        ((blocked, some x.1, x.2), ground (arith, calm w))

    try_call :
        IsCalm
        → (n : ℕ) (w : World) (x : Result T IoError × World) → call w ≡ x
        → (r : Retried T × Option Mon × World) × (retry (suc (suc n)) none w ≡ ok r)
    unfolding retry
    try_call calm n w (ok v, w') is = ((finished v, none, w'), ground (arith, is))
    try_call calm n w (err x, w') is = elim (Bool-cases (is_would_block (kind x))) [
      | inl would ↦ let (r, q) = started calm n w' in (r, ground (arith, is, would, q))
      | inr fatal ↦ ((refused x, none, w'), ground (arith, is, fatal))
    ]

    poll_first :
        IsCalm
        → (n : ℕ) (m : Mon) (w : World) (x : Poll (Unit {0}) (MonitorError IoError) × Mon × World)
        → poll_monitor m w ≡ x
        → (r : Retried T × Option Mon × World) × (retry (suc (suc (suc n))) (some m) w ≡ ok r)
    unfolding retry
    poll_first calm n m w (err x, m', w') is = ((cut x, none, w'), ground (arith, is))
    poll_first calm n m w (ok not_ready, m', w') is = ((blocked, some m', w'), ground (arith, is))
    poll_first calm n m w (ok (ready u), m', w') is =
        let (r, q) = try_call calm n w' (call w') refl in (r, ground (arith, is, q))

    -- Three rounds are enough then, whatever the monitor and the system call return.
    pub retry_total :
        IsCalm
        → (n : ℕ) (m : Option Mon) (w : World)
        → (r : Retried T × Option Mon × World) × (retry (n + 3) m w ≡ ok r) × Ended r
    retry_total calm n (some m) w =
        let (r, q) = poll_first calm n m w (poll_monitor m w) refl in
        let q' : retry (n + 3) (some m) w ≡ ok r = rw (three n) q in
        (r, q', retry-Ended (n + 3) (some m) w r q')
    retry_total calm n none w =
        let (r, q) = try_call calm (suc n) w (call w) refl in
        let q' : retry (n + 3) none w ≡ ok r = rw (three n) q in
        (r, q', retry-Ended (n + 3) none w r q')
