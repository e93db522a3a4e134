-- ===== src/Poll/Mio.antt =====
-- What src/io/poll/poller.rs uses of the `mio` crate: the registry of an operating-system poller. It
-- is seen through `armed`, which tells for an evented object, named by a number, the token and the
-- readiness that a one-shot registration of it waits for.
use fibers_rs.Prelude.{
  ℕ, ◌≡◌, Bool, true, false, ◌||◌, Option, none, some, List, [], ◌∷◌, ◌==◌, if◌then◌else◌,
}
use fibers_rs.Prelude.Results.{Result, ok}

pub record Ready : Type 0 where
  pub readable : Bool
  pub writable : Bool

pub record Event : Type 0 where
  pub token : ℕ
  pub readiness : Ready

abbrev pub has_event : List Event → ℕ → Bool
has_event [] t = false
has_event (e ∷ es) t = e.token == t || has_event es t

pub record Mio (IoError : Type 0) : Type 1 where
  pub Poll : Type 0
  pub armed : Poll → ℕ → Option (ℕ × Ready)
  pub register : Poll → ℕ → ℕ → Ready → Result (Unit {0}) IoError × Poll
  pub reregister : Poll → ℕ → ℕ → Ready → Result (Unit {0}) IoError × Poll
  pub deregister : Poll → ℕ → Result (Unit {0}) IoError × Poll
  pub poll : Poll → Option ℕ → Result (List Event) IoError × Poll
  pub armed-register :
      (p : Poll) (evented token : ℕ) (interest : Ready) (e : ℕ)
      → (register p evented token interest).0 ≡ ok tt
      → armed (register p evented token interest).1 e
        ≡ (if evented == e then some (token, interest) else armed p e)
  pub armed-reregister :
      (p : Poll) (evented token : ℕ) (interest : Ready) (e : ℕ)
      → (reregister p evented token interest).0 ≡ ok tt
      → armed (reregister p evented token interest).1 e
        ≡ (if evented == e then some (token, interest) else armed p e)
  pub armed-deregister :
      (p : Poll) (evented e : ℕ)
      → (deregister p evented).0 ≡ ok tt
      → armed (deregister p evented).1 e ≡ (if evented == e then none else armed p e)
  -- An object whose token is not reported stays as it was.
  pub armed-poll :
      (p : Poll) (timeout : Option ℕ) (events : List Event) (e token : ℕ) (interest : Ready)
      → (poll p timeout).0 ≡ ok events
      → armed p e ≡ some (token, interest)
      → has_event events token ≡ false
      → armed (poll p timeout).1 e ≡ some (token, interest)
  pub poll-armed_before :
      (p : Poll) (timeout : Option ℕ) (events : List Event) (e token : ℕ) (interest : Ready)
      → (poll p timeout).0 ≡ ok events
      → armed (poll p timeout).1 e ≡ some (token, interest)
      → armed p e ≡ some (token, interest)
  -- An event is reported for the token of a registered object only.
  pub poll-armed :
      (p : Poll) (timeout : Option ℕ) (events : List Event) (token : ℕ)
      → (poll p timeout).0 ≡ ok events
      → has_event events token ≡ true
      → (e : ℕ) × (interest : Ready) × (armed p e ≡ some (token, interest))
