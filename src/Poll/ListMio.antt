-- ===== src/Poll/ListMio.antt =====
-- A concrete registry, a map from objects to registrations whose poll reports the first one: it shows
-- that what src/io/poll/poller.rs relies on can hold, and runs the tests.
use fibers_rs.Prelude.{ℕ, ◌≡◌, true, false, some, List, [], ◌∷◌, arith}
use fibers_rs.Prelude.HashMap.{HashMap, get, insert, remove, get-insert, get-remove}
use fibers_rs.Prelude.Results.{ok}
use fibers_rs.Poll.Mio.{Mio, Ready, Event, has_event}

abbrev pub Registry : Type 0
Registry = HashMap (ℕ × Ready)

abbrev pub report : Registry → List Event × Registry
report [] = ([], [])
report ((e, (t, i)) ∷ m) = (record { token = t; readiness = i } ∷ [], remove m e)

pub report-kept :
    (m : Registry) (e token : ℕ) (interest : Ready)
    → get m e ≡ some (token, interest)
    → has_event (report m).0 token ≡ false
    → get (report m).1 e ≡ some (token, interest)
unfolding get
report-kept [] e token interest q free = absurd (ground (arith, q))
report-kept ((d, (t, i)) ∷ m) e token interest q free = ground (arith, q, free, get-remove m d e)

pub report-before :
    (m : Registry) (e token : ℕ) (interest : Ready)
    → get (report m).1 e ≡ some (token, interest)
    → get m e ≡ some (token, interest)
unfolding get
report-before [] e token interest q = q
report-before ((d, (t, i)) ∷ m) e token interest q = ground (arith, q, get-remove m d e)

pub report-known :
    (m : Registry) (token : ℕ)
    → has_event (report m).0 token ≡ true
    → (e : ℕ) × (interest : Ready) × (get m e ≡ some (token, interest))
unfolding get
report-known [] token b = absurd (ground (arith, b))
report-known ((d, (t, i)) ∷ m) token b = (d, i, ground (arith, b))

abbrev pub list_mio : Mio ℕ
list_mio = record {
  Poll = Registry;
  armed = get;
  register = λ p e t i. (ok tt, insert p e (t, i));
  reregister = λ p e t i. (ok tt, insert p e (t, i));
  deregister = λ p e. (ok tt, remove p e);
  poll = λ p timeout. (ok (report p).0, (report p).1);
  armed-register = λ p evented t i e q. get-insert p evented (t, i) e;
  armed-reregister = λ p evented t i e q. get-insert p evented (t, i) e;
  armed-deregister = λ p evented e q. get-remove p evented e;
  armed-poll = λ p timeout events e t i q a free. report-kept p e t i a (ground (arith, q, free));
  poll-armed_before = λ p timeout events e t i q a. report-before p e t i a;
  poll-armed = λ p timeout events t q b. report-known p t (ground (arith, q, b));
}
