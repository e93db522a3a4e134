-- ===== src/Poll/Handles/Orderly.antt =====
-- Requests in order (src/io/poll/poller.rs): none of them names what is not there when its turn comes.
use fibers_rs.Prelude.{
  ℕ, ◌<◌, ◌≤◌, ◌≡◌, ◌≢◌, true, none, Option, some, List, [], ◌∷◌, ◌++◌, All, arith,
}
use fibers_rs.Prelude.HashMap.{contains_key}
use fibers_rs.Collections.Tree.{SplayMap}
use fibers_rs.Collections.ListMap.{key_ord}
use fibers_rs.Collections.Laws.{find}
use fibers_rs.Poll.Mio.{Mio}
use fibers_rs.Poll.Poller.{
  Poller, Request, register, deregister, monitor, set_timeout, cancel_timeout,
}

pub All-append {ℓ κ} :
    {A : Type ℓ} (P : A → Type κ) (xs : List A) (y : A) → All P xs → P y → All P (xs ++ y ∷ [])
All-append P [] y a b = (b, tt)
All-append P (x ∷ xs) y (a, al) b = (a, All-append P xs y al b)

module _ {W R : Type 0} where
  -- The registrant that a request names.
  abbrev pub token_of : Request W R → Option ℕ
  token_of (register evented reply) = none
  token_of (deregister token) = some token
  token_of (monitor token interest notifier) = some token
  token_of (set_timeout timeout_id expiry_time reply) = none
  token_of (cancel_timeout timeout_id expiry_time) = none

  -- The timeout that a request sets.
  abbrev pub timeout_of : Request W R → Option ℕ
  timeout_of (register evented reply) = none
  timeout_of (deregister token) = none
  timeout_of (monitor token interest notifier) = none
  timeout_of (set_timeout timeout_id expiry_time reply) = some timeout_id
  timeout_of (cancel_timeout timeout_id expiry_time) = none

  -- The second request may follow the first one.
  abbrev pub MayFollow : Request W R → Request W R → Type 0
  MayFollow (deregister token) q = token_of q ≢ some token
  MayFollow (set_timeout timeout_id expiry_time reply) q = timeout_of q ≢ some timeout_id
  MayFollow (register evented reply) q = Unit
  MayFollow (monitor token interest notifier) q = Unit
  MayFollow (cancel_timeout timeout_id expiry_time) q = Unit

  -- Who holds a handle with this token relies on it.
  abbrev pub Spares : ℕ → Request W R → Type 0
  Spares token (deregister t) = t ≢ token
  Spares token (register evented reply) = Unit
  Spares token (monitor t interest notifier) = Unit
  Spares token (set_timeout timeout_id expiry_time reply) = Unit
  Spares token (cancel_timeout timeout_id expiry_time) = Unit

module _ {W R IoError : Type 0} (M : Mio IoError) (S : SplayMap (ℕ × ℕ) R key_ord) where
  -- The registrant or the timeout of a request is as it has to be, `next` the next timeout's number.
  abbrev pub IsFitting : Poller W R M.Poll S.Map → ℕ → Request W R → Type 0
  IsFitting p next (register evented reply) = Unit
  IsFitting p next (deregister token) = contains_key p.registrants token ≡ true
  IsFitting p next (monitor token interest notifier) = contains_key p.registrants token ≡ true
  IsFitting p next (set_timeout timeout_id expiry_time reply) =
      (timeout_id < next) × ((t : ℕ) → find S p.timeout_queue (t, timeout_id) ≡ none)
  IsFitting p next (cancel_timeout timeout_id expiry_time) = Unit

  abbrev pub IsOrderly : Poller W R M.Poll S.Map → ℕ → List (Request W R) → Type 0
  IsOrderly p next [] = Unit
  IsOrderly p next (q ∷ qs) = IsFitting p next q × All (MayFollow q) qs × IsOrderly p next qs

  pub IsOrderly-map :
      (p p' : Poller W R M.Poll S.Map) (next next' : ℕ) (P : Request W R → Type 0)
      (qs : List (Request W R))
      → ((q : Request W R) → P q → IsFitting p next q → IsFitting p' next' q)
      → All P qs
      → IsOrderly p next qs
      → IsOrderly p' next' qs
  IsOrderly-map p p' next next' P [] f a h = tt
  IsOrderly-map p p' next next' P (q ∷ qs) f (a, al) (fit, follow, h) =
      (f q a fit, follow, IsOrderly-map p p' next next' P qs f al h)

  pub IsOrderly-append :
      (p : Poller W R M.Poll S.Map) (next : ℕ) (qs : List (Request W R)) (q : Request W R)
      → IsFitting p next q
      → All (λ e. MayFollow e q) qs
      → IsOrderly p next qs
      → IsOrderly p next (qs ++ q ∷ [])
  IsOrderly-append p next [] q fit a h = (fit, tt, tt)
  IsOrderly-append p next (e ∷ qs) q fit (a, al) (fit_e, follow, h) =
      (fit_e, All-append (MayFollow e) qs q follow a, IsOrderly-append p next qs q fit al h)

  -- What `p'` keeps of `p`: registrants stay, timeouts may go.
  pub record IsKept (p p' : Poller W R M.Poll S.Map) : Type 0 where
    pub live : (t : ℕ) → contains_key p.registrants t ≡ true → contains_key p'.registrants t ≡ true
    pub timed : (k : ℕ × ℕ) → find S p.timeout_queue k ≡ none → find S p'.timeout_queue k ≡ none

  pub IsKept-IsFitting :
      (p p' : Poller W R M.Poll S.Map) (next next' : ℕ)
      → IsKept p p'
      → next ≤ next'
      → (q : Request W R) → IsFitting p next q
      → IsFitting p' next' q
  IsKept-IsFitting p p' next next' h le (register evented reply) fit = tt
  IsKept-IsFitting p p' next next' h le (deregister token) fit = h.live token fit
  IsKept-IsFitting p p' next next' h le (monitor token interest notifier) fit = h.live token fit
  IsKept-IsFitting p p' next next' h le (set_timeout i e r) (below, absent) =
      (omega (arith, below, le), λ t. h.timed (t, i) (absent t))
  IsKept-IsFitting p p' next next' h le (cancel_timeout i e) fit = tt

  any : (qs : List (Request W R)) → All (λ q. Unit {0}) qs
  any [] = tt
  any (q ∷ qs) = (tt, any qs)

  pub IsKept-IsOrderly :
      (p p' : Poller W R M.Poll S.Map) (next next' : ℕ) (qs : List (Request W R))
      → IsKept p p'
      → next ≤ next'
      → IsOrderly p next qs
      → IsOrderly p' next' qs
  IsKept-IsOrderly p p' next next' qs h le o =
      IsOrderly-map p p' next next' (λ q. Unit) qs (λ q u. IsKept-IsFitting p p' next next' h le q)
        (any qs) o
