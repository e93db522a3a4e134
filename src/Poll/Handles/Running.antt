-- ===== src/Poll/Handles/Running.antt =====
-- A poller, polled again and again, and its users in between (src/io/poll/poller.rs).
pub mod Parts
pub mod Owned
pub mod Polled
pub mod Forever
use fibers_rs.Prelude.{ℕ, ◌+◌, ◌<◌, ◌≡◌, ◌≢◌, none, some, Option, List, [], ◌∷◌, ◌++◌, All, count}
use fibers_rs.Prelude.HashMap.{get, len}
use fibers_rs.Prelude.Usize.{usize_mod}
use fibers_rs.Prelude.Results.{Result, ok, ◌>>=◌}
use fibers_rs.Collections
use fibers_rs.Collections.Tree.{SplayMap}
use fibers_rs.Collections.ListMap.{key_ord}
use fibers_rs.Poll.Mio.{Mio}
use fibers_rs.Poll.Poller.{
  Poller, Request, Interest, register, deregister, monitor, set_timeout, cancel_timeout,
  fresh_token, poll,
}
use fibers_rs.Poll.Poller.Requests.{IsFresh}
use fibers_rs.Poll.Handles as Handles
use fibers_rs.Poll.Handles.{Polling, CancelTimeout, drop_handle, cancel}

-- The object that a request registers.
abbrev pub object_of : {W R : Type 0} → Request W R → Option ℕ
object_of (register evented reply) = some evented
object_of (deregister token) = none
object_of (monitor token interest notifier) = none
object_of (set_timeout timeout_id expiry_time reply) = none
object_of (cancel_timeout timeout_id expiry_time) = none

module _ {W R IoError : Type 0} (M : Mio IoError) (S : SplayMap (ℕ × ℕ) R key_ord) where
  -- The token of the handle that the next `poll` makes, when it handles a `Register`.
  abbrev pub new_tokens : Poller W R M.Poll S.Map → List (Request W R) → List ℕ
  new_tokens p [] = []
  new_tokens p (register evented reply ∷ rest) =
      elim (fresh_token M S (record p { requests = rest })) [ none ↦ [] | some x ↦ x.0 ∷ [] ]
  new_tokens p (deregister token ∷ rest) = []
  new_tokens p (monitor token interest notifier ∷ rest) = []
  new_tokens p (set_timeout timeout_id expiry_time reply ∷ rest) = []
  new_tokens p (cancel_timeout timeout_id expiry_time ∷ rest) = []

  -- A step of a user, or a call of `Poller::poll` that succeeds. Whoever calls `register` gives an
  -- object away that nobody else has; numbers of timeouts and tokens do not run out.
  pub data Turn : Polling W R M.Poll S.Map → Polling W R M.Poll S.Map → Type 0 where
    registers :
        (w : Polling W R M.Poll S.Map) (evented : ℕ) (reply : R)
        → IsFresh M S w.poller evented
        → All (λ q. object_of q ≢ some evented) w.poller.requests
        → Turn w (Handles.register w evented reply)
    monitors :
        (w : Polling W R M.Poll S.Map) (token : ℕ) (interest : Interest) (monitored : W)
        → 0 < count token w.handles
        → Turn w (Handles.monitor w token interest monitored)
    drops :
        (w : Polling W R M.Poll S.Map) (token : ℕ) (before after : List ℕ)
        → w.handles ≡ before ++ token ∷ after
        → Turn w (drop_handle w token (before ++ after))
    sets :
        (w : Polling W R M.Poll S.Map) (now delay_from_now : ℕ) (tx : R)
        → w.next_timeout_id + 1 < usize_mod
        → Turn w (Handles.set_timeout w now delay_from_now tx).1
    cancels : (w : Polling W R M.Poll S.Map) (c : CancelTimeout) → Turn w (cancel w c)
    polled :
        (w : Polling W R M.Poll S.Map) (now : ℕ) (timeout : Option ℕ)
        → len w.poller.registrants < usize_mod
        → (poll M S w.poller now timeout).0 ≡ ok tt
        → Turn w (record w {
          poller = (poll M S w.poller now timeout).1;
          handles = new_tokens w.poller w.poller.requests ++ w.handles;
        })

  -- `Poller::with_capacity`; `os_poll` is what `mio::Poll::new` returns. The capacity is a hint for mio.
  unfoldable pub with_capacity :
      Result M.Poll IoError → ℕ → Result (Poller W R M.Poll S.Map) IoError
  unfolding Collections.new
  with_capacity os_poll capacity = os_poll >>= λ p. ok (record {
    os_poll = p;
    requests = [];
    next_token = 0;
    registrants = [];
    timeout_queue = Collections.new S;
    effects = [];
  })

  -- `Poller::new`
  unfoldable pub new_poller : Result M.Poll IoError → Result (Poller W R M.Poll S.Map) IoError
  unfolding with_capacity
  new_poller os_poll = with_capacity os_poll 128

  -- mio's new poller knows no object.
  pub data Reach : Polling W R M.Poll S.Map → Type 0 where
    new :
        (os_poll : M.Poll) (p : Poller W R M.Poll S.Map)
        → ((e : ℕ) → M.armed os_poll e ≡ none)
        → new_poller (ok os_poll) ≡ ok p
        → Reach (record { poller = p; next_timeout_id = 0; handles = [] })
    later : {w v : Polling W R M.Poll S.Map} → Reach w → Turn w v → Reach v
