-- ===== src/Poll/Handles/Serving.antt =====
-- The users of a poller and the poller (src/io/poll/poller.rs), in any interleaving of their steps.
pub mod Users
pub mod Taken
pub mod Served
use fibers_rs.Prelude.{
  ℕ, zero, suc, ◌+◌, ◌<◌, ◌≤◌, ◌≡◌, ◌≢◌, refl, sym, subst, ap, ◌∙◌, Bool, true, false, none, some,
  Option, List, [], ◌∷◌, ◌++◌, All, count, count_by-append, arith, inl, inr, ◌⊎◌, Option-cases,
  Bool-cases, ◌==◌,
}
use fibers_rs.Prelude.HashMap.{contains_key, get, is_some, len, get-insert, get-remove}
use fibers_rs.Prelude.Usize.{wrapping_add, usize_mod}
use fibers_rs.Prelude.Results.{ok, err}
use fibers_rs.Collections.Tree.{SplayMap}
use fibers_rs.Collections.ListMap.{key_ord}
use fibers_rs.Collections.{HeapMap}
use fibers_rs.Collections.Laws.{find, push_if_absent_lem, remove_key_lem}
use fibers_rs.Poll.Mio.{Mio, Event}
use fibers_rs.Poll.Poller.{
  Poller, Request, Interest, Registrant, register, deregister, monitor, set_timeout, cancel_timeout,
  handle_request, handle_event, expire, fresh_token, register_again, io, add_waiting,
}
use fibers_rs.Poll.Poller.Events.{expire_lem}
use fibers_rs.Poll.Poller.Whole.{IsServable, handle_request-result}
use fibers_rs.Poll.Handles as Handles
use fibers_rs.Poll.Handles.{Polling, CancelTimeout, send, new_handle, drop_handle, cancel}
use fibers_rs.Poll.Handles.Orderly.{
  All-append, MayFollow, Spares, token_of, timeout_of, IsFitting, IsOrderly, IsOrderly-map,
  IsOrderly-append, IsKept, IsKept-IsFitting, IsKept-IsOrderly,
}

pub data IsRegister {W R : Type 0} : Request W R → Type 0 where
  registering : (evented : ℕ) (reply : R) → IsRegister (register evented reply)

module _ {W R IoError : Type 0} (M : Mio IoError) (S : SplayMap (ℕ × ℕ) R key_ord) where
  -- The poller handles the first of its requests; what it does then, `Poller::poll` does.
  pub data Step : Polling W R M.Poll S.Map → Polling W R M.Poll S.Map → Type 0 where
    registers :
        (w : Polling W R M.Poll S.Map) (evented : ℕ) (reply : R)
        → Step w (Handles.register w evented reply)
    monitors :
        (w : Polling W R M.Poll S.Map) (token : ℕ) (interest : Interest) (monitored : W)
        → 0 < count token w.handles
        → Step w (Handles.monitor w token interest monitored)
    drops :
        (w : Polling W R M.Poll S.Map) (token : ℕ) (before after : List ℕ)
        → w.handles ≡ before ++ token ∷ after
        → Step w (drop_handle w token (before ++ after))
    sets :
        (w : Polling W R M.Poll S.Map) (now delay_from_now : ℕ) (tx : R)
        → w.next_timeout_id + 1 < usize_mod
        → Step w (Handles.set_timeout w now delay_from_now tx).1
    cancels : (w : Polling W R M.Poll S.Map) (c : CancelTimeout) → Step w (cancel w c)
    replies :
        (w : Polling W R M.Poll S.Map) (evented token next : ℕ) (reply : R)
        (rest : List (Request W R))
        → w.poller.requests ≡ register evented reply ∷ rest
        → fresh_token M S (record (w.poller) { requests = rest }) ≡ some (token, next)
        → Step w (
            new_handle
              (record w {
                poller =
                    (handle_request M S
                      (record (w.poller) { requests = rest })
                      (register evented reply)).1;
              })
              token)
    serves :
        (w : Polling W R M.Poll S.Map) (q : Request W R) (rest : List (Request W R))
        → w.poller.requests ≡ q ∷ rest
        → ¬ IsRegister q
        → Step w
            (record w { poller = (handle_request M S (record (w.poller) { requests = rest }) q).1 })
    expires :
        (w : Polling W R M.Poll S.Map) (now : ℕ)
        → Step w (record w { poller = (expire M S w.poller now).1 })
    polls :
        (w : Polling W R M.Poll S.Map) (q : M.Poll)
        → Step w (record w { poller = record (w.poller) { os_poll = q } })
    handles_event :
        (w : Polling W R M.Poll S.Map) (e : Event)
        → Step w (record w { poller = (handle_event M S w.poller e).1 })

  -- A new poller has nothing.
  pub data Reach : Polling W R M.Poll S.Map → Type 0 where
    new :
        (w : Polling W R M.Poll S.Map)
        → w.poller.requests ≡ []
        → w.handles ≡ []
        → ((k : ℕ × ℕ) → find S w.poller.timeout_queue k ≡ none)
        → Reach w
    later : {w v : Polling W R M.Poll S.Map} → Reach w → Step w v → Reach v

  pub record IsInOrder (w : Polling W R M.Poll S.Map) : Type 0 where
    pub orderly : IsOrderly M S w.poller w.next_timeout_id w.poller.requests
    pub named :
        (t : ℕ)
        → 0 < count t w.handles
        → (contains_key w.poller.registrants t ≡ true) × All (Spares t) w.poller.requests
    pub once : (t : ℕ) → count t w.handles ≤ 1
    pub numbered :
        (k : ℕ × ℕ) (r : R) → find S w.poller.timeout_queue k ≡ some r → k.1 < w.next_timeout_id
