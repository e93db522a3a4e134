-- ===== src/Poll/Tests.antt =====
-- A small poller (src/io/poll/poller.rs), and its theorems at concrete inputs.
use fibers_rs.Prelude.{ℕ, true, false, [], ◌∷◌, arith}
use fibers_rs.Prelude.HashMap.{get}
use fibers_rs.Collections.Tree.{SplayMap}
use fibers_rs.Collections.ListMap.{key_ord, list_map}
use fibers_rs.Poll.Mio.{Ready}
use fibers_rs.Poll.ListMio.{list_mio}
use fibers_rs.Poll.Poller.{Registrant, Poller, expire, mio_interest}
use fibers_rs.Poll.Poller.Waiting.{IsArmed}
use fibers_rs.Poll.Poller.Requests.{none_exempt}
use fibers_rs.Poll.Poller.Events.{expire_lem, Expired}

abbrev timeouts : SplayMap (ℕ × ℕ) ℕ key_ord
timeouts = list_map (ℕ × ℕ) ℕ key_ord

-- A reader and a writer wait for object 5, which has the token 0; two timeouts are set.
abbrev registrant0 : Registrant ℕ
registrant0 = record {
  is_first = false;
  evented = 5;
  read_waitings = 31 ∷ [];
  write_waitings = 32 ∷ [];
}

abbrev both : Ready
both = record { readable = true; writable = true }

abbrev poller0 : Poller ℕ ℕ list_mio.Poll timeouts.Map
poller0 = record {
  os_poll = (5, (0, both)) ∷ [];
  requests = [];
  next_token = 1;
  registrants = (0, registrant0) ∷ [];
  timeout_queue = record { inner = ((9, 0), 70) ∷ ((4, 1), 71) ∷ [] };
  effects = [];
}

poller0-IsArmed : IsArmed list_mio timeouts none_exempt poller0
unfolding get mio_interest
poller0-IsArmed = record {
  armed = λ t r e wanted free. ground (arith, e, wanted);
  apart = λ t u r s e f q. ground (arith, e, f);
  first = λ t r e f. ground (arith, e, f);
  known = λ e t i q. (registrant0, ground (arith, q), ground (arith, q));
}

expire_lem_example : Expired list_mio timeouts poller0 5 (expire list_mio timeouts poller0 5)
expire_lem_example = expire_lem list_mio timeouts poller0 5
