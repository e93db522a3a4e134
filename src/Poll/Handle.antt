-- ===== src/Poll/Handle.antt =====
-- src/io/poll/poller.rs: `PollerHandle` as the scheduler sees it.
use fibers_rs.Prelude.{Bool, false}

-- The request channel and the counter of timeouts that a handle shares are part of the poller's
-- state; what is a handle's own is whether a request has failed on it.
pub record PollerHandle : Type 0 where
  pub is_alive : Bool

-- `register` on a handle whose poller is gone.
unfoldable pub mark_dead : PollerHandle → PollerHandle
mark_dead h = record h { is_alive = false }
