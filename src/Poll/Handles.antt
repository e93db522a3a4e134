-- ===== src/Poll/Handles.antt =====
-- src/io/poll/poller.rs: what fibers do with the handles of a poller that lives, `PollerHandle`,
-- `EventedHandle` and the `CancelTimeout` of a timeout.
pub mod Orderly
pub mod Serving
pub mod Running
mod Tests
use fibers_rs.Prelude.{ℕ, ◌+◌, List, [], ◌∷◌, ◌++◌}
use fibers_rs.Prelude.Usize.{wrapping_add}
use fibers_rs.Poll.Poller as Pollers
use fibers_rs.Poll.Poller.{Poller, Request, Interest}

pub record CancelTimeout : Type 0 where
  pub timeout_id : ℕ
  pub expiry_time : ℕ

-- The poller with its request channel, the counter that the `PollerHandle`s share, and the tokens of the
-- `EventedHandle`s that exist, one for all references to the same.
pub record Polling (W R P H : Type 0) : Type 0 where
  pub poller : Poller W R P H
  pub next_timeout_id : ℕ
  pub handles : List ℕ

module _ {W R P H : Type 0} where
  -- `request_tx.send(request)`
  unfoldable pub send : Polling W R P H → Request W R → Polling W R P H
  send w request = record w {
    poller = record (w.poller) { requests = w.poller.requests ++ request ∷ [] };
  }

  -- `PollerHandle::register`
  unfoldable pub register : Polling W R P H → ℕ → R → Polling W R P H
  unfolding send
  register w evented reply = send w (Pollers.register evented reply)

  -- `EventedHandle::new`, which the reply to `register` calls
  unfoldable pub new_handle : Polling W R P H → ℕ → Polling W R P H
  new_handle w token = record w { handles = token ∷ w.handles }

  -- `EventedHandle::monitor`
  unfoldable pub monitor : Polling W R P H → ℕ → Interest → W → Polling W R P H
  unfolding send
  monitor w token interest monitored = send w (Pollers.monitor token interest monitored)

  -- `Drop for EventedHandle`; `handles` are those that are left.
  unfoldable pub drop_handle : Polling W R P H → ℕ → List ℕ → Polling W R P H
  unfolding send
  drop_handle w token handles = record (send w (Pollers.deregister token)) { handles = handles }

  -- `set_timeout`; `now` is what `Instant::now()` returns, and `tx` the sender of the new channel.
  unfoldable pub set_timeout : Polling W R P H → ℕ → ℕ → R → CancelTimeout × Polling W R P H
  unfolding send
  set_timeout w now delay_from_now tx =
      let expiry_time = now + delay_from_now in
      let timeout_id = w.next_timeout_id in
      let w1 = record w { next_timeout_id = wrapping_add w.next_timeout_id 1 } in
      (
        record { timeout_id = timeout_id; expiry_time = expiry_time },
        send w1 (Pollers.set_timeout timeout_id expiry_time tx),
      )

  -- `CancelTimeout::cancel`
  unfoldable pub cancel : Polling W R P H → CancelTimeout → Polling W R P H
  unfolding send
  cancel w c = send w (Pollers.cancel_timeout c.timeout_id c.expiry_time)
