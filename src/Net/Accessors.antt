-- ===== src/Net/Accessors.antt =====
-- The accessors of sockets (src/net/tcp.rs, src/net/udp.rs): calls of the system on the socket behind the
-- lock of its handle.
use fibers_rs.Prelude.{◌≡◌, refl, Bool, Option, none, some, ap, ◌∙◌}
use fibers_rs.Prelude.Results.{Result, ok, Fault}
use fibers_rs.SyncAtomic.{AtomicCell}
use fibers_rs.Poll.Evented.{with_lock, with_lock_lem}

-- The system calls on a socket of mio. An error of the socket is reported once, and an option that has
-- been set is what is read.
pub record SocketOs (Socket Addr IoError : Type 0) : Type 0 where
  pub local_addr : Socket → Result Addr IoError × Socket
  pub peer_addr : Socket → Result Addr IoError × Socket
  pub take_error : Socket → Result (Option IoError) IoError × Socket
  pub nodelay : Socket → Result Bool IoError × Socket
  pub set_nodelay : Bool → Socket → Result (Unit {0}) IoError × Socket
  pub take_error-cleared :
      (s : Socket) (e : Option IoError)
      → (take_error s).0 ≡ ok e
      → (take_error (take_error s).1).0 ≡ ok none
  pub nodelay-set_nodelay :
      (s : Socket) (b : Bool) → (set_nodelay b s).0 ≡ ok tt → (nodelay (set_nodelay b s).1).0 ≡ ok b

module _ {Socket Addr IoError : Type 0} (Os : SocketOs Socket Addr IoError) where
  unfoldable pub listener_local_addr :
      AtomicCell Socket → Result (Result Addr IoError × AtomicCell Socket) Fault
  listener_local_addr handle = with_lock Os.local_addr handle

  unfoldable pub listener_take_error :
      AtomicCell Socket → Result (Result (Option IoError) IoError × AtomicCell Socket) Fault
  listener_take_error handle = with_lock Os.take_error handle

  unfoldable pub local_addr :
      AtomicCell Socket → Result (Result Addr IoError × AtomicCell Socket) Fault
  local_addr handle = with_lock Os.local_addr handle

  unfoldable pub peer_addr :
      AtomicCell Socket → Result (Result Addr IoError × AtomicCell Socket) Fault
  peer_addr handle = with_lock Os.peer_addr handle

  unfoldable pub take_error :
      AtomicCell Socket → Result (Result (Option IoError) IoError × AtomicCell Socket) Fault
  take_error handle = with_lock Os.take_error handle

  unfoldable pub nodelay :
      AtomicCell Socket → Result (Result Bool IoError × AtomicCell Socket) Fault
  nodelay handle = with_lock Os.nodelay handle

  unfoldable pub set_nodelay :
      AtomicCell Socket → Bool → Result (Result (Unit {0}) IoError × AtomicCell Socket) Fault
  set_nodelay handle nodelay = with_lock (Os.set_nodelay nodelay) handle

  unfoldable pub socket_local_addr :
      AtomicCell Socket → Result (Result Addr IoError × AtomicCell Socket) Fault
  socket_local_addr handle = with_lock Os.local_addr handle

  unfoldable pub socket_take_error :
      AtomicCell Socket → Result (Result (Option IoError) IoError × AtomicCell Socket) Fault
  socket_take_error handle = with_lock Os.take_error handle

  -- While no other thread has the lock, what `set_nodelay` has set is what `nodelay` returns, also at
  -- another clone of the stream.
  pub set_nodelay-nodelay :
      (handle : AtomicCell Socket) (s : Socket) (b : Bool)
      → handle.inner ≡ some s
      → (Os.set_nodelay b s).0 ≡ ok tt
      → (h1 : AtomicCell Socket) × (h2 : AtomicCell Socket) × (set_nodelay handle b
          ≡ ok (ok tt, h1))
        × (nodelay h1 ≡ ok (ok b, h2))
  unfolding set_nodelay nodelay
  set_nodelay-nodelay handle s b e good =
      let h1 : AtomicCell Socket = record { inner = some (Os.set_nodelay b s).1 } in
      let h2 : AtomicCell Socket = record { inner = some (Os.nodelay (Os.set_nodelay b s).1).1 } in
      (
        h1,
        h2,
        with_lock_lem (Os.set_nodelay b) handle s e ∙ ap (λ r. ok (r, h1)) good,
        with_lock_lem Os.nodelay h1 (Os.set_nodelay b s).1 refl
            ∙ ap (λ r. ok (r, h2)) (Os.nodelay-set_nodelay s b good),
      )

  -- While no other thread has the lock, an error of the socket is reported by one call of `take_error`:
  -- the next one reports none.
  pub take_error-once :
      (handle : AtomicCell Socket) (s : Socket) (x : Option IoError)
      → handle.inner ≡ some s
      → (Os.take_error s).0 ≡ ok x
      → (h1 : AtomicCell Socket) × (h2 : AtomicCell Socket) × (take_error handle ≡ ok (ok x, h1))
        × (take_error h1 ≡ ok (ok none, h2))
  unfolding take_error
  take_error-once handle s x e good =
      let h1 : AtomicCell Socket = record { inner = some (Os.take_error s).1 } in
      let h2 : AtomicCell Socket = record { inner = some (Os.take_error (Os.take_error s).1).1 } in
      (
        h1,
        h2,
        with_lock_lem Os.take_error handle s e ∙ ap (λ r. ok (r, h1)) good,
        with_lock_lem Os.take_error h1 (Os.take_error s).1 refl
            ∙ ap (λ r. ok (r, h2)) (Os.take_error-cleared s x good),
      )

-- `with_inner`: `f` gets a reference, which it cannot write through.
module _ {Socket T : Type 0} where
  unfoldable pub listener_with_inner :
      AtomicCell Socket → (Socket → T) → Result (T × AtomicCell Socket) Fault
  listener_with_inner handle f = with_lock (λ s. (f s, s)) handle

  unfoldable pub with_inner :
      AtomicCell Socket → (Socket → T) → Result (T × AtomicCell Socket) Fault
  with_inner handle f = with_lock (λ s. (f s, s)) handle

  unfoldable pub socket_with_inner :
      AtomicCell Socket → (Socket → T) → Result (T × AtomicCell Socket) Fault
  socket_with_inner handle f = with_lock (λ s. (f s, s)) handle
