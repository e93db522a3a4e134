-- ===== src/Sync/Nbchan.antt =====
-- What src/sync uses of the `nbchan` crate: a non-blocking channel, seen through the messages that
-- it holds, the number of its senders, and whether its receiver lives.
use fibers_rs.Prelude.{ℕ, suc, ◌-◌, ◌≡◌, ◌<◌, Bool, true, false, not, List, [], ◌∷◌, ◌++◌}
use fibers_rs.Prelude.Results.{Result, ok, err}

pub data TryRecvError : Type 0 where
  empty disconnected : TryRecvError

pub data TrySendError (T : Type 0) : Type 0 where
  full : T → TrySendError T
  closed : T → TrySendError T

pub record Mpsc (T : Type 0) : Type 1 where
  pub Chan : Type 0
  pub queue : Chan → List T
  pub senders : Chan → ℕ
  pub has_receiver : Chan → Bool
  pub new : Chan
  pub sync_new : ℕ → Chan
  pub send : Chan → T → Result (Unit {0}) T × Chan
  pub try_send : Chan → T → Result (Unit {0}) (TrySendError T) × Chan
  pub try_recv : Chan → Result T TryRecvError × Chan
  pub clone_sender : Chan → Chan
  pub drop_sender : Chan → Chan
  pub drop_receiver : Chan → Chan
  pub is_disconnected : Chan → Bool
  pub new-view : (queue new ≡ []) × (senders new ≡ 1) × (has_receiver new ≡ true)
  pub sync_new-view :
      (bound : ℕ)
      → (queue (sync_new bound) ≡ [])
        × (senders (sync_new bound) ≡ 1)
        × (has_receiver (sync_new bound) ≡ true)
  -- A message is taken exactly while the receiver lives, and comes last.
  pub send-result : (c : Chan) (t : T) → has_receiver c ≡ true → (send c t).0 ≡ ok tt
  pub send-closed : (c : Chan) (t : T) → has_receiver c ≡ false → send c t ≡ (err t, c)
  pub queue-send :
      (c : Chan) (t : T) → (send c t).0 ≡ ok tt → queue (send c t).1 ≡ queue c ++ t ∷ []
  pub senders-send : (c : Chan) (t : T) → senders (send c t).1 ≡ senders c
  pub queue-try_send :
      (c : Chan) (t : T) → (try_send c t).0 ≡ ok tt → queue (try_send c t).1 ≡ queue c ++ t ∷ []
  pub try_send-refused :
      (c : Chan) (t : T) (e : TrySendError T) → (try_send c t).0 ≡ err e → (try_send c t).1 ≡ c
  -- The first message comes out; without one, the senders decide between the errors.
  pub try_recv-cons :
      (c : Chan) (t : T) (rest : List T)
      → queue c ≡ t ∷ rest
      → ((try_recv c).0 ≡ ok t)
        × (queue (try_recv c).1 ≡ rest)
        × (senders (try_recv c).1 ≡ senders c)
  pub try_recv-empty : (c : Chan) → queue c ≡ [] → 0 < senders c → try_recv c ≡ (err empty, c)
  pub try_recv-disconnected :
      (c : Chan) → queue c ≡ [] → senders c ≡ 0 → try_recv c ≡ (err disconnected, c)
  pub clone_sender-view :
      (c : Chan) → (queue (clone_sender c) ≡ queue c) × (senders (clone_sender c) ≡ suc (senders c))
  pub drop_sender-view :
      (c : Chan) → (queue (drop_sender c) ≡ queue c) × (senders (drop_sender c) ≡ senders c - 1)
  pub drop_receiver-view :
      (c : Chan)
      → (has_receiver (drop_receiver c) ≡ false) × (senders (drop_receiver c) ≡ senders c)
  pub is_disconnected-view : (c : Chan) → is_disconnected c ≡ not (has_receiver c)
