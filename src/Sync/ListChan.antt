-- ===== src/Sync/ListChan.antt =====
-- A concrete channel, a list of messages: it shows that what src/sync relies on can hold, and runs
-- the tests.
use fibers_rs.Prelude.{
  ℕ, suc, ◌-◌, ◌<◌, ◌≡◌, refl, Bool, true, false, not, Option, none, some, List, [], ◌∷◌, ◌++◌,
  length, leb, arith, if◌then◌else◌,
}
use fibers_rs.Prelude.Results.{Result, ok, err}
use fibers_rs.Sync.Nbchan.{Mpsc, TryRecvError, empty, disconnected, TrySendError, full, closed}

pub record ListChan (T : Type 0) : Type 0 where
  pub queue : List T
  pub senders : ℕ
  pub has_receiver : Bool
  pub bound : Option ℕ

abbrev pub is_full : Option ℕ → ℕ → Bool
is_full none k = false
is_full (some bound) k = leb bound k

module _ {T : Type 0} where
  abbrev pub with_bound : Option ℕ → ListChan T
  with_bound bound = record { queue = []; senders = 1; has_receiver = true; bound = bound }

  abbrev pub append : ListChan T → T → ListChan T
  append c t = record c { queue = c.queue ++ t ∷ [] }

  unfoldable pub send : ListChan T → T → Result (Unit {0}) T × ListChan T
  send c t = if c.has_receiver then (ok tt, append c t) else (err t, c)

  unfoldable pub try_send : ListChan T → T → Result (Unit {0}) (TrySendError T) × ListChan T
  try_send c t =
      if not c.has_receiver
      then (err (closed t), c)
      else if is_full c.bound (length c.queue)
      then (err (full t), c)
      else (ok tt, append c t)

  abbrev pub take_first : List T → ListChan T → Result T TryRecvError × ListChan T
  take_first [] c = (if leb c.senders 0 then err disconnected else err empty, c)
  take_first (t ∷ rest) c = (ok t, record c { queue = rest })

  unfoldable pub try_recv : ListChan T → Result T TryRecvError × ListChan T
  try_recv c = take_first c.queue c

  pub send-result : (c : ListChan T) (t : T) → c.has_receiver ≡ true → (send c t).0 ≡ ok tt
  unfolding send
  send-result c t e = ground (arith, e)

  pub send-closed : (c : ListChan T) (t : T) → c.has_receiver ≡ false → send c t ≡ (err t, c)
  unfolding send
  send-closed c t e = rw e

  pub queue-send :
      (c : ListChan T) (t : T) → (send c t).0 ≡ ok tt → (send c t).1.queue ≡ c.queue ++ t ∷ []
  unfolding send
  queue-send c t e = ground (arith, e)

  pub senders-send : (c : ListChan T) (t : T) → (send c t).1.senders ≡ c.senders
  unfolding send
  senders-send c t = ground arith

  pub queue-try_send :
      (c : ListChan T) (t : T)
      → (try_send c t).0 ≡ ok tt
      → (try_send c t).1.queue ≡ c.queue ++ t ∷ []
  unfolding try_send
  queue-try_send c t e = ground (arith, e)

  pub try_send-refused :
      (c : ListChan T) (t : T) (e : TrySendError T)
      → (try_send c t).0 ≡ err e
      → (try_send c t).1 ≡ c
  unfolding try_send
  try_send-refused c t e q = ground (arith, q)

  pub try_recv-cons :
      (c : ListChan T) (t : T) (rest : List T)
      → c.queue ≡ t ∷ rest
      → ((try_recv c).0 ≡ ok t)
        × ((try_recv c).1.queue ≡ rest)
        × ((try_recv c).1.senders ≡ c.senders)
  unfolding try_recv
  try_recv-cons c t rest e = ground (arith, e)

  pub try_recv-empty : (c : ListChan T) → c.queue ≡ [] → 0 < c.senders → try_recv c ≡ (err empty, c)
  unfolding try_recv
  try_recv-empty c e k = ground (arith, e)

  pub try_recv-disconnected :
      (c : ListChan T) → c.queue ≡ [] → c.senders ≡ 0 → try_recv c ≡ (err disconnected, c)
  unfolding try_recv
  try_recv-disconnected c e k = ground (arith, e)

abbrev pub list_chan : (T : Type 0) → Mpsc T
list_chan T = record {
  Chan = ListChan T;
  queue = λ c. c.queue;
  senders = λ c. c.senders;
  has_receiver = λ c. c.has_receiver;
  new = with_bound none;
  sync_new = λ b. with_bound (some b);
  send = send;
  try_send = try_send;
  try_recv = try_recv;
  clone_sender = λ c. record c { senders = suc c.senders };
  drop_sender = λ c. record c { senders = c.senders - 1 };
  drop_receiver = λ c. record c { has_receiver = false };
  is_disconnected = λ c. not c.has_receiver;
  new-view = (refl, refl, refl);
  sync_new-view = λ b. (refl, refl, refl);
  send-result = send-result;
  send-closed = send-closed;
  queue-send = queue-send;
  senders-send = senders-send;
  queue-try_send = queue-try_send;
  try_send-refused = try_send-refused;
  try_recv-cons = try_recv-cons;
  try_recv-empty = try_recv-empty;
  try_recv-disconnected = try_recv-disconnected;
  clone_sender-view = λ c. (refl, refl);
  drop_sender-view = λ c. (refl, refl);
  drop_receiver-view = λ c. (refl, refl);
  is_disconnected-view = λ c. refl;
}
