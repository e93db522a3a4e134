-- ===== src/Sync/CellChan.antt =====
-- A concrete channel for one value: it shows that what src/sync/oneshot.rs relies on can hold, and
-- runs the tests.
use fibers_rs.Prelude.{◌≡◌, refl, Bool, true, false, Option, none, some, arith, if◌then◌else◌}
use fibers_rs.Prelude.Results.{Result, ok, err}
use fibers_rs.Sync.Nbchan.{TryRecvError, empty, disconnected}
use fibers_rs.Sync.Oneshot.{Nb}

pub record CellChan (T : Type 0) : Type 0 where
  pub value : Option T
  pub has_sender : Bool
  pub has_receiver : Bool

module _ {T : Type 0} where
  unfoldable pub send : CellChan T → T → Result (Unit {0}) T × CellChan T
  send c t =
      if c.has_receiver
      then (ok tt, record c { value = some t; has_sender = false })
      else (err t, record c { has_sender = false })

  abbrev pub take : Option T → CellChan T → Result T TryRecvError × CellChan T
  take none c = (if c.has_sender then err empty else err disconnected, c)
  take (some t) c = (ok t, record c { value = none })

  unfoldable pub try_recv : CellChan T → Result T TryRecvError × CellChan T
  try_recv c = take c.value c

  pub send-view :
      (c : CellChan T) (t : T)
      → c.has_receiver ≡ true
      → ((send c t).0 ≡ ok tt)
        × ((send c t).1.value ≡ some t)
        × ((send c t).1.has_sender ≡ false)
        × ((send c t).1.has_receiver ≡ true)
  unfolding send
  send-view c t e = ground (arith, e)

  pub send-closed : (c : CellChan T) (t : T) → c.has_receiver ≡ false → (send c t).0 ≡ err t
  unfolding send
  send-closed c t e = ground (arith, e)

  pub try_recv-value :
      (c : CellChan T) (t : T)
      → c.value ≡ some t
      → ((try_recv c).0 ≡ ok t) × ((try_recv c).1.value ≡ none)
  unfolding try_recv
  try_recv-value c t e = ground (arith, e)

  pub try_recv-empty :
      (c : CellChan T) → c.value ≡ none → c.has_sender ≡ true → try_recv c ≡ (err empty, c)
  unfolding try_recv
  try_recv-empty c e s = ground (arith, e, s)

  pub try_recv-disconnected :
      (c : CellChan T) → c.value ≡ none → c.has_sender ≡ false → try_recv c ≡ (err disconnected, c)
  unfolding try_recv
  try_recv-disconnected c e s = ground (arith, e, s)

abbrev pub cell_chan : (T : Type 0) → Nb T
cell_chan T = record {
  Chan = CellChan T;
  value = λ c. c.value;
  has_sender = λ c. c.has_sender;
  has_receiver = λ c. c.has_receiver;
  new = record { value = none; has_sender = true; has_receiver = true };
  send = send;
  try_recv = try_recv;
  drop_sender = λ c. record c { has_sender = false };
  drop_receiver = λ c. record c { has_receiver = false };
  new-view = (refl, refl, refl);
  send-view = send-view;
  send-closed = send-closed;
  try_recv-value = try_recv-value;
  try_recv-empty = try_recv-empty;
  try_recv-disconnected = try_recv-disconnected;
  drop_sender-view = λ c. (refl, refl);
  drop_receiver-view = λ c. refl;
}
