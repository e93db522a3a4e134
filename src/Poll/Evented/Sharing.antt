-- ===== src/Poll/Evented/Sharing.antt =====
-- Threads that call methods of one object through its lock (src/io/poll/mod.rs), in any interleaving,
-- and the same calls on an object whose methods are atomic.
use fibers_rs.Prelude.{◌≡◌, none, some, Option, List, [], ◌∷◌, ◌++◌, map}
use fibers_rs.Prelude.Results.{ok}
use fibers_rs.SyncAtomic.{AtomicCell, drop_borrow}
use fibers_rs.Poll.Evented.{lock_round, new_sharable}

-- Where a call is: in the loop of `lock`, with the lock, after the method with the guard still alive,
-- and returned.
pub data Phase (A B : Type 0) : Type 0 where
  spinning : (A → B × A) → Phase A B
  locked : (A → B × A) → A → Phase A B
  called : B → A → Phase A B
  released : B → Phase A B

pub record Shared (A B : Type 0) : Type 0 where
  pub cell : AtomicCell A
  pub calls : List (Phase A B)

-- A call of an atomic method: asked for, or answered.
pub data Call (A B : Type 0) : Type 0 where
  asked : (A → B × A) → Call A B
  answered : B → Call A B

pub record Atomic (A B : Type 0) : Type 0 where
  pub object : A
  pub calls : List (Call A B)

abbrev pub in_cell : {A : Type 0} → Option A → List A
in_cell none = []
in_cell (some a) = a ∷ []

module _ {A B : Type 0} where
  pub data Step : Shared A B → Shared A B → Type 0 where
    starts : (s : Shared A B) (f : A → B × A) → Step s (record s { calls = spinning f ∷ s.calls })
    spins :
        (s : Shared A B) (before after : List (Phase A B)) (f : A → B × A) (c : AtomicCell A)
        → s.calls ≡ before ++ spinning f ∷ after
        → lock_round s.cell ≡ (none, c)
        → Step s (record s { cell = c })
    locks :
        (s : Shared A B) (before after : List (Phase A B)) (f : A → B × A) (a : A)
        (c : AtomicCell A)
        → s.calls ≡ before ++ spinning f ∷ after
        → lock_round s.cell ≡ (some a, c)
        → Step s (record { cell = c; calls = before ++ locked f a ∷ after })
    runs :
        (s : Shared A B) (before after : List (Phase A B)) (f : A → B × A) (a : A)
        → s.calls ≡ before ++ locked f a ∷ after
        → Step s (record s { calls = before ++ called (f a).0 (f a).1 ∷ after })
    releases :
        (s : Shared A B) (before after : List (Phase A B)) (b : B) (a : A) (c : AtomicCell A)
        → s.calls ≡ before ++ called b a ∷ after
        → drop_borrow s.cell a ≡ ok c
        → Step s (record { cell = c; calls = before ++ released b ∷ after })

  pub data Reach (inner : A) : Shared A B → Type 0 where
    start : Reach inner (record { cell = new_sharable inner; calls = [] })
    later : {s t : Shared A B} → Reach inner s → Step s t → Reach inner t

  pub data Moves : Atomic A B → Atomic A B → Type 0 where
    asks : (o : Atomic A B) (f : A → B × A) → Moves o (record o { calls = asked f ∷ o.calls })
    answers :
        (o : Atomic A B) (before after : List (Call A B)) (f : A → B × A)
        → o.calls ≡ before ++ asked f ∷ after
        → Moves o
            (record { object = (f o.object).1; calls = before ++ answered (f o.object).0 ∷ after })

  pub data Runs (inner : A) : Atomic A B → Type 0 where
    start : Runs inner (record { object = inner; calls = [] })
    later : {o p : Atomic A B} → Runs inner o → Moves o p → Runs inner p

  abbrev pub call_of : Phase A B → Call A B
  call_of (spinning f) = asked f
  call_of (locked f a) = asked f
  call_of (called b a) = answered b
  call_of (released b) = answered b

  -- What the guards of the calls hold.
  abbrev pub held : List (Phase A B) → List A
  held [] = []
  held (spinning f ∷ l) = held l
  held (locked f a ∷ l) = a ∷ held l
  held (called b a ∷ l) = a ∷ held l
  held (released b ∷ l) = held l

  -- All that the cell and the guards hold is the object, and the calls are those of `o`.
  pub record Refines (s : Shared A B) (o : Atomic A B) : Type 0 where
    pub content : in_cell s.cell.inner ++ held s.calls ≡ o.object ∷ []
    pub calls : map call_of s.calls ≡ o.calls
