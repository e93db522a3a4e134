-- ===== src/Sync/Oneshot/Cell.antt =====
-- What the channel of src/sync/oneshot.rs promises: one value, given at most once and taken at most once,
-- or the news that it will never come.
use fibers_rs.Prelude.{Option, none, some, Bool, true, false, List, [], ◌∷◌, ◌++◌}

pub data Cell (T : Type 0) : Type 0 where
  pending : Cell T
  full taken : T → Cell T
  broken : Cell T

-- `sees_nothing` is that there is no value yet, `sees_broken` that none will come, `internal` what
-- neither side sees.
pub data Action (T : Type 0) : Type 0 where
  gives takes : T → Action T
  breaks sees_broken sees_nothing internal : Action T

pub data Does {T : Type 0} : Action T → Cell T → Cell T → Type 0 where
  give : (t : T) → Does (gives t) pending (full t)
  take : (t : T) → Does (takes t) (full t) (taken t)
  break : Does breaks pending broken
  notice : Does sees_broken broken broken
  wait : Does sees_nothing pending pending
  silent : (c : Cell T) → Does internal c c

pub data Runs {T : Type 0} : List (Action T) → Cell T → Type 0 where
  new : Runs [] pending
  next :
      {l : List (Action T)} {a : Action T} {c d : Cell T}
      → Runs l c
      → Does a c d
      → Runs (l ++ a ∷ []) d

-- The cell of a channel from which `received` has come out.
abbrev pub cell_of : {T : Type 0} → Option T → Option T → Bool → Cell T
cell_of (some t) value has_sender = taken t
cell_of none (some t) has_sender = full t
cell_of none none true = pending
cell_of none none false = broken
