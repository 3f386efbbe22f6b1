-- ===== src/Logger/Queue.antt =====
-- The queue of internal/logger/db_handler.go: `Handle`, `Stop` and `run` of goroutines that share a
-- `sharedStop`, as steps in any order. `Handle` looks at the flag twice and then sends; `Stop` sets the
-- flag and then closes the channel; `run` receives and inserts. A send on a closed channel panics. The
-- wait of `Stop` for the drain changes nothing of this state; Server/Shutdown has it, beside main.
pub mod Bounds
pub mod Drain
pub mod Race
mod Tests
use disapyr_link.Common.{
  ℕ, ℤ, ◌≡◌, Bool, true, false, List, [], ◌∷◌, ◌++◌, Bytes, length, if◌then◌else◌, ltb,
}
use disapyr_link.Logger.Attrs.{Map}

pub record DbRecord : Type 0 where
  pub ts : ℤ
  pub level : Bytes
  pub msg : Bytes
  pub attrs : Map

-- bufferSize
abbrev pub buffer_size : ℕ
buffer_size = 512

-- A call of Handle: before its first look at the flag, before its second, before the send, or over.
pub data Phase : Type 0 where
  entering building sending : DbRecord → Phase
  finished : Phase

pub record State : Type 0 where
  pub stopped : Bool
  pub closed : Bool
  pub crashed : Bool
  pub buffer : List DbRecord
  pub inserted : List DbRecord
  pub calls : List Phase

-- One call of Handle goes on.
unfoldable pub look : Bool → (DbRecord → Phase) → DbRecord → Phase
look stopped next r = if stopped then finished else next r

-- select { case ch <- rec: default: }
unfoldable pub send : DbRecord → State → State
send r s =
    if s.closed
    then record s { crashed = true }
    else if ltb (length s.buffer) buffer_size
    then record s { buffer = s.buffer ++ r ∷ [] }
    else s

abbrev pub with_calls : List Phase → Phase → List Phase → State → State
with_calls before p after s = record s { calls = before ++ p ∷ after }

pub data Step (s t : State) : Type 0 where
  first_look :
      (before after : List Phase) (r : DbRecord)
      → s.calls ≡ before ++ entering r ∷ after
      → t ≡ with_calls before (look s.stopped building r) after s
      → Step s t
  second_look :
      (before after : List Phase) (r : DbRecord)
      → s.calls ≡ before ++ building r ∷ after
      → t ≡ with_calls before (look s.stopped sending r) after s
      → Step s t
  sends :
      (before after : List Phase) (r : DbRecord)
      → s.calls ≡ before ++ sending r ∷ after
      → t ≡ with_calls before finished after (send r s)
      → Step s t
  stops : s.stopped ≡ false → t ≡ record s { stopped = true } → Step s t
  closes : s.stopped ≡ true → s.closed ≡ false → t ≡ record s { closed = true } → Step s t
  receives :
      (r : DbRecord) (rest : List DbRecord)
      → s.buffer ≡ r ∷ rest
      → t ≡ record s { buffer = rest; inserted = s.inserted ++ r ∷ [] }
      → Step s t

pub data Reach (s : State) : State → Type 0 where
  here : Reach s s
  next : {t u : State} → Reach s t → Step t u → Reach s u

-- A handler in use, with an empty queue and calls that begin.
abbrev pub start : List Phase → State
start calls = record {
  stopped = false;
  closed = false;
  crashed = false;
  buffer = [];
  inserted = [];
  calls = calls;
}
