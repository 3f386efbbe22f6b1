-- ===== src/Server/Shutdown.antt =====
-- The end of cmd/server/main.go, from the start of the listener to the exit of the process, with `Stop` and
-- the writer of internal/logger/db_handler.go. main, the listener, the writer and the calls of Handle are
-- goroutines whose steps come in any order. What `ListenAndServe`, `Shutdown`, the signals and the timer
-- answer is the environment's choice.
pub mod Stages
pub mod Order
pub mod Emptying
pub mod Ending
pub mod Loss
mod Tests
use disapyr_link.Common.{
  ℕ, ◌≡◌, Bool, true, false, List, [], ◌∷◌, ◌++◌, Bytes, if◌then◌else◌, codes, Option, none, some,
}
use disapyr_link.Model.{Error, error_text, server_closed, errors_is, Result, ok, err}
use disapyr_link.Http.{Level, info, error, LogRecord}
use disapyr_link.Logger.Queue as Queue
use disapyr_link.Logger.Queue.{DbRecord}

-- Where main stands: at `<-ctx.Done()`; in `Shutdown`; at its return, which runs the deferred calls from
-- the last: in `Stop` before and after the flag is set, and in its wait; before `pool.Close`; behind it.
pub data Stage : Type 0 where
  waiting shutting returning flagged draining drained ended : Stage

-- The listener: before its record, in `ListenAndServe`, or over.
pub data Listener : Type 0 where
  starting serving over : Listener

pub record Process : Type 0 where
  pub stage : Stage
  pub listener : Listener
  pub queue : Queue.State
  -- The record that the writer has received and not yet inserted.
  pub in_hand : Option DbRecord
  -- The records whose INSERT was sent through an open pool.
  pub sent : List DbRecord
  pub pool_open : Bool
  pub timed_out : Bool
  pub console : List LogRecord
  pub exit : Option ℕ

abbrev record_of : Level → Bytes → List (Bytes × Bytes) → LogRecord
record_of level msg attrs = record { level = level; msg = msg; attrs = attrs }

abbrev pub says : Level → Bytes → List (Bytes × Bytes) → Process → Process
says level msg attrs p = record p { console = p.console ++ record_of level msg attrs ∷ [] }

-- What main logs when `Shutdown` has returned.
abbrev pub after_shutdown : Result (Unit {0}) → Process → Process
after_shutdown (ok _) p = says info (codes "server stopped") [] p
after_shutdown (err e) p =
    says info (codes "server stopped") []
      (says error (codes "shutdown error") ((codes "err", error_text e) ∷ []) p)

-- `insert` of the writer; an error is dropped.
abbrev pub inserted : DbRecord → Process → Process
inserted r p = record p {
  in_hand = none;
  sent = (if p.pool_open then p.sent ++ r ∷ [] else p.sent);
}

-- A step of a call of Handle.
abbrev pub IsCall : {s t : Queue.State} → Queue.Step s t → Type 0
IsCall (Queue.first_look before after r e h) = Unit
IsCall (Queue.second_look before after r e h) = Unit
IsCall (Queue.sends before after r e h) = Unit
IsCall (Queue.stops e h) = ⊥
IsCall (Queue.closes e k h) = ⊥
IsCall (Queue.receives r rest e h) = ⊥

pub data Step (p q : Process) : Type 0 where
  -- The listener.
  announces :
      (addr : Bytes)
      → p.exit ≡ none
      → p.listener ≡ starting
      → q
        ≡ says info
            (codes "server starting")
            ((codes "addr", addr) ∷ [])
            (record p { listener = serving })
      → Step p q
  serve_fails :
      (e : Error)
      → errors_is e server_closed ≡ false
      → p.exit ≡ none
      → p.listener ≡ serving
      → q
        ≡ says error
            (codes "server error")
            ((codes "err", error_text e) ∷ [])
            (record p { listener = over; exit = some 1 })
      → Step p q
  -- It returns nil, or http.ErrServerClosed.
  serve_ends : p.exit ≡ none → p.listener ≡ serving → q ≡ record p { listener = over } → Step p q
  -- main.
  signalled :
      p.exit ≡ none
      → p.stage ≡ waiting
      → q ≡ says info (codes "shutting down") [] (record p { stage = shutting })
      → Step p q
  shut :
      (r : Result (Unit {0}))
      → p.exit ≡ none
      → p.stage ≡ shutting
      → q ≡ after_shutdown r (record p { stage = returning })
      → Step p q
  stop_flag :
      p.exit ≡ none
      → p.stage ≡ returning
      → q ≡ record p { stage = flagged; queue = record p.queue { stopped = true } }
      → Step p q
  stop_close :
      p.exit ≡ none
      → p.stage ≡ flagged
      → q ≡ record p { stage = draining; queue = record p.queue { closed = true } }
      → Step p q
  -- `done` is closed when the writer has found the channel closed and empty.
  stop_done :
      p.exit ≡ none
      → p.stage ≡ draining
      → p.queue.buffer ≡ []
      → p.in_hand ≡ none
      → q ≡ record p { stage = drained }
      → Step p q
  stop_timeout :
      p.exit ≡ none
      → p.stage ≡ draining
      → q ≡ record p { stage = drained; timed_out = true }
      → Step p q
  pool_close :
      p.exit ≡ none
      → p.stage ≡ drained
      → q ≡ record p { stage = ended; pool_open = false }
      → Step p q
  returns : p.exit ≡ none → p.stage ≡ ended → q ≡ record p { exit = some 0 } → Step p q
  -- The writer.
  receives :
      (r : DbRecord) (rest : List DbRecord)
      → p.exit ≡ none
      → p.in_hand ≡ none
      → p.queue.buffer ≡ r ∷ rest
      → q ≡ record p {
        in_hand = some r;
        queue = record p.queue { buffer = rest; inserted = p.queue.inserted ++ r ∷ [] };
      }
      → Step p q
  inserts : (r : DbRecord) → p.exit ≡ none → p.in_hand ≡ some r → q ≡ inserted r p → Step p q
  -- A call of Handle.
  handles :
      (s : Queue.State) (st : Queue.Step p.queue s)
      → p.exit ≡ none
      → IsCall st
      → q ≡ record p { queue = s }
      → Step p q

pub data Reach (p : Process) : Process → Type 0 where
  here : Reach p p
  next : {q r : Process} → Reach p q → Step q r → Reach p r

-- The server is about to listen, with calls of Handle about to begin.
abbrev pub start : List Queue.Phase → Process
start calls = record {
  stage = waiting;
  listener = starting;
  queue = Queue.start calls;
  in_hand = none;
  sent = [];
  pool_open = true;
  timed_out = false;
  console = [];
  exit = none;
}
