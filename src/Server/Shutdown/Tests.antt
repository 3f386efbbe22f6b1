-- ===== src/Server/Shutdown/Tests.antt =====
-- An end of the server with a record in the queue, for the theorems about cmd/server/main.go.
use disapyr_link.Common.{List, ◌≡◌, refl, true, false, [], ◌∷◌, none, some, pos, codes}
use disapyr_link.Model.{ok, sentinel, not_found, errors_is}
use disapyr_link.Http.{info}
use disapyr_link.Logger.Queue as Queue
use disapyr_link.Logger.Queue.{DbRecord}
use disapyr_link.Server.Shutdown.{
  Process, Step, start, ended, Reach, here, next, handles, signalled, shut, stop_flag, stop_close,
  receives, inserts, stop_done, pool_close, returns,
}
use disapyr_link.Server.Shutdown.Order.{Reach-sent}
use disapyr_link.Server.Shutdown.Loss.{Reach-lost}
use disapyr_link.Server.Shutdown.Ending.{HasEnded, Reach-exit}

abbrev rec : DbRecord
rec = record { ts = pos 7; level = codes "warn"; msg = codes "m"; attrs = [] }

-- The record goes through the queue, and the server ends.
abbrev calls : List Queue.Phase
calls = Queue.sending rec ∷ []

abbrev handled : Process
handled = record (start calls) {
  queue = record (start calls).queue { buffer = rec ∷ []; calls = Queue.finished ∷ [] };
}

abbrev over : Process
over = record handled {
  stage = ended;
  queue = record handled.queue { stopped = true; closed = true; buffer = []; inserted = rec ∷ [] };
  sent = rec ∷ [];
  pool_open = false;
  console =
      record { level = info; msg = codes "shutting down"; attrs = [] }
      ∷ record { level = info; msg = codes "server stopped"; attrs = [] }
      ∷ [];
  exit = some 0;
}

goes : Reach (start calls) over
unfolding Queue.send
goes =
    next
      (next
        (next
          (next
            (next
              (next
                (next
                  (next
                    (next
                      (next here
                        (handles handled.queue (Queue.sends [] [] rec refl refl) refl tt refl))
                      (signalled refl refl refl))
                    (shut (ok tt) refl refl refl))
                  (stop_flag refl refl refl))
                (stop_close refl refl refl))
              (receives rec [] refl refl refl refl))
            (inserts rec refl refl refl))
          (stop_done refl refl refl refl refl))
        (pool_close refl refl refl))
      (returns refl refl refl)

Reach-sent_example :
    (over.queue.buffer ≡ [])
    × (over.in_hand ≡ none)
    × (over.sent ≡ over.queue.inserted)
    × (over.pool_open ≡ false)
Reach-sent_example = Reach-sent calls goes refl refl

Reach-exit_example : (q : Process) × Reach handled q × HasEnded (rec ∷ []) (rec ∷ []) handled q
Reach-exit_example = Reach-exit handled refl

Reach-lost_example :
    (p : Process) × Reach (start (Queue.entering rec ∷ [])) p
    × (p.exit ≡ some 1)
    × (p.queue.buffer ≡ rec ∷ [])
    × (p.sent ≡ [])
    × ((q : Process) → ¬ (Step p q))
unfolding errors_is
Reach-lost_example = Reach-lost rec (sentinel not_found) refl
