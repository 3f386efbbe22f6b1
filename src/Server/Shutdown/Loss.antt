-- ===== src/Server/Shutdown/Loss.antt =====
-- What the exit of the listener in cmd/server/main.go leaves behind: `os.Exit` runs no deferred call.
use disapyr_link.Common.{false, ◌≡◌, refl, [], ◌∷◌, codes, some}
use disapyr_link.Model.{Error, server_closed, errors_is}
use disapyr_link.Logger.Queue as Queue
use disapyr_link.Logger.Queue.{DbRecord}
use disapyr_link.Server.Shutdown.{
  Process, Step, announces, serve_fails, serve_ends, signalled, shut, stop_flag, stop_close,
  stop_done, stop_timeout, pool_close, returns, receives, inserts, handles, Reach, here, next,
  start,
}

-- Nothing happens in a process that has exited.
exited-Step : {p q : Process} → (p.exit ≡ some 1) → ¬ (Step p q)
exited-Step h (announces addr x a e) = cc
exited-Step h (serve_fails f other x a e) = cc
exited-Step h (serve_ends x a e) = cc
exited-Step h (signalled x a e) = cc
exited-Step h (shut r x a e) = cc
exited-Step h (stop_flag x a e) = cc
exited-Step h (stop_close x a e) = cc
exited-Step h (stop_done x a b c e) = cc
exited-Step h (stop_timeout x a e) = cc
exited-Step h (pool_close x a e) = cc
exited-Step h (returns x a e) = cc
exited-Step h (receives r rest x a b e) = cc
exited-Step h (inserts r x a e) = cc
exited-Step h (handles s st x a e) = cc

-- A record is lost when the listener fails: for every record and every error of `ListenAndServe` but http.ErrServerClosed there is
-- a run of the process in which a call of Handle puts the record into the queue, the listener then exits
-- with the code 1, the record is still in the queue, none was sent to the database, and no step is left
-- that could send it.
pub Reach-lost :
    (r : DbRecord) (e : Error)
    → errors_is e server_closed ≡ false
    → (p : Process) × Reach (start (Queue.entering r ∷ [])) p
      × (p.exit ≡ some 1)
      × (p.queue.buffer ≡ r ∷ [])
      × (p.sent ≡ [])
      × ((q : Process) → ¬ (Step p q))
unfolding Queue.send Queue.look
Reach-lost r e other =
    let s = (start (Queue.entering r ∷ [])).queue in
    let s₁ = record s { calls = Queue.building r ∷ [] } in
    let s₂ = record s { calls = Queue.sending r ∷ [] } in
    let s₃ = record s { buffer = r ∷ []; calls = Queue.finished ∷ [] } in
    (
      _,
      next
          (next
            (next
              (next (next here (announces (codes ":8080") refl refl refl))
                (handles s₁ (Queue.first_look [] [] r refl refl) refl tt refl))
              (handles s₂ (Queue.second_look [] [] r refl refl) refl tt refl))
            (handles s₃ (Queue.sends [] [] r refl refl) refl tt refl))
          (serve_fails e other refl refl refl),
      refl,
      refl,
      refl,
      λ q st. exited-Step refl st,
    )
