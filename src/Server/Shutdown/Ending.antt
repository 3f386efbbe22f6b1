-- ===== src/Server/Shutdown/Ending.antt =====
-- That the process of cmd/server/main.go can always come to its end.
use disapyr_link.Common.{◌≡◌, refl, ◌∙◌, true, false, List, [], ◌++◌, none, some}
use disapyr_link.Model.{ok}
use disapyr_link.Logger.Queue.{DbRecord}
use disapyr_link.Server.Shutdown.{
  Stage, waiting, shutting, returning, flagged, draining, drained, ended, Process, inserted, Step,
  signalled, shut, stop_flag, stop_close, stop_done, pool_close, returns, Reach, here, next,
}
use disapyr_link.Server.Shutdown.Emptying.{Reach-trans, held, sent_then, in_hand-Emptied}

-- An end of the process with the code 0: the queue is empty and the writer holds nothing, it has received
-- what waited in the queue, and it has sent what it held and what waited if the pool was open; and no wait
-- has timed out since.
abbrev pub HasEnded : List DbRecord → List DbRecord → Process → Process → Type 0
HasEnded inserted sent p q =
    (q.exit ≡ some 0)
    × (q.timed_out ≡ p.timed_out)
    × (q.queue.buffer ≡ [])
    × (q.in_hand ≡ none)
    × (q.queue.inserted ≡ inserted)
    × (q.sent ≡ sent)

-- With an empty queue, main can go on to the end.
abbrev Finishes : Process → Type 0
Finishes p = (q : Process) × Reach p q × HasEnded p.queue.inserted p.sent p q

-- main goes on by a step that leaves the writer alone.
Step-Finishes :
    (p q : Process)
    → Step p q
    → q.timed_out ≡ p.timed_out
    → q.queue.inserted ≡ p.queue.inserted
    → q.sent ≡ p.sent
    → Finishes q
    → Finishes p
Step-Finishes p q st waits received sent (r, later, (x, w, b, f, g, h)) =
    (r, Reach-trans (next here st) later, (x, w ∙ waits, b, f, g ∙ received, h ∙ sent))

ended-Finishes :
    (p : Process)
    → p.exit ≡ none
    → p.queue.buffer ≡ []
    → p.in_hand ≡ none
    → p.stage ≡ ended
    → Finishes p
ended-Finishes p x empty free e = (
  record p { exit = some 0 },
  next here (returns x e refl),
  (refl, refl, empty, free, refl, refl),
)

drained-Finishes :
    (p : Process)
    → p.exit ≡ none
    → p.queue.buffer ≡ []
    → p.in_hand ≡ none
    → p.stage ≡ drained
    → Finishes p
drained-Finishes p x empty free e =
    Step-Finishes p _ (pool_close x e refl) refl refl refl
      (ended-Finishes (record p { stage = ended; pool_open = false }) x empty free refl)

draining-Finishes :
    (p : Process)
    → p.exit ≡ none
    → p.queue.buffer ≡ []
    → p.in_hand ≡ none
    → p.stage ≡ draining
    → Finishes p
draining-Finishes p x empty free e =
    Step-Finishes p _ (stop_done x e empty free refl) refl refl refl
      (drained-Finishes (record p { stage = drained }) x empty free refl)

flagged-Finishes :
    (p : Process)
    → p.exit ≡ none
    → p.queue.buffer ≡ []
    → p.in_hand ≡ none
    → p.stage ≡ flagged
    → Finishes p
flagged-Finishes p x empty free e = Step-Finishes p _ (stop_close x e refl) refl refl refl (
    draining-Finishes (record p { stage = draining; queue = record p.queue { closed = true } }) x
      empty free refl)

returning-Finishes :
    (p : Process)
    → p.exit ≡ none
    → p.queue.buffer ≡ []
    → p.in_hand ≡ none
    → p.stage ≡ returning
    → Finishes p
returning-Finishes p x empty free e = Step-Finishes p _ (stop_flag x e refl) refl refl refl (
    flagged-Finishes (record p { stage = flagged; queue = record p.queue { stopped = true } }) x
      empty free refl)

shutting-Finishes :
    (p : Process)
    → p.exit ≡ none
    → p.queue.buffer ≡ []
    → p.in_hand ≡ none
    → p.stage ≡ shutting
    → Finishes p
shutting-Finishes p x empty free e =
    Step-Finishes p _ (shut (ok tt) x e refl) refl refl refl
      (returning-Finishes _ x empty free refl)

waiting-Finishes :
    (p : Process)
    → p.exit ≡ none
    → p.queue.buffer ≡ []
    → p.in_hand ≡ none
    → p.stage ≡ waiting
    → Finishes p
waiting-Finishes p x empty free e =
    Step-Finishes p _ (signalled x e refl) refl refl refl (shutting-Finishes _ x empty free refl)

in_order-Finishes :
    (p : Process) → p.exit ≡ none → p.queue.buffer ≡ [] → p.in_hand ≡ none → Finishes p
in_order-Finishes p x empty free = at p.stage refl
  where
    at : (s : Stage) → p.stage ≡ s → Finishes p
    at waiting e = waiting-Finishes p x empty free e
    at shutting e = shutting-Finishes p x empty free e
    at returning e = returning-Finishes p x empty free e
    at flagged e = flagged-Finishes p x empty free e
    at draining e = draining-Finishes p x empty free e
    at drained e = drained-Finishes p x empty free e
    at ended e = ended-Finishes p x empty free e

-- The process is never stuck and need lose nothing: wherever main stands, from a state in which the process
-- has not exited there is an order of steps to an exit with the code 0 in which no further wait times out,
-- the writer receives the records that wait in the queue, in their order, and the queue ends up empty; and
-- if the pool is still open, the record that the writer held and those that waited are all sent to the
-- database, in this order, behind those that were sent before.
pub Reach-exit :
    (p : Process)
    → p.exit ≡ none
    → (q : Process) × Reach p q
      × HasEnded
          (p.queue.inserted ++ p.queue.buffer)
          (sent_then p.pool_open p.sent (held p.in_hand ++ p.queue.buffer))
          p
          q
Reach-exit p x =
    let (q, flushed, y, stage, waits, empty, free, received, sent) =
      in_hand-Emptied p.in_hand p x refl in
    let (r, later, (z, w, b, f, g, h)) = in_order-Finishes q y empty free in
    (r, Reach-trans flushed later, (z, w ∙ waits, b, f, g ∙ received, h ∙ sent))
