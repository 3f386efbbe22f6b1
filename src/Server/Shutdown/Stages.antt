-- ===== src/Server/Shutdown/Stages.antt =====
-- What holds of the process of cmd/server/main.go at each stage of main, and which steps keep it.
use disapyr_link.Common.{
  ◌≡◌, refl, ap, ◌∙◌, Bool, true, false, List, [], ◌∷◌, ◌++◌, append-nil, length, if◌then◌else◌,
  sym, ltb, Option, none, some,
}
use disapyr_link.Common.{subst, if_ind}
use disapyr_link.Logger.Queue as Queue
use disapyr_link.Logger.Queue.{DbRecord, send, buffer_size}
use disapyr_link.Server.Shutdown.{
  Stage, waiting, shutting, returning, flagged, draining, drained, ended, Process, inserted, IsCall,
}

abbrev pub pool_at : Stage → Bool
pool_at ended = false
pool_at waiting = true
pool_at shutting = true
pool_at returning = true
pool_at flagged = true
pool_at draining = true
pool_at drained = true

abbrev pub stopped_at : Stage → Bool
stopped_at waiting = false
stopped_at shutting = false
stopped_at returning = false
stopped_at flagged = true
stopped_at draining = true
stopped_at drained = true
stopped_at ended = true

abbrev pub closed_at : Stage → Bool
closed_at waiting = false
closed_at shutting = false
closed_at returning = false
closed_at flagged = false
closed_at draining = true
closed_at drained = true
closed_at ended = true

-- The wait of `Stop` is over.
abbrev pub waited_at : Stage → Bool
waited_at waiting = false
waited_at shutting = false
waited_at returning = false
waited_at flagged = false
waited_at draining = false
waited_at drained = true
waited_at ended = true

abbrev pub held : Option DbRecord → List DbRecord
held none = []
held (some r) = r ∷ []

-- The pool is closed and the log handler stopped where main says so; and without a timeout the records
-- received are those sent through the open pool and the one in hand, and none is left behind the wait.
pub record IsOrderly (p : Process) : Type 0 where
  pub pool : p.pool_open ≡ pool_at p.stage
  pub stopped : p.queue.stopped ≡ stopped_at p.stage
  pub closed : p.queue.closed ≡ closed_at p.stage
  pub delivered : p.timed_out ≡ false → p.sent ++ held p.in_hand ≡ p.queue.inserted
  pub emptied :
      p.timed_out ≡ false → waited_at p.stage ≡ true → (p.queue.buffer ≡ []) × (p.in_hand ≡ none)
  pub success : p.exit ≡ some 0 → p.stage ≡ ended

-- What a call of Handle leaves alone.
pub record IsLight (s t : Queue.State) : Type 0 where
  pub stopped : t.stopped ≡ s.stopped
  pub closed : t.closed ≡ s.closed
  pub inserted : t.inserted ≡ s.inserted
  pub buffer : s.closed ≡ true → t.buffer ≡ s.buffer

pub send-IsLight : (r : DbRecord) (s : Queue.State) → IsLight s (send r s)
unfolding send
send-IsLight r s =
    if_ind (IsLight s) s.closed
      (λ e. record { stopped = refl; closed = refl; inserted = refl; buffer = λ h. refl })
      (λ e.
        if_ind (IsLight s) (ltb (length s.buffer) buffer_size)
          (λ f. record { stopped = refl; closed = refl; inserted = refl; buffer = λ h. cc })
          (λ f. record { stopped = refl; closed = refl; inserted = refl; buffer = λ h. refl }))

pub call-IsLight : {s t : Queue.State} (st : Queue.Step s t) → IsCall st → IsLight s t
call-IsLight (Queue.first_look before after r e h) k =
    rw h (record { stopped = refl; closed = refl; inserted = refl; buffer = λ q. refl })
call-IsLight (Queue.second_look before after r e h) k =
    rw h (record { stopped = refl; closed = refl; inserted = refl; buffer = λ q. refl })
call-IsLight {s} (Queue.sends before after r e h) k =
    let w = send-IsLight r s in
    rw h
      (record { stopped = w.stopped; closed = w.closed; inserted = w.inserted; buffer = w.buffer })
call-IsLight (Queue.stops e h) k = absurd k
call-IsLight (Queue.closes e f h) k = absurd k
call-IsLight (Queue.receives r rest e h) k = absurd k

-- A step of main from one stage to another that touches nothing else.
pub moved-IsOrderly :
    (p : Process) (from to : Stage) (exit_none : p.exit ≡ none)
    → p.stage ≡ from
    → pool_at from ≡ pool_at to
    → stopped_at from ≡ stopped_at to
    → closed_at from ≡ closed_at to
    → (p.timed_out ≡ false → waited_at to ≡ true → (p.queue.buffer ≡ []) × (p.in_hand ≡ none))
    → IsOrderly p
    → IsOrderly (record p { stage = to })
moved-IsOrderly p from to exit_none e pools stops closes waits v = record {
  pool = v.pool ∙ ap pool_at e ∙ pools;
  stopped = v.stopped ∙ ap stopped_at e ∙ stops;
  closed = v.closed ∙ ap closed_at e ∙ closes;
  delivered = v.delivered;
  emptied = waits;
  success = λ k. cc;
}

-- A step of the listener.
pub listened-IsOrderly :
    (p q : Process)
    → q ≡ record p { listener = q.listener; console = q.console; exit = q.exit }
    → (q.exit ≡ some 0 → p.stage ≡ ended)
    → IsOrderly p
    → IsOrderly q
listened-IsOrderly p q h ends v = subst IsOrderly (sym h) (record {
  pool = v.pool;
  stopped = v.stopped;
  closed = v.closed;
  delivered = v.delivered;
  emptied = v.emptied;
  success = ends;
})

-- The same, with records of main.
pub told-IsOrderly :
    (p q : Process) → q ≡ record p { console = q.console } → IsOrderly p → IsOrderly q
told-IsOrderly p q h v = subst IsOrderly (sym h) (record {
  pool = v.pool;
  stopped = v.stopped;
  closed = v.closed;
  delivered = v.delivered;
  emptied = v.emptied;
  success = v.success;
})

pub inserts-IsOrderly :
    (p : Process) (r : DbRecord) → p.in_hand ≡ some r → IsOrderly p → IsOrderly (inserted r p)
inserts-IsOrderly p r e v = record {
  pool = v.pool;
  stopped = v.stopped;
  closed = v.closed;
  delivered = λ k. go k (waited (p.stage) refl k);
  emptied = λ k w. ((v.emptied k w).0, refl);
  success = v.success;
}
  where
    waited : (s : Stage) → p.stage ≡ s → p.timed_out ≡ false → p.pool_open ≡ true
    waited ended q k = absurd (let f = (v.emptied k (ap waited_at q)).1 in cc)
    waited waiting q k = v.pool ∙ ap pool_at q
    waited shutting q k = v.pool ∙ ap pool_at q
    waited returning q k = v.pool ∙ ap pool_at q
    waited flagged q k = v.pool ∙ ap pool_at q
    waited draining q k = v.pool ∙ ap pool_at q
    waited drained q k = v.pool ∙ ap pool_at q

    go :
        p.timed_out ≡ false
        → p.pool_open ≡ true
        → (if p.pool_open then p.sent ++ r ∷ [] else p.sent) ++ [] ≡ p.queue.inserted
    go k open_now =
        rw open_now
          (append-nil (p.sent ++ r ∷ []) ∙ ap (λ o. p.sent ++ held o) (sym e) ∙ v.delivered k)
