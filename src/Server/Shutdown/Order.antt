-- ===== src/Server/Shutdown/Order.antt =====
-- In which order cmd/server/main.go stops the log handler and closes the pool, and what this saves.
use disapyr_link.Common.{
  ◌≡◌, refl, ap, ◌∙◌, true, false, List, [], ◌∷◌, ◌++◌, append-nil, arith, sym, none, some,
}
use disapyr_link.Model.{ok, err}
use disapyr_link.Logger.Queue as Queue
use disapyr_link.Server.Shutdown.{
  Stage, waiting, shutting, returning, flagged, draining, drained, ended, Process, Step, announces,
  serve_fails, serve_ends, signalled, shut, stop_flag, stop_close, stop_done, stop_timeout,
  pool_close, returns, receives, inserts, handles, Reach, here, next, start,
}
use disapyr_link.Server.Shutdown.Stages.{
  pool_at, stopped_at, closed_at, waited_at, held, IsOrderly, call-IsLight, moved-IsOrderly,
  listened-IsOrderly, told-IsOrderly, inserts-IsOrderly,
}

Step-IsOrderly : {p q : Process} → Step p q → IsOrderly p → IsOrderly q
Step-IsOrderly {p} (announces addr x e h) v =
    rw h (listened-IsOrderly p _ refl (λ k. absurd (cc)) v)
Step-IsOrderly {p} (serve_fails f other x e h) v =
    rw h (listened-IsOrderly p _ refl (λ k. absurd (ground arith)) v)
Step-IsOrderly {p} (serve_ends x e h) v = rw h (listened-IsOrderly p _ refl (λ k. absurd (cc)) v)
Step-IsOrderly {p} (signalled x e h) v = rw h (
    told-IsOrderly (record p { stage = shutting }) _ refl
      (moved-IsOrderly p waiting shutting x e refl refl refl (λ k w. cc) v))
Step-IsOrderly {p} (shut (ok u) x e h) v = rw h (
    told-IsOrderly (record p { stage = returning }) _ refl
      (moved-IsOrderly p shutting returning x e refl refl refl (λ k w. cc) v))
Step-IsOrderly {p} (shut (err f) x e h) v = rw h (
    told-IsOrderly (record p { stage = returning }) _ refl
      (moved-IsOrderly p shutting returning x e refl refl refl (λ k w. cc) v))
Step-IsOrderly {p} (stop_flag x e h) v = rw h (record {
  pool = v.pool ∙ ap pool_at e;
  stopped = refl;
  closed = v.closed ∙ ap closed_at e;
  delivered = v.delivered;
  emptied = λ k w. cc;
  success = λ k. cc;
})
Step-IsOrderly {p} (stop_close x e h) v = rw h (record {
  pool = v.pool ∙ ap pool_at e;
  stopped = v.stopped ∙ ap stopped_at e;
  closed = refl;
  delivered = v.delivered;
  emptied = λ k w. cc;
  success = λ k. cc;
})
Step-IsOrderly {p} (stop_done x e empty free h) v =
    rw h (moved-IsOrderly p draining drained x e refl refl refl (λ k w. (empty, free)) v)
Step-IsOrderly {p} (stop_timeout x e h) v = rw h (record {
  pool = v.pool ∙ ap pool_at e;
  stopped = v.stopped ∙ ap stopped_at e;
  closed = v.closed ∙ ap closed_at e;
  delivered = λ k. cc;
  emptied = λ k w. cc;
  success = λ k. cc;
})
Step-IsOrderly {p} (pool_close x e h) v = rw h (record {
  pool = refl;
  stopped = v.stopped ∙ ap stopped_at e;
  closed = v.closed ∙ ap closed_at e;
  delivered = v.delivered;
  emptied = λ k w. v.emptied k (ap waited_at e);
  success = λ k. refl;
})
Step-IsOrderly {p} (returns x e h) v = rw h (record {
  pool = v.pool;
  stopped = v.stopped;
  closed = v.closed;
  delivered = v.delivered;
  emptied = v.emptied;
  success = λ k. e;
})
Step-IsOrderly {p} (receives r rest x free waiting_record h) v = rw h (record {
  pool = v.pool;
  stopped = v.stopped;
  closed = v.closed;
  delivered = λ k.
      ap (λ l. l ++ r ∷ [])
        (sym (append-nil p.sent) ∙ ap (λ o. p.sent ++ held o) (sym free) ∙ v.delivered k);
  emptied = λ k w. absurd (let f = (v.emptied k w).0 in cc);
  success = v.success;
})
Step-IsOrderly {p} (inserts r x e h) v = rw h (inserts-IsOrderly p r e v)
Step-IsOrderly {p} (handles s st x call h) v =
    let l = call-IsLight st call in
    rw h (record {
      pool = v.pool;
      stopped = l.stopped ∙ v.stopped;
      closed = l.closed ∙ v.closed;
      delivered = λ k. v.delivered k ∙ sym l.inserted;
      emptied =
          λ k w. (l.buffer (v.closed ∙ shut_then p.stage w) ∙ (v.emptied k w).0, (v.emptied k w).1);
      success = v.success;
    })
  where
    shut_then : (s : Stage) → waited_at s ≡ true → closed_at s ≡ true
    shut_then drained w = refl
    shut_then ended w = refl
    shut_then waiting w = cc
    shut_then shutting w = cc
    shut_then returning w = cc
    shut_then flagged w = cc
    shut_then draining w = cc

start-IsOrderly : (calls : List Queue.Phase) → IsOrderly (start calls)
start-IsOrderly calls = record {
  pool = refl;
  stopped = refl;
  closed = refl;
  delivered = λ k. refl;
  emptied = λ k w. cc;
  success = λ k. absurd (cc);
}

Reach-IsOrderly : (calls : List Queue.Phase) {p : Process} → Reach (start calls) p → IsOrderly p
Reach-IsOrderly calls here = start-IsOrderly calls
Reach-IsOrderly calls (next r st) = Step-IsOrderly st (Reach-IsOrderly calls r)

-- A graceful end loses no record that the queue took in: when the process exits with the code 0 and the
-- wait of `Stop` did not time out, whatever the order of the steps of main, the listener, the writer and
-- the calls of Handle, the queue is empty, the writer holds nothing, and every record that it received
-- was sent to the database, in this order, while the pool was open; and the pool is closed.
pub Reach-sent :
    (calls : List Queue.Phase) {p : Process}
    → Reach (start calls) p
    → p.exit ≡ some 0
    → p.timed_out ≡ false
    → (p.queue.buffer ≡ [])
      × (p.in_hand ≡ none)
      × (p.sent ≡ p.queue.inserted)
      × (p.pool_open ≡ false)
Reach-sent calls {p} r success in_time =
    let v = Reach-IsOrderly calls r in
    let e : p.stage ≡ ended = v.success success in
    let (empty, free) = v.emptied in_time (ap waited_at e) in
    (
      empty,
      free,
      sym (append-nil p.sent) ∙ ap (λ o. p.sent ++ held o) (sym free) ∙ v.delivered in_time,
      v.pool ∙ ap pool_at e,
    )
