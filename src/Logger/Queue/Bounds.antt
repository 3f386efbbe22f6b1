-- ===== src/Logger/Queue/Bounds.antt =====
-- Invariants of the queue of internal/logger/db_handler.go.
use disapyr_link.Common.{
  if_ind, ◌≤◌, ◌≡◌, refl, true, List, [], ◌∷◌, arith, length, ltb, length-append,
}
use disapyr_link.Logger.Queue.{
  DbRecord, buffer_size, Phase, State, send, Step, first_look, second_look, sends, stops, closes,
  receives, Reach, here, next, start,
}

-- The queue is bounded; the channel is closed only after the flag is set; and a panic happens only on
-- a closed channel.
pub record IsValid (s : State) : Type 0 where
  pub bounded : length s.buffer ≤ buffer_size
  pub closed_late : s.closed ≡ true → s.stopped ≡ true
  pub crash_closed : s.crashed ≡ true → s.closed ≡ true

send-IsValid : (r : DbRecord) (s : State) → IsValid s → IsValid (send r s)
unfolding send
send-IsValid r s v =
    if_ind IsValid s.closed
      (λ e. record { bounded = v.bounded; closed_late = v.closed_late; crash_closed = λ h. e })
      (λ e.
        if_ind IsValid (ltb (length s.buffer) buffer_size)
          (λ k. record {
            bounded = ground (arith, length-append {0} s.buffer (r ∷ []));
            closed_late = v.closed_late;
            crash_closed = v.crash_closed;
          })
          (λ k. v))

Step-IsValid : {s t : State} → Step s t → IsValid s → IsValid t
Step-IsValid (first_look before after r e h) v =
    rw h
      (record { bounded = v.bounded; closed_late = v.closed_late; crash_closed = v.crash_closed })
Step-IsValid (second_look before after r e h) v =
    rw h
      (record { bounded = v.bounded; closed_late = v.closed_late; crash_closed = v.crash_closed })
Step-IsValid {s} (sends before after r e h) v =
    let w = send-IsValid r s v in
    rw h
      (record { bounded = w.bounded; closed_late = w.closed_late; crash_closed = w.crash_closed })
Step-IsValid (stops e h) v =
    rw h (record { bounded = v.bounded; closed_late = λ q. refl; crash_closed = v.crash_closed })
Step-IsValid (closes e k h) v =
    rw h (record { bounded = v.bounded; closed_late = λ q. e; crash_closed = λ q. refl })
Step-IsValid (receives r rest e h) v =
    rw h (record {
      bounded = ground arith;
      closed_late = v.closed_late;
      crash_closed = v.crash_closed;
    })

-- In every run from a handler in use, whatever the order of the steps, at most 512 records wait; the
-- channel is closed only after the flag is set; and no send panics before the channel is closed.
pub Reach-IsValid : (calls : List Phase) {t : State} → Reach (start calls) t → IsValid t
Reach-IsValid calls here = record {
  bounded = omega arith;
  closed_late = λ h. cc;
  crash_closed = λ h. cc;
}
Reach-IsValid calls (next r st) = Step-IsValid st (Reach-IsValid calls r)
