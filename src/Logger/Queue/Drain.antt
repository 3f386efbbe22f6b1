-- ===== src/Logger/Queue/Drain.antt =====
-- The drain of the queue of internal/logger/db_handler.go by `run`.
use disapyr_link.Common.{subst, ◌≡◌, refl, List, [], ◌∷◌, ◌++◌, append-nil, sym, append_assoc}
use disapyr_link.Logger.Queue.{DbRecord, State, receives, Reach, here, next}

Reach-trans : {s t u : State} → Reach s t → Reach t u → Reach s u
Reach-trans p here = p
Reach-trans p (next q st) = next (Reach-trans p q) st

-- From every state `run` can insert all that waits, in the order in which it was queued, and so leave
-- the queue empty.
pub Reach-drained :
    (waiting : List DbRecord) (s : State)
    → s.buffer ≡ waiting
    → Reach s (record s { buffer = []; inserted = s.inserted ++ waiting })
Reach-drained [] s h =
    subst (Reach s) (λ i. record s { buffer = h i; inserted = sym (append-nil s.inserted) i }) here
Reach-drained (r ∷ rest) s h =
    let mid = record s { buffer = rest; inserted = s.inserted ++ r ∷ [] } in
    let first : Reach s mid = next here (receives r rest h refl) in
    subst (λ l. Reach s (record s { buffer = []; inserted = l }))
      (append_assoc s.inserted (r ∷ []) rest) (Reach-trans first (Reach-drained rest mid refl))
