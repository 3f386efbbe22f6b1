-- ===== src/Repository/Interleave/Balance.antt =====
-- The events of internal/repository/secret_repo.go against its rows, while calls interleave.
use disapyr_link.Common.{
  ℕ, ◌+◌, ◌≡◌, refl, ap, true, List, [], ◌∷◌, ◌++◌, map, arith, Bytes, length, sym, All,
}
use disapyr_link.Common.{subst}
use disapyr_link.Repository.{Db, Call, completed, record_event, known_event}
use disapyr_link.Repository.Fetch.{HasUniqueTokens, record_event-secrets}
use disapyr_link.Repository.Invariant.{IsValid, record_event-KnownEvents}
use disapyr_link.Repository.Trace.{Operation, apply-IsValid}
use disapyr_link.Repository.Ledger.{
  total, total-record_event, created, retrieved, expired_kind, IsBalanced, IsClean, AreClean,
}
use disapyr_link.Repository.Vault.{Outcome}
use disapyr_link.Repository.Interleave.{
  Phase, entering, recording, finished, first, State, Step, begins, records, Reach, here, next,
  start, sum_of, sum_of-split,
}
use disapyr_link.Repository.Interleave.Once.{first-secrets}
use disapyr_link.Repository.Interleave.Match.{pending, IsClear, IsMatched, first-IsMatched}

-- The balance of the tables with the events that are not yet written.
abbrev pub IsFlowing : State → Type 0
IsFlowing s =
    total created s.db.events + sum_of (pending created) s.calls
    ≡ total retrieved s.db.events
      + sum_of (pending retrieved) s.calls
      + (total expired_kind s.db.events + sum_of (pending expired_kind) s.calls)
      + length s.db.secrets

All-at {ℓ κ} :
    {A : Type ℓ} (P : A → Type κ) (before after : List A) (x : A)
    → All P (before ++ x ∷ after)
    → P x
All-at P [] after x (h, hs) = h
All-at P (y ∷ before) after x (h, hs) = All-at P before after x hs

All-set {ℓ κ} :
    {A : Type ℓ} (P : A → Type κ) (before after : List A) (x y : A)
    → All P (before ++ x ∷ after)
    → P y
    → All P (before ++ y ∷ after)
All-set P [] after x y (h, hs) k = (k, hs)
All-set P (z ∷ before) after x y (h, hs) k = (h, All-set P before after x y hs k)

-- What holds at every moment.
record IsSound (s : State) : Type 0 where
  valid : IsValid s.db
  clear : All IsClear s.calls
  flowing : IsFlowing s

begins-IsFlowing :
    (s : State) (before after : List Phase) (o : Operation)
    → s.calls ≡ before ++ entering o ∷ after
    → IsMatched s.db (first o s.db)
    → IsFlowing s
    → IsFlowing (record { db = (first o s.db).0; calls = before ++ (first o s.db).1 ∷ after })
begins-IsFlowing s before after o e m h =
    let split = λ (k : Bytes). sum_of-split (pending k) before after (entering o) in
    let split' = λ (k : Bytes). sum_of-split (pending k) before after (first o s.db).1 in
    let same_sum = λ (k : Bytes). ap (sum_of (pending k)) e in
    let same_total = λ (k : Bytes). ap (total k) m.events in
    omega (
      arith,
      split created,
      split retrieved,
      split expired_kind,
      split' created,
      split' retrieved,
      split' expired_kind,
      same_sum created,
      same_sum retrieved,
      same_sum expired_kind,
      same_total created,
      same_total retrieved,
      same_total expired_kind,
      m.rows,
    )

records-IsFlowing :
    (s : State) (before after : List Phase) (c : Call) (kind : Bytes) (n : ℕ) (x : Outcome)
    → s.calls ≡ before ++ recording c kind n x ∷ after
    → c.verdict ≡ completed
    → known_event kind ≡ true
    → IsFlowing s
    → IsFlowing (record { db = record_event c s.db kind n; calls = before ++ finished x ∷ after })
records-IsFlowing s before after c kind n x e written known h =
    let split = λ (k : Bytes). sum_of-split (pending k) before after (recording c kind n x) in
    let split' = λ (k : Bytes). sum_of-split (pending k) before after (finished x) in
    let same_sum = λ (k : Bytes). ap (sum_of (pending k)) e in
    let totals = λ (k : Bytes). total-record_event c s.db k kind n written known in
    omega (
      arith,
      split created,
      split retrieved,
      split expired_kind,
      split' created,
      split' retrieved,
      split' expired_kind,
      same_sum created,
      same_sum retrieved,
      same_sum expired_kind,
      totals created,
      totals retrieved,
      totals expired_kind,
      ap length (record_event-secrets c s.db kind n),
    )

Step-IsSound : {s t : State} → Step s t → IsSound s → IsSound t
Step-IsSound {s} (begins before after o e h) v =
    let calls : All IsClear (before ++ entering o ∷ after) = subst (All IsClear) e v.clear in
    let clean : IsClean o = All-at IsClear before after (entering o) calls in
    let m = first-IsMatched o s.db clean v.valid in
    rw h (record {
      valid = record {
        unique =
            subst HasUniqueTokens (sym (first-secrets o s.db))
              (apply-IsValid o s.db v.valid).unique;
        known = subst (All (λ x. known_event x.event_type ≡ true)) (sym m.events) v.valid.known;
      };
      clear = All-set IsClear before after (entering o) (first o s.db).1 calls m.clear;
      flowing = begins-IsFlowing s before after o e m v.flowing;
    })
Step-IsSound {s} (records before after c kind n x e h) v =
    let calls : All IsClear (before ++ recording c kind n x ∷ after) =
      subst (All IsClear) e v.clear in
    let (written, known) = All-at IsClear before after (recording c kind n x) calls in
    rw h (record {
      valid = record {
        unique = subst HasUniqueTokens (sym (record_event-secrets c s.db kind n)) v.valid.unique;
        known = record_event-KnownEvents c s.db kind n v.valid.known;
      };
      clear = All-set IsClear before after (recording c kind n x) (finished x) calls tt;
      flowing = records-IsFlowing s before after c kind n x e written known v.flowing;
    })

start-IsClear : (os : List Operation) → AreClean os → All IsClear (map entering os)
start-IsClear [] h = tt
start-IsClear (o ∷ os) (h, hs) = (h, start-IsClear os hs)

start-pending : (kind : Bytes) (os : List Operation) → sum_of (pending kind) (map entering os) ≡ 0
unfolding sum_of
start-pending kind [] = refl
start-pending kind (o ∷ os) = omega (arith, start-pending kind os)

Reach-IsSound :
    (db : Db) (os : List Operation) {s : State}
    → Reach (start db os) s
    → AreClean os
    → IsValid db
    → IsBalanced db
    → IsSound s
Reach-IsSound db os here clean v h = record {
  valid = v;
  clear = start-IsClear os clean;
  flowing =
      omega (
        arith,
        start-pending created os,
        start-pending retrieved os,
        start-pending expired_kind os,
      );
}
Reach-IsSound db os (next r st) clean v h = Step-IsSound st (Reach-IsSound db os r clean v h)

-- The counters add up at every moment, however the statements of the calls interleave: from tables
-- that are valid and balanced, if the database answers each first statement and writes each event, the
-- number of secrets created is that of those retrieved, those expired and those in the table, where
-- the events that a call has yet to write are counted too.
pub Reach-IsFlowing :
    (db : Db) (os : List Operation) {s : State}
    → Reach (start db os) s
    → AreClean os
    → IsValid db
    → IsBalanced db
    → IsFlowing s
Reach-IsFlowing db os r clean v h = (Reach-IsSound db os r clean v h).flowing
