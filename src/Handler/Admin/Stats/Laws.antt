-- ===== src/Handler/Admin/Stats/Laws.antt =====
-- The totals on the health page of internal/handler/admin.go against the events of
-- internal/repository/secret_repo.go.
use disapyr_link.Common.{
  ℕ, ◌+◌, ◌^◌, ◌<◌, ◌≡◌, refl, ap, ◌∙◌, ◌⊎◌, inl, inr, true, false, ◌&&◌, List, [], ◌∷◌, arith,
  Bytes, same, same_iff, length, any, if◌then◌else◌, Bool-cases, sym, ltb, codes, none, All,
  All-imp,
}
use disapyr_link.Repository.{Db, Event}
use disapyr_link.Repository.Invariant.{IsValid}
use disapyr_link.Repository.Trace.{Operation, run}
use disapyr_link.Repository.Ledger.{total, IsBalanced, AreClean, run-IsBalanced}
use disapyr_link.Http.{World}
use disapyr_link.Handler.Admin.Views.{answered, SecretStats}
use disapyr_link.Handler.Admin.Stats.{no_stats, count_row, count_rows, query_secret_stats}

-- The rows of `SELECT event_type, SUM(count) … GROUP BY event_type`, in any order: each has the sum of
-- its kind, and every event's kind has a row.
pub record IsGroupingOf (rows : List (Bytes × ℕ)) (es : List Event) : Type 0 where
  pub sums : All (λ r. r.1 ≡ total r.0 es) rows
  pub covers : All (λ e. any (λ r. same r.0 e.event_type) rows ≡ true) es

any-same :
    (rows : List (Bytes × ℕ)) (a b : Bytes)
    → same a b ≡ true
    → any (λ r. same r.0 a) rows ≡ any (λ r. same r.0 b) rows
any-same rows a b h = ap (λ k. any (λ r. same r.0 k) rows) ((same_iff a b).0 h)

total-uncovered :
    (rows : List (Bytes × ℕ)) (kind : Bytes) (es : List Event)
    → All (λ e. any (λ r. same r.0 e.event_type) rows ≡ true) es
    → any (λ r. same r.0 kind) rows ≡ false
    → total kind es ≡ 0
unfolding total
total-uncovered rows kind [] h no_row = refl
total-uncovered rows kind (e ∷ es) (h, hs) no_row = elim (Bool-cases (same e.event_type kind)) [
  | inl eq ↦ absurd (let q = any-same rows e.event_type kind eq in cc)
  | inr ne ↦ rw ne (omega (arith, total-uncovered rows kind es hs no_row))
]

-- The loop over the rows, seen at one of the three fields.
module _ (field : SecretStats → ℕ) (kind : Bytes)
    (step : (s : SecretStats) (r : Bytes × ℕ)
      → field (count_row s r) ≡ (if same r.0 kind && ltb r.1 (2 ^ 63) then r.1 else field s)) where
  count_rows-kept :
      (n : ℕ) (s : SecretStats) (rows : List (Bytes × ℕ))
      → n < 2 ^ 63
      → All (λ r. same r.0 kind ≡ true → r.1 ≡ n) rows
      → (field s ≡ n) ⊎ (any (λ r. same r.0 kind) rows ≡ true)
      → field (count_rows s rows) ≡ n
  unfolding count_rows
  count_rows-kept n s [] small h (inl e) = e
  count_rows-kept n s [] small h (inr e) = cc
  count_rows-kept n s (r ∷ rs) small (h, hs) start = elim (Bool-cases (same r.0 kind)) [
    | inl e ↦
        let value : r.1 ≡ n = h e in
        count_rows-kept n (count_row s r) rs small hs (inl (ground (arith, step s r)))
    | inr e ↦
        let kept : field (count_row s r) ≡ field s = ground (arith, step s r) in
        count_rows-kept n (count_row s r) rs small hs
          (elim start [ inl f ↦ inl (kept ∙ f) | inr f ↦ inr (rw e at f) ])
  ]

  count_rows-total :
      (rows : List (Bytes × ℕ)) (es : List Event)
      → field no_stats ≡ 0
      → total kind es < 2 ^ 63
      → IsGroupingOf rows es
      → field (count_rows no_stats rows) ≡ total kind es
  count_rows-total rows es empty small g =
      count_rows-kept (total kind es) no_stats rows small
        (All-imp rows (λ r e k. e ∙ ap (λ q. total q es) ((same_iff r.0 kind).0 k)) g.sums)
        (elim (Bool-cases (any (λ r. same r.0 kind) rows)) [
          | inl e ↦ inr e
          | inr e ↦ inl (empty ∙ sym (total-uncovered rows kind es g.covers e))
        ])

created-step :
    (s : SecretStats) (r : Bytes × ℕ)
    → (count_row s r).created
      ≡ (if same r.0 (codes "created") && ltb r.1 (2 ^ 63) then r.1 else s.created)
unfolding count_row same
created-step s (kind, n) = ground (
  arith,
  same_iff kind (codes "created"),
  same_iff kind (codes "retrieved"),
  same_iff kind (codes "expired"),
)

retrieved-step :
    (s : SecretStats) (r : Bytes × ℕ)
    → (count_row s r).retrieved
      ≡ (if same r.0 (codes "retrieved") && ltb r.1 (2 ^ 63) then r.1 else s.retrieved)
unfolding count_row same
retrieved-step s (kind, n) = ground (
  arith,
  same_iff kind (codes "created"),
  same_iff kind (codes "retrieved"),
  same_iff kind (codes "expired"),
)

expired-step :
    (s : SecretStats) (r : Bytes × ℕ)
    → (count_row s r).expired
      ≡ (if same r.0 (codes "expired") && ltb r.1 (2 ^ 63) then r.1 else s.expired)
unfolding count_row same
expired-step s (kind, n) = ground (
  arith,
  same_iff kind (codes "created"),
  same_iff kind (codes "retrieved"),
  same_iff kind (codes "expired"),
)

-- The three totals fit an int64.
pub record AreSmall (es : List Event) : Type 0 where
  pub created : total (codes "created") es < 2 ^ 63
  pub retrieved : total (codes "retrieved") es < 2 ^ 63
  pub expired : total (codes "expired") es < 2 ^ 63

-- The health page shows the sums of the counts of the events of each kind, in whatever order the
-- database sends its groups, if they fit an int64.
pub query_secret_stats_totals :
    (rows : List (Bytes × ℕ)) (es : List Event) (w : World)
    → AreSmall es
    → IsGroupingOf rows es
    → (query_secret_stats (answered rows none) w).1 ≡ record {
      created = total (codes "created") es;
      retrieved = total (codes "retrieved") es;
      expired = total (codes "expired") es;
    }
unfolding query_secret_stats
query_secret_stats_totals rows es w small g =
    let created = count_rows-total (λ s. s.created) _ created-step rows es refl small.created g in
    let retrieved =
      count_rows-total (λ s. s.retrieved) _ retrieved-step rows es refl small.retrieved g in
    let expired = count_rows-total (λ s. s.expired) _ expired-step rows es refl small.expired g in
    λ i. record { created = created i; retrieved = retrieved i; expired = expired i }

-- What the health page shows adds up: after any history in which the database loses no answer and
-- writes each event, from tables that are valid and balanced, the number of secrets created is the sum
-- of those retrieved, those expired, and the rows of the table of secrets, if the totals fit an int64.
pub query_secret_stats-run :
    (os : List Operation) (db : Db) (rows : List (Bytes × ℕ)) (w : World)
    → AreClean os
    → IsValid db
    → IsBalanced db
    → AreSmall (run os db).events
    → IsGroupingOf rows (run os db).events
    → (query_secret_stats (answered rows none) w).1.created
      ≡ (query_secret_stats (answered rows none) w).1.retrieved
        + (query_secret_stats (answered rows none) w).1.expired
        + length (run os db).secrets
query_secret_stats-run os db rows w clean v b small g =
    let shown = query_secret_stats_totals rows (run os db).events w small g in
    rw shown (run-IsBalanced os db clean v b)
