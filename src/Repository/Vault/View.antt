-- ===== src/Repository/Vault/View.antt =====
-- The vault that a table of secrets is, and what the statements do to it.
use disapyr_link.Common.{
  ◌≤◌, ℤ, ◌≡◌, refl, ap, ◌∙◌, inl, inr, Bool, true, false, not, List, [], ◌∷◌, ◌++◌, arith, Bytes,
  same, same_iff, keep, any, if◌then◌else◌, Bool-cases, sym, Option, none, some,
}
use disapyr_link.Model.{Secret, Result, ok, err, sentinel, no_rows}
use disapyr_link.Repository.{live, fetchable, scan_row}
use disapyr_link.Repository.Rows.{rows_with}
use disapyr_link.Repository.Store.{clashes}
use disapyr_link.Repository.Vault.{Vault, put_in, take_from, when_live}

-- The secret of the first row that bears a token.
unfoldable pub view : List Secret → Vault
view [] u = none
view (r ∷ rs) u = if same r.token u then some r else view rs u

rows_with-bound :
    (u : Bytes) (r : Secret) (rs : List Secret)
    → rows_with u (r ∷ rs) ≤ 1
    → (rows_with u rs ≤ 1) × (same r.token u ≡ true → rows_with u rs ≡ 0)
unfolding rows_with
rows_with-bound u r rs h = (ground arith, λ e. ground arith)

view-unborne : (u : Bytes) (rs : List Secret) → rows_with u rs ≡ 0 → view rs u ≡ none
unfolding view rows_with
view-unborne u [] h = refl
view-unborne u (r ∷ rs) h = ground (arith, view-unborne u rs)

pub view-append :
    (rs : List Secret) (s : Secret) (u : Bytes)
    → view rs s.token ≡ none
    → view (rs ++ s ∷ []) u ≡ put_in s (view rs) u
unfolding view
view-append [] s u h = refl
view-append (r ∷ rs) s u h =
    ground
      (arith, same_iff r.token s.token, same_iff r.token u, same_iff s.token u, view-append rs s u)

-- What a DELETE leaves that spares all rows of the other tokens.
pub view-keep :
    (p : Secret → Bool) (u : Bytes) (rs : List Secret)
    → rows_with u rs ≤ 1
    → view (keep (λ r. not (p r)) rs) u
      ≡ elim (view rs u) [ none ↦ none | some s ↦ if p s then none else some s ]
unfolding view
view-keep p u [] h = refl
view-keep p u (r ∷ rs) h =
    let (fewer, rest) = rows_with-bound u r rs h in
    elim (Bool-cases (same r.token u)) [
      | inl e ↦ elim (Bool-cases (p r)) [
        | inl q ↦ rw (e, q) (view-keep p u rs fewer ∙ rw (view-unborne u rs (rest e)))
        | inr q ↦ rw (e, q, e)
      ]
      | inr e ↦ elim (Bool-cases (p r)) [
        | inl q ↦ rw (e, q) (view-keep p u rs fewer)
        | inr q ↦ rw (e, q, e) (view-keep p u rs fewer)
      ]
    ]

-- The row that is found bears the token.
view-token :
    (u : Bytes) (rs : List Secret) {s : Secret} → view rs u ≡ some s → same s.token u ≡ true
unfolding view
view-token u [] h = cc
view-token u (r ∷ rs) {s} h = elim (Bool-cases (same r.token u)) [
  | inl e ↦ let here : r ≡ s = ground arith in rw (← here) e
  | inr e ↦ view-token u rs (rw e at h)
]

pub view-free :
    (s : Secret) (rs : List Secret) → any (clashes s) rs ≡ false → view rs s.token ≡ none
unfolding view
view-free s [] h = refl
view-free s (r ∷ rs) h = ground (arith, view-free s rs)

-- What a fetch finds is what the vault has, if it is live.
abbrev pub found : Option Secret → Result Secret
found none = err (sentinel no_rows)
found (some s) = ok s

fetchable-elsewhere :
    (now : ℤ) (t : Bytes) (rs : List Secret) → rows_with t rs ≡ 0 → keep (fetchable now t) rs ≡ []
unfolding rows_with
fetchable-elsewhere now t [] h = refl
fetchable-elsewhere now t (r ∷ rs) h = ground (arith, fetchable-elsewhere now t rs)

pub scan_row-view :
    (now : ℤ) (t : Bytes) (rs : List Secret)
    → rows_with t rs ≤ 1
    → scan_row (keep (fetchable now t) rs) ≡ found (when_live now (view rs t))
unfolding view
scan_row-view now t [] h = refl
scan_row-view now t (r ∷ rs) h =
    let (fewer, rest) = rows_with-bound t r rs h in
    elim (Bool-cases (same r.token t)) [
      | inl e ↦ elim (Bool-cases (live now r.expires_at)) [
        | inl l ↦ rw (e, l)
        | inr l ↦ rw (e, l, fetchable-elsewhere now t rs (rest e))
      ]
      | inr e ↦ rw e (scan_row-view now t rs fewer)
    ]

-- The table without the rows that a fetch takes.
module _ (now : ℤ) (t u : Bytes) (rs : List Secret) (few : rows_with u rs ≤ 1) where
  pub view-taken :
      {s : Secret}
      → when_live now (view rs t) ≡ some s
      → view (keep (λ r. not (fetchable now t r)) rs) u ≡ take_from t (view rs) u
  view-taken h = view-keep (fetchable now t) u rs few ∙ go (view rs u) refl
    where
      go :
          (q : Option Secret)
          → view rs u ≡ q
          → (elim q as (λ _. Option Secret) [
            | none ↦ none
            | some r ↦ if fetchable now t r then none else some r
          ])
            ≡ (if same t u then none else q)
      go none e = ground arith
      go (some r) e = elim (Bool-cases (same t u)) [
        | inl k ↦
            let here : view rs t ≡ some r = ap (view rs) ((same_iff t u).0 k) ∙ e in
            let alive : live now r.expires_at ≡ true = ground (arith) in
            let borne : same r.token t ≡ true = view-token t rs here in rw (k, alive, borne)
        | inr k ↦
            ground (arith, same_iff t u, same_iff r.token t, same_iff r.token u, view-token u rs e)
      ]

  pub view-untaken :
      when_live now (view rs t) ≡ none → view (keep (λ r. not (fetchable now t r)) rs) u ≡ view rs u
  view-untaken h = view-keep (fetchable now t) u rs few ∙ go (view rs u) refl
    where
      go :
          (q : Option Secret)
          → view rs u ≡ q
          → (elim q as (λ _. Option Secret) [
            | none ↦ none
            | some r ↦ if fetchable now t r then none else some r
          ])
            ≡ q
      go none e = refl
      go (some r) e = elim (Bool-cases (same r.token t)) [
        | inl k ↦
            let where_it_is : u ≡ t =
              sym ((same_iff r.token u).0 (view-token u rs e)) ∙ (same_iff r.token t).0 k in
            let here : view rs t ≡ some r = ap (view rs) (sym where_it_is) ∙ e in ground arith
        | inr k ↦ ground arith
      ]
