-- ===== src/Repository/Rows.antt =====
-- The rows of the secrets table that bear a token, and what the WHERE clauses of
-- internal/repository/secret_repo.go leave of them.
use disapyr_link.Common.{
  ℕ, ◌+◌, ℤ, ◌≡◌, refl, ◌⊎◌, inl, inr, Bool, true, false, not, List, [], ◌∷◌, ◌++◌, arith, Bytes,
  same, keep, length, any, Bool-cases, sym,
}
use disapyr_link.Model.{Secret, ok}
use disapyr_link.Repository.{fetchable, scan_row}

-- A row is in the table.
abbrev pub In : Secret → List Secret → Type 0
In s [] = ⊥
In s (r ∷ rs) = (s ≡ r) ⊎ In s rs

abbrev pub bears : Bytes → Secret → Bool
bears t r = same r.token t

-- How many rows bear a token.
unfoldable pub rows_with : Bytes → List Secret → ℕ
rows_with t rs = length (keep (bears t) rs)

pub rows_with-append :
    (t : Bytes) (rs ss : List Secret) → rows_with t (rs ++ ss) ≡ rows_with t rs + rows_with t ss
unfolding rows_with
rows_with-append t [] ss = omega arith
rows_with-append t (r ∷ rs) ss = ground (arith, rows_with-append t rs ss)

-- A DELETE splits the table in two.
pub rows_with-keep :
    (t : Bytes) (p : Secret → Bool) (rs : List Secret)
    → rows_with t (keep (λ r. not (p r)) rs) + rows_with t (keep p rs) ≡ rows_with t rs
unfolding rows_with
rows_with-keep t p [] = refl
rows_with-keep t p (r ∷ rs) = ground (arith, rows_with-keep t p rs)

pub length-keep {ℓ} :
    {A : Type ℓ} (p : A → Bool) (rs : List A)
    → length (keep (λ r. not (p r)) rs) + length (keep p rs) ≡ length rs
length-keep p [] = refl
length-keep p (r ∷ rs) = ground (arith, length-keep p rs)

-- All rows that a fetch of `t` removes bear `t`.
pub rows_with-fetchable :
    (now : ℤ) (t : Bytes) (rs : List Secret)
    → rows_with t (keep (fetchable now t) rs) ≡ length (keep (fetchable now t) rs)
unfolding rows_with
rows_with-fetchable now t [] = refl
rows_with-fetchable now t (r ∷ rs) = ground (arith, rows_with-fetchable now t rs)

-- The row that a fetch returns is in the table and passes its test.
pub scan_row-keep :
    {s : Secret} (p : Secret → Bool) (rs : List Secret)
    → scan_row (keep p rs) ≡ ok s
    → In s rs × (p s ≡ true)
scan_row-keep p [] h = cc
scan_row-keep {s} p (r ∷ rs) h = elim (Bool-cases (p r)) [
  | inl e ↦ let same_row : r ≡ s = ground arith in (inl (sym same_row), rw (← same_row) e)
  | inr e ↦ let (i, q) = scan_row-keep p rs (rw e at h) in (inr i, q)
]

pub keep-In :
    {s : Secret} (p : Secret → Bool) (rs : List Secret) → In s rs → p s ≡ true → In s (keep p rs)
keep-In p [] h e = h
keep-In p (r ∷ rs) (inl h) e = ground (arith)
keep-In p (r ∷ rs) (inr h) e = ground (arith, keep-In p rs h e)

pub keep-none {ℓ} : {A : Type ℓ} (p : A → Bool) (rs : List A) → any p rs ≡ false → keep p rs ≡ []
keep-none p [] h = refl
keep-none p (r ∷ rs) h = ground (arith, keep-none p rs)

-- Two filters, one after the other, that cannot both reject.
pub keep-keep_disjoint {ℓ} :
    {A : Type ℓ} (p q : A → Bool) (rs : List A)
    → ((r : A) → p r ≡ true → q r ≡ true)
    → keep p (keep q rs) ≡ keep p rs
keep-keep_disjoint p q [] h = refl
keep-keep_disjoint p q (r ∷ rs) h = ground (arith, h r, keep-keep_disjoint p q rs h)

pub keep-append {ℓ} :
    {A : Type ℓ} (p : A → Bool) (rs ss : List A) → keep p (rs ++ ss) ≡ keep p rs ++ keep p ss
keep-append p [] ss = refl
keep-append p (r ∷ rs) ss = ground (arith, keep-append p rs ss)

-- What nothing passes, its negation keeps whole.
pub keep-not {ℓ} :
    {A : Type ℓ} (p : A → Bool) (rs : List A) → any p rs ≡ false → keep (λ r. not (p r)) rs ≡ rs
keep-not p [] h = refl
keep-not p (r ∷ rs) h = ground (arith, keep-not p rs)

pub any-keep-not {ℓ} :
    {A : Type ℓ} (p : A → Bool) (rs : List A) → any p (keep (λ r. not (p r)) rs) ≡ false
any-keep-not p [] = refl
any-keep-not p (r ∷ rs) = ground (arith, any-keep-not p rs)
