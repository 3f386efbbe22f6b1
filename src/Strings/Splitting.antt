-- ===== src/Strings/Splitting.antt =====
-- `strings.Split` and `strings.Join`.
use disapyr_link.Common.{
  get_elem?-append, ℕ, ◌+◌, ◌≡◌, refl, ◌≢◌, inl, inr, List, [], ◌∷◌, ◌++◌, ◌==◌, arith, Bytes,
  length, Bool-cases, get_elem?, Lacks,
}
use disapyr_link.Strings.{cons_head, split, join}

module _ (sep : ℕ) where
  pub split-ne-nil : (s : Bytes) → split sep s ≢ []
  unfolding split
  split-ne-nil [] h = cc
  split-ne-nil (c ∷ s) h = elim (Bool-cases (c == sep)) [
    | inl e ↦ let q = rw e at h in cc
    | inr e ↦ cons_head-ne-nil c (split sep s) (rw e at h)
  ]
    where
      cons_head-ne-nil : (c : ℕ) (ps : List Bytes) → cons_head c ps ≢ []
      cons_head-ne-nil c [] h = cc
      cons_head-ne-nil c (p ∷ ps) h = cc

  cons_head-append :
      (c : ℕ) (ps qs : List Bytes) → ps ≢ [] → cons_head c (ps ++ qs) ≡ cons_head c ps ++ qs
  cons_head-append c [] qs h = absurd (h refl)
  cons_head-append c (p ∷ ps) qs h = refl

  -- The parts before a separator, then those behind it.
  pub split-append : (s t : Bytes) → split sep (s ++ sep ∷ t) ≡ split sep s ++ split sep t
  unfolding split
  split-append [] t = ground arith
  split-append (c ∷ s) t = elim (Bool-cases (c == sep)) [
    | inl e ↦ rw (e, split-append s t)
    | inr e ↦
        rw (e, split-append s t) (cons_head-append c (split sep s) (split sep t) (split-ne-nil s))
  ]

  -- A text without the separator is one part.
  pub split-Lacks : (s : Bytes) → Lacks sep s → split sep s ≡ s ∷ []
  unfolding split
  split-Lacks [] h = refl
  split-Lacks (c ∷ s) (h, hs) = ground (arith, split-Lacks s hs)

  pub join-cons :
      (p : Bytes) (ps : List Bytes) → ps ≢ [] → join sep (p ∷ ps) ≡ p ++ sep ∷ join sep ps
  unfolding join
  join-cons p [] h = absurd (h refl)
  join-cons p (q ∷ ps) h = refl

  join-cons_head : (c : ℕ) (ps : List Bytes) → ps ≢ [] → join sep (cons_head c ps) ≡ c ∷ join sep ps
  unfolding join
  join-cons_head c [] h = absurd (h refl)
  join-cons_head c (p ∷ []) h = refl
  join-cons_head c (p ∷ q ∷ ps) h = refl

  -- Joining the parts of a split gives the text back.
  pub join-split : (s : Bytes) → join sep (split sep s) ≡ s
  unfolding split
  join-split [] = unfold join in refl
  join-split (c ∷ s) = elim (Bool-cases (c == sep)) [
    | inl e ↦ rw (e, join-cons [] (split sep s) (split-ne-nil s), join-split s) (ground arith)
    | inr e ↦ rw (e, join-cons_head c (split sep s) (split-ne-nil s), join-split s)
  ]

  -- The parts behind the last separators do not depend on what stands before them.
  pub split_from_right :
      (s t : Bytes) (i : ℕ)
      → get_elem? (split sep (s ++ sep ∷ t)) (length (split sep s) + i) ≡ get_elem? (split sep t) i
  split_from_right s t i = rw split-append (get_elem?-append (split sep s) (split sep t) i)
