-- ===== src/Handler/Probe/Laws.antt =====
-- What `isProbeRequest` of internal/handler/handler.go blocks, and what it lets through.
use disapyr_link.Common.{
  ◌≡◌, refl, ap, ◌∙◌, inl, inr, Bool, true, false, ◌&&◌, ◌||◌, List, [], ◌∷◌, ◌++◌, arith, Bytes,
  same, same_iff, any, if◌then◌else◌, Bool-cases, sym, has_prefix, contains, lower_ascii,
}
use disapyr_link.Strings.{Unicode, is_ascii, all, to_lower, equal_fold}
use disapyr_link.Strings.Case.{
  is_ascii-append, is_ascii-lower, lower_ascii-append, lower_ascii_idem,
}
use disapyr_link.Handler.Probe.{probe_patterns, git_prefix, git_inside, matches, is_probe_request}

has_prefix-append : (p s t : Bytes) → has_prefix p s ≡ true → has_prefix p (s ++ t) ≡ true
unfolding has_prefix
has_prefix-append [] s t h = refl
has_prefix-append (a ∷ p) [] t h = cc
has_prefix-append (a ∷ p) (b ∷ s) t h = ground (arith, has_prefix-append p s t)

has_prefix_refl : (p : Bytes) → has_prefix p p ≡ true
unfolding has_prefix
has_prefix_refl [] = refl
has_prefix_refl (a ∷ p) = ground (arith, has_prefix_refl p)

contains-nil : (s : Bytes) → contains [] s ≡ true
unfolding contains
contains-nil [] = refl
contains-nil (b ∷ s) = refl

contains-append : (p s t : Bytes) → contains p s ≡ true → contains p (s ++ t) ≡ true
unfolding contains
contains-append [] [] t h = contains-nil t
contains-append (a ∷ p) [] t h = cc
contains-append p (b ∷ s) t h = ground (arith, has_prefix-append p (b ∷ s) t, contains-append p s t)

-- The texts that are blocked, in words of prefixes alone.
abbrev pub blocked_prefixes : List Bytes
blocked_prefixes = git_prefix ∷ probe_patterns

unfoldable pub is_blocked : Bytes → Bool
is_blocked s = any (λ p. has_prefix p s) blocked_prefixes || contains git_inside s

abbrev is_lower_text : Bytes → Bool
is_lower_text p = is_ascii p && same (lower_ascii p) p

patterns_lower : all is_lower_text probe_patterns ≡ true
unfolding same lower_ascii
patterns_lower = refl

-- Behind `strings.ToLower` the comparison by `strings.EqualFold` finds nothing more.
matches-lower :
    (u : Unicode) (s p : Bytes)
    → is_ascii s ≡ true
    → is_lower_text p ≡ true
    → matches u (lower_ascii s) p ≡ has_prefix p (lower_ascii s)
unfolding equal_fold
matches-lower u s p h k = elim (Bool-cases (same (lower_ascii (lower_ascii s)) (lower_ascii p))) [
  | inl e ↦
      let folded : lower_ascii (lower_ascii s) ≡ lower_ascii p = (same_iff _ _).0 e in
      let lower : lower_ascii p ≡ p = (same_iff _ _).0 (ground arith) in
      let equal : p ≡ lower_ascii s = cc (lower_ascii_idem s) in
      let prefix : has_prefix p (lower_ascii s) ≡ true = rw (← equal) (has_prefix_refl p) in
      rw prefix (ground arith)
  | inr e ↦ ground (arith, is_ascii-lower s h)
]

any-matches :
    (u : Unicode) (s : Bytes) (ps : List Bytes)
    → is_ascii s ≡ true
    → all is_lower_text ps ≡ true
    → any (matches u (lower_ascii s)) ps ≡ any (λ p. has_prefix p (lower_ascii s)) ps
any-matches u s [] h k = refl
any-matches u s (p ∷ ps) h k =
    let here : is_lower_text p ≡ true = ground arith in
    let later : all is_lower_text ps ≡ true = ground arith in
    cc (matches-lower u s p h here, any-matches u s ps h later)

reorder : (a b c : Bool) → (if a || b then true else c) ≡ ((a || c) || b)
reorder a b c = ground arith

-- The body of the function, over the lower-case path and what the loop finds in it.
abbrev decide_probe : Bytes → Bool → Bool
decide_probe l found = if has_prefix git_prefix l || contains git_inside l then true else found

to_lower_ascii : (u : Unicode) (s : Bytes) → is_ascii s ≡ true → to_lower u s ≡ lower_ascii s
unfolding to_lower
to_lower_ascii u s h = rw h

is_probe_request-step :
    (u : Unicode) (s : Bytes)
    → is_probe_request u s
      ≡ decide_probe (to_lower u s) (any (matches u (to_lower u s)) probe_patterns)
unfolding is_probe_request
is_probe_request-step u s = refl

is_blocked-step :
    (l : Bytes) → decide_probe l (any (λ p. has_prefix p l) probe_patterns) ≡ is_blocked l
unfolding is_blocked
is_blocked-step l =
    reorder (has_prefix git_prefix l) (contains git_inside l)
      (any (λ p. has_prefix p l) probe_patterns)

-- An ASCII path is taken for a probe exactly when, in lower case, it starts with one of the patterns
-- or with "/.git", or holds "/.git/".
pub is_probe_request-eq_blocked :
    (u : Unicode) (s : Bytes)
    → is_ascii s ≡ true
    → is_probe_request u s ≡ is_blocked (lower_ascii s)
is_probe_request-eq_blocked u s h =
    is_probe_request-step u s
    ∙ ap (λ l. decide_probe l (any (matches u l) probe_patterns)) (to_lower_ascii u s h)
    ∙ ap (decide_probe (lower_ascii s)) (any-matches u s probe_patterns h patterns_lower)
    ∙ is_blocked-step (lower_ascii s)

any-has_prefix_append :
    (ps : List Bytes) (s t : Bytes)
    → any (λ p. has_prefix p s) ps ≡ true
    → any (λ p. has_prefix p (s ++ t)) ps ≡ true
any-has_prefix_append [] s t h = cc
any-has_prefix_append (p ∷ ps) s t h =
    ground (arith, has_prefix-append p s t, any-has_prefix_append ps s t)

or_mono :
    (a b c d : Bool)
    → (a ≡ true → c ≡ true)
    → (b ≡ true → d ≡ true)
    → (a || b) ≡ true
    → (c || d) ≡ true
or_mono true b c d f g h = rw (f refl)
or_mono false b c d f g h = elim (Bool-cases c) [ inl e ↦ rw e | inr e ↦ rw e (g h) ]

is_blocked-append : (s t : Bytes) → is_blocked s ≡ true → is_blocked (s ++ t) ≡ true
unfolding is_blocked
is_blocked-append s t =
    or_mono (any (λ p. has_prefix p s) blocked_prefixes) (contains git_inside s)
      (any (λ p. has_prefix p (s ++ t)) blocked_prefixes) (contains git_inside (s ++ t))
      (any-has_prefix_append blocked_prefixes s t) (contains-append git_inside s t)

-- Everything below a blocked path is blocked too, for ASCII paths.
pub is_probe_request-append :
    (u : Unicode) (s t : Bytes)
    → is_ascii s ≡ true
    → is_ascii t ≡ true
    → is_probe_request u s ≡ true
    → is_probe_request u (s ++ t) ≡ true
is_probe_request-append u s t h k blocked =
    is_probe_request-eq_blocked u (s ++ t) (is_ascii-append s t h k)
    ∙ ap is_blocked (lower_ascii-append s t)
    ∙ is_blocked-append (lower_ascii s) (lower_ascii t)
        (sym (is_probe_request-eq_blocked u s h) ∙ blocked)
