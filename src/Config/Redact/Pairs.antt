-- ===== src/Config/Redact/Pairs.antt =====
-- `kvDSNRedact` of internal/config/config.go on well-formed connection strings.
use disapyr_link.Common.{
  ℕ, zero, suc, ◌≤◌, ◌≡◌, refl, ap, ◌∙◌, ◌≢◌, inl, inr, true, List, [], ◌∷◌, ◌++◌, append-nil, map,
  arith, Bytes, length, if◌then◌else◌, Bool-cases, sym, length-append, append_assoc, All, All-imp,
}
use disapyr_link.Config.Redact.{
  span, space, equals, is_space, in_key, done, is_sensitive, value, redact, kv_dsn_redact,
  after_value, after_key,
}
use disapyr_link.Config.Redact.Values.{
  Pair, print_val, print_pair, print_more, print_dsn, IsPair, hide_val, hide, Stops, span-append,
  tail-ne-nil, IsRest, value-pair,
}

pub redact-step :
    (fuel : ℕ) (s out : Bytes)
    → s ≢ []
    → redact (suc fuel) s out
      ≡ after_key
          (redact fuel)
          (span in_key (span is_space s).1).0
          (out ++ ((span is_space s).0 ++ (span in_key (span is_space s).1).0))
          (span in_key (span is_space s).1).1
unfolding redact
redact-step fuel [] out h = absurd (h refl)
redact-step fuel (c ∷ s) out h = refl

abbrev pub IsKeyByte : ℕ → Type 0
IsKeyByte c = (c ≢ space) × (c ≢ equals)

in_keys : (k : Bytes) → All IsKeyByte k → All (λ c. in_key c ≡ true) k
in_keys k = All-imp k (λ c h. ground arith)

key-Stops : (k rest : Bytes) → All IsKeyByte k → Stops is_space (k ++ equals ∷ rest)
key-Stops [] rest h = refl
key-Stops (c ∷ k) rest (h, hs) = ground arith

-- A round over spaces, a key and an equals sign.
pub redact-key :
    (fuel : ℕ) (sp k rest out : Bytes)
    → All (λ c. is_space c ≡ true) sp
    → All IsKeyByte k
    → redact (suc fuel) (sp ++ (k ++ equals ∷ rest)) out
      ≡ after_value (redact fuel) (out ++ (sp ++ k)) (value (is_sensitive k) rest)
redact-key fuel sp k rest out h hk =
    redact-step fuel (sp ++ (k ++ equals ∷ rest)) out
      (rw (← append_assoc sp k (equals ∷ rest)) (tail-ne-nil (sp ++ k) rest equals))
    ∙ (rw (
      span-append is_space sp (k ++ equals ∷ rest) h (key-Stops k rest hk),
      span-append in_key k (equals ∷ rest) (in_keys k hk) refl,
    ))

hide-print :
    (p : Pair)
    → print_pair (hide p)
      ≡ p.key ++ equals ∷ print_val (if is_sensitive p.key then hide_val p.val else p.val)
hide-print p = elim (Bool-cases (is_sensitive p.key)) [ inl e ↦ rw e | inr e ↦ rw e ]

-- A round over spaces and a pair.
redact-pair :
    (fuel : ℕ) (sp : Bytes) (p : Pair) (rest out : Bytes)
    → All (λ c. is_space c ≡ true) sp
    → IsPair p
    → IsRest rest
    → redact (suc fuel) (sp ++ (print_pair p ++ rest)) out
      ≡ redact fuel rest (out ++ (sp ++ print_pair (hide p)))
redact-pair fuel sp p rest out h (hk, hv) r =
    ap (λ t. redact (suc fuel) (sp ++ t) out) (append_assoc p.key (equals ∷ print_val p.val) rest)
    ∙ redact-key fuel sp p.key (print_val p.val ++ rest) out h hk
    ∙ ap (after_value (redact fuel) (out ++ (sp ++ p.key)))
        (value-pair (is_sensitive p.key) p.val rest hv r)
    ∙ ap (redact fuel rest) (
        append_assoc out (sp ++ p.key) _
        ∙ ap (λ t. out ++ t) (append_assoc sp p.key _)
        ∙ ap (λ t. out ++ (sp ++ t)) (sym (hide-print p)))

more-IsRest : (ps : List Pair) → IsRest (print_more ps)
more-IsRest [] = tt
more-IsRest (p ∷ ps) = refl

pub redact-nil : (fuel : ℕ) (out : Bytes) → redact fuel [] out ≡ done out
unfolding redact
redact-nil zero out = refl
redact-nil (suc fuel) out = refl

redact-more :
    (fuel : ℕ) (ps : List Pair) (out : Bytes)
    → All IsPair ps
    → length ps ≤ fuel
    → redact fuel (print_more ps) out ≡ done (out ++ print_more (map hide ps))
redact-more fuel [] out h k = redact-nil fuel out ∙ ap done (sym (append-nil out))
redact-more zero (p ∷ ps) out h k = absurd (omega arith)
redact-more (suc fuel) (p ∷ ps) out (h, hs) k =
    redact-pair fuel (space ∷ []) p (print_more ps) out (refl, tt) h (more-IsRest ps)
    ∙ redact-more fuel ps _ hs (omega arith)
    ∙ ap done (append_assoc out (space ∷ print_pair (hide p)) (print_more (map hide ps)))

length-print_more : (ps : List Pair) → length ps ≤ length (print_more ps)
length-print_more [] = omega arith
length-print_more (p ∷ ps) =
    omega (arith, length-print_more ps, length-append {0} (print_pair p) (print_more ps))

redact-first :
    (fuel : ℕ) (p : Pair) (ps : List Pair)
    → IsPair p
    → All IsPair ps
    → suc (length ps) ≤ fuel
    → redact fuel (print_dsn (p ∷ ps)) [] ≡ done (print_dsn (map hide (p ∷ ps)))
redact-first zero p ps h hs k = absurd (omega arith)
redact-first (suc fuel) p ps h hs k =
    redact-pair fuel [] p (print_more ps) [] tt h (more-IsRest ps)
    ∙ redact-more fuel ps (print_pair (hide p)) hs (omega arith)

length-print_dsn : (p : Pair) (ps : List Pair) → suc (length ps) ≤ length (print_dsn (p ∷ ps))
length-print_dsn p ps = omega (
  arith,
  length-print_more ps,
  length-append {0} (print_pair p) (print_more ps),
  length-append {0} p.key (equals ∷ print_val p.val),
)

-- On every connection string that is written as pairs with an equals sign and no space around it, and one
-- space between two pairs, where a key has neither spaces nor equals signs, and a value has no space and
-- opens with no quote, or stands in quotes with each quote and backslash escaped: each value of a key
-- "password" or "passfile" is replaced by "xxxxx", in quotes if it was quoted, and all else is written as
-- it stands.
pub kv_dsn_redact-print :
    (ps : List Pair) → All IsPair ps → kv_dsn_redact (print_dsn ps) ≡ done (print_dsn (map hide ps))
unfolding kv_dsn_redact
kv_dsn_redact-print [] h = redact-nil 0 []
kv_dsn_redact-print (p ∷ ps) (h, hs) = redact-first _ p ps h hs (length-print_dsn p ps)
