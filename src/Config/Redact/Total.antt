-- ===== src/Config/Redact/Total.antt =====
-- The loops of `kvDSNRedact` of internal/config/config.go, and how far each round goes.
use disapyr_link.Common.{
  ℕ, zero, suc, ◌≤◌, ◌≡◌, refl, ap, ◌≢◌, ◌⊎◌, inl, inr, Bool, true, false, [], ◌∷◌, ◌==◌, arith,
  Bytes, length, Bool-cases,
}
use disapyr_link.Config.Redact.{
  span, equals, quote, backslash, is_space, in_key, in_value, Quoted, ended, overrun, passed,
  scan_quoted, Redaction, out_of_fuel, is_sensitive, Value, written, last, panics, quoted_value,
  plain_value, value, redact, kv_dsn_redact, after_value, after_key,
}

span-le : (p : ℕ → Bool) (s : Bytes) → length (span p s).1 ≤ length s
unfolding span
span-le p [] = omega arith
span-le p (c ∷ s) = ground (arith, span-le p s)

span-pass : (p : ℕ → Bool) (c : ℕ) (s : Bytes) → p c ≡ true → (span p (c ∷ s)).1 ≡ (span p s).1
unfolding span
span-pass p c s h = rw h

span-stop : (p : ℕ → Bool) (c : ℕ) (s : Bytes) → p c ≡ false → span p (c ∷ s) ≡ ([], c ∷ s)
unfolding span
span-stop p c s h = rw h

-- What is left behind a quoted value is no longer than what was scanned.
abbrev EndsBelow : ℕ → Quoted → Type 0
EndsBelow n (ended u rest) = length rest ≤ n
EndsBelow n overrun = Unit

passed-EndsBelow :
    (t : Bytes) (m n : ℕ) (q : Quoted) → m ≤ n → EndsBelow m q → EndsBelow n (passed t q)
passed-EndsBelow t m n (ended u rest) h k = omega arith
passed-EndsBelow t m n overrun h k = tt

scan_quoted-EndsBelow : (s : Bytes) → EndsBelow (length s) (scan_quoted s)
unfolding scan_quoted
scan_quoted-EndsBelow [] = omega arith
scan_quoted-EndsBelow (c ∷ []) = elim (Bool-cases (c == quote)) [
  | inl e ↦ rw e (omega arith)
  | inr e ↦ elim (Bool-cases (c == backslash)) [
    | inl b ↦ rw (e, b) tt
    | inr b ↦ rw (e, b) (omega arith)
  ]
]
scan_quoted-EndsBelow (c ∷ d ∷ s) =
    go (Bool-cases (c == quote)) (Bool-cases (c == backslash))
      (passed-EndsBelow (c ∷ d ∷ []) (length s) (suc (suc (length s))) (scan_quoted s) (omega arith)
        (scan_quoted-EndsBelow s))
      (passed-EndsBelow (c ∷ []) (suc (length s)) (suc (suc (length s))) (scan_quoted (d ∷ s))
        (omega arith) (scan_quoted-EndsBelow (d ∷ s)))
  where
    go :
        ((c == quote) ≡ true) ⊎ ((c == quote) ≡ false)
        → ((c == backslash) ≡ true) ⊎ ((c == backslash) ≡ false)
        → EndsBelow (suc (suc (length s))) (passed (c ∷ d ∷ []) (scan_quoted s))
        → EndsBelow (suc (suc (length s))) (passed (c ∷ []) (scan_quoted (d ∷ s)))
        → EndsBelow (suc (suc (length s))) (scan_quoted (c ∷ d ∷ s))
    go (inl e) b skip next = rw e (omega arith)
    go (inr e) (inl b) skip next = rw (e, b) skip
    go (inr e) (inr b) skip next = rw (e, b) next

abbrev RestBelow : ℕ → Value → Type 0
RestBelow n (written u rest) = length rest ≤ n
RestBelow n (last u) = Unit
RestBelow n panics = Unit

quoted_value-RestBelow :
    (sensitive : Bool) (n : ℕ) (q : Quoted) → EndsBelow n q → RestBelow n (quoted_value sensitive q)
quoted_value-RestBelow true n (ended u rest) h = h
quoted_value-RestBelow false n (ended u rest) h = h
quoted_value-RestBelow true n overrun h = tt
quoted_value-RestBelow false n overrun h = tt

value-RestBelow : (sensitive : Bool) (s : Bytes) → RestBelow (length s) (value sensitive s)
unfolding value
value-RestBelow sensitive [] = omega arith
value-RestBelow sensitive (c ∷ s) = elim (Bool-cases (c == quote)) [
  | inl e ↦ rw e (
      quoted_value-RestBelow sensitive (suc (length s)) (scan_quoted s)
        (weaken (scan_quoted s) (scan_quoted-EndsBelow s)))
  | inr e ↦ rw e (plain sensitive (span-le in_value (c ∷ s)))
]
  where
    weaken : (q : Quoted) → EndsBelow (length s) q → EndsBelow (suc (length s)) q
    weaken (ended u rest) h = omega arith
    weaken overrun h = tt

    plain :
        (sensitive : Bool)
        → length (span in_value (c ∷ s)).1 ≤ suc (length s)
        → RestBelow (suc (length s)) (plain_value sensitive (span in_value (c ∷ s)))
    plain true h = h
    plain false h = h

-- A round that does not end at an equals sign has passed over a byte.
round_progress :
    (c : ℕ) (s : Bytes) {d : ℕ} {rest : Bytes}
    → (span in_key (span is_space (c ∷ s)).1).1 ≡ d ∷ rest
    → (d == equals) ≡ false
    → length (d ∷ rest) ≤ length s
round_progress c s {d} {rest} h k = elim (Bool-cases (is_space c)) [
  | inl e ↦
      let left : (span in_key (span is_space s).1).1 ≡ d ∷ rest =
        rw (span-pass is_space c s e) at h in
      omega (arith, span-le in_key (span is_space s).1, span-le is_space s, ap length left)
  | inr e ↦ elim (Bool-cases (in_key c)) [
    | inl q ↦
        let left : (span in_key s).1 ≡ d ∷ rest =
          rw (span-stop is_space c s e, span-pass in_key c s q) at h in
        omega (arith, span-le in_key s, ap length left)
    | inr q ↦
        let left : c ∷ s ≡ d ∷ rest = rw (span-stop is_space c s e, span-stop in_key c s q) at h in
        absurd (ground arith)
  ]
]

module _ (next : Bytes → Bytes → Redaction) (n : ℕ)
    (total : (s out : Bytes) → length s ≤ n → next s out ≢ out_of_fuel) where
  after_value-total :
      (so_far : Bytes) (v : Value) → RestBelow n v → after_value next so_far v ≢ out_of_fuel
  after_value-total so_far (written u rest) h = total rest _ h
  after_value-total so_far (last u) h = λ e. cc
  after_value-total so_far panics h = λ e. cc

  weaken_rest : (m : ℕ) (v : Value) → m ≤ n → RestBelow m v → RestBelow n v
  weaken_rest m (written u rest) h k = omega arith
  weaken_rest m (last u) h k = tt
  weaken_rest m panics h k = tt

  after_key-total :
      (key so_far rest : Bytes)
      → ((d : ℕ) (r : Bytes) → rest ≡ d ∷ r → length r ≤ n)
      → ((d : ℕ) (r : Bytes) → rest ≡ d ∷ r → (d == equals) ≡ false → length (d ∷ r) ≤ n)
      → after_key next key so_far rest ≢ out_of_fuel
  after_key-total key so_far [] below progress = total [] so_far (omega arith)
  after_key-total key so_far (d ∷ r) below progress = elim (Bool-cases (d == equals)) [
    | inl e ↦ rw e (
        after_value-total so_far (value (is_sensitive key) r) (
          weaken_rest (length r) (value (is_sensitive key) r) (below d r refl)
            (value-RestBelow (is_sensitive key) r)))
    | inr e ↦ rw e (total (d ∷ r) so_far (progress d r refl e))
  ]

redact-total : (fuel : ℕ) (s out : Bytes) → length s ≤ fuel → redact fuel s out ≢ out_of_fuel
unfolding redact
redact-total fuel [] out h = λ e. cc
redact-total zero (c ∷ s) out h = absurd (omega arith)
redact-total (suc fuel) (c ∷ s) out h =
    after_key-total (redact fuel) fuel (redact-total fuel) _ _
      (span in_key (span is_space (c ∷ s)).1).1
      (λ d r e.
        omega
          (arith, span-le in_key (span is_space (c ∷ s)).1, span-le is_space (c ∷ s), ap length e))
      (λ d r e k. omega (arith, round_progress c s e k))

-- The loops of the redaction end on every text: as many rounds as it has bytes are enough.
pub kv_dsn_redact-total : (dsn : Bytes) → kv_dsn_redact dsn ≢ out_of_fuel
unfolding kv_dsn_redact
kv_dsn_redact-total dsn = redact-total (length dsn) dsn [] (omega arith)
