-- ===== src/Encoding/Decimal.antt =====
-- `strconv.Itoa`, `strconv.Atoi` and `strconv.ParseInt(s, 10, 64)`.
use disapyr_link.Common.{
  ℕ, zero, suc, ◌+◌, ◌*◌, ◌-◌, ◌/◌, ◌%◌, ◌^◌, ◌≤◌, ◌<◌, ℤ, pos, negsuc, ◌≡◌, refl, inl, inr, ◌||◌,
  [], ◌∷◌, ◌==◌, arith, Bytes, if◌then◌else◌, Bool-cases, ltb, leb,
}

-- The digits of a number before those of `out`; `f` rounds are enough for a number below `f`.
digits : ℕ → ℕ → Bytes → Bytes
digits zero n out = out
digits (suc f) n out =
    let rest = digits f (n / 10) ((b'0' + n % 10) ∷ out) in
    if ltb n 10 then (b'0' + n) ∷ out else rest

unfoldable pub itoa : ℤ → Bytes
unfolding digits
itoa (pos n) = digits (suc n) n []
itoa (negsuc n) = b'-' ∷ digits (suc (suc n)) (suc n) []

-- The result of a conversion: a value; or 0 with a syntax error; or the nearest value of the range
-- with a range error.
pub data Parsed : Type 0 where
  parsed : ℤ → Parsed
  bad_syntax : Parsed
  out_of_range : ℤ → Parsed

pub data Scan : Type 0 where
  number : ℕ → Scan
  no_number : Scan
  too_big : Scan

-- `ParseUint`'s loop: it stops at the first byte that is no digit, and at the first overflow.
scan : ℕ → Bytes → Scan
scan n [] = number n
scan n (c ∷ s) =
    let m = n * 10 + (c - b'0') in
    let rest = scan m s in
    if ltb c b'0' || ltb b'9' c then no_number else if leb (2 ^ 64) m then too_big else rest

abbrev positive : Scan → Parsed
positive (number n) = if ltb n (2 ^ 63) then parsed (pos n) else out_of_range (pos (2 ^ 63 - 1))
positive no_number = bad_syntax
positive too_big = out_of_range (pos (2 ^ 63 - 1))

abbrev negated : ℕ → ℤ
negated zero = pos 0
negated (suc n) = negsuc n

abbrev negative : Scan → Parsed
negative (number n) =
    if leb n (2 ^ 63) then parsed (negated n) else out_of_range (negsuc (2 ^ 63 - 1))
negative no_number = bad_syntax
negative too_big = out_of_range (negsuc (2 ^ 63 - 1))

abbrev scan_digits : Bytes → Scan
scan_digits [] = no_number
scan_digits (c ∷ s) = scan 0 (c ∷ s)

abbrev signed : ℕ → Bytes → Parsed
signed c s =
    if c == b'-'
    then negative (scan_digits s)
    else if c == b'+'
    then positive (scan_digits s)
    else positive (scan_digits (c ∷ s))

unfoldable pub atoi : Bytes → Parsed
unfolding scan
atoi [] = bad_syntax
atoi (c ∷ s) = signed c s

-- The value that the program goes on with when it drops the error.
abbrev pub value_of : Parsed → ℤ
value_of (parsed z) = z
value_of bad_syntax = pos 0
value_of (out_of_range z) = z

scan-digits : (f n : ℕ) (out : Bytes) → n < f → n < 2 ^ 64 → scan 0 (digits f n out) ≡ scan n out
unfolding scan digits
scan-digits zero n out h fits = absurd (omega arith)
scan-digits (suc f) n out h fits = ground (arith, scan-digits f (n / 10) ((b'0' + n % 10) ∷ out))

digits-head :
    (f n : ℕ) (out : Bytes)
    → n < f
    → (c : ℕ) × (s : Bytes) × (digits f n out ≡ c ∷ s) × (b'0' ≤ c) × (c ≤ b'9')
unfolding digits
digits-head zero n out h = absurd (omega arith)
digits-head (suc f) n out h = elim (Bool-cases (ltb n 10)) [
  | inl e ↦ rw e (b'0' + n, out, refl, omega arith, ground arith)
  | inr e ↦ rw e (digits-head f (n / 10) ((b'0' + n % 10) ∷ out) (ground arith))
]

atoi-unsigned : (c : ℕ) (s : Bytes) → b'0' ≤ c → c ≤ b'9' → atoi (c ∷ s) ≡ positive (scan 0 (c ∷ s))
unfolding atoi
atoi-unsigned c s h k = ground arith

atoi-minus : (c : ℕ) (s : Bytes) → atoi (b'-' ∷ c ∷ s) ≡ negative (scan 0 (c ∷ s))
unfolding atoi
atoi-minus c s = refl

atoi-digits : (n : ℕ) → n < 2 ^ 63 → atoi (digits (suc n) n []) ≡ parsed (pos n)
unfolding scan
atoi-digits n h =
    let (c, s, e, lo, hi) = digits-head (suc n) n [] (omega arith) in
    let read : scan 0 (c ∷ s) ≡ number n =
      rw e at (scan-digits (suc n) n [] (omega arith) (omega arith)) in
    rw (e, atoi-unsigned c s lo hi, read) (ground arith)

atoi-minus_digits :
    (n : ℕ) → n < 2 ^ 63 → atoi (b'-' ∷ digits (suc (suc n)) (suc n) []) ≡ parsed (negsuc n)
unfolding scan
atoi-minus_digits n h =
    let (c, s, e, lo, hi) = digits-head (suc (suc n)) (suc n) [] (omega arith) in
    let read : scan 0 (c ∷ s) ≡ number (suc n) =
      rw e at (scan-digits (suc (suc n)) (suc n) [] (omega arith) (omega arith)) in
    rw (e, atoi-minus c s, read) (ground arith)

-- The values of Go's `int`.
abbrev pub IsInt64 : ℤ → Type 0
IsInt64 (pos n) = n < 2 ^ 63
IsInt64 (negsuc n) = n < 2 ^ 63

-- Every value of Go's `int` is read back from its decimal print.
pub atoi-itoa : (z : ℤ) → IsInt64 z → atoi (itoa z) ≡ parsed z
unfolding itoa
atoi-itoa (pos n) h = atoi-digits n h
atoi-itoa (negsuc n) h = atoi-minus_digits n h

pub atoi-nil : atoi [] ≡ bad_syntax
unfolding atoi
atoi-nil = refl
