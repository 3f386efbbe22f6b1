-- ===== src/Encoding/Hex.antt =====
-- `hex.EncodeToString`, as internal/service/secret_service.go calls it.
use disapyr_link.Common.{
  ℕ, ◌+◌, ◌*◌, ◌-◌, ◌/◌, ◌%◌, ◌≤◌, ◌<◌, ◌≡◌, refl, ◌⊎◌, [], ◌∷◌, arith, Bytes, length,
  if◌then◌else◌, ltb, All,
}

unfoldable pub hex_digit : ℕ → ℕ
hex_digit n = if ltb n 10 then b'0' + n else b'a' + n - 10

unfoldable pub encode : Bytes → Bytes
unfolding hex_digit
encode [] = []
encode (b ∷ s) = hex_digit (b / 16) ∷ hex_digit (b % 16) ∷ encode s

abbrev pub AreBytes : Bytes → Type 0
AreBytes = All (λ b. b < 256)

abbrev pub IsHexDigit : ℕ → Type 0
IsHexDigit c = ((b'0' ≤ c) × (c ≤ b'9')) ⊎ ((b'a' ≤ c) × (c ≤ b'f'))

pub length-encode : (s : Bytes) → length (encode s) ≡ 2 * length s
unfolding encode
length-encode [] = omega arith
length-encode (b ∷ s) = omega (arith, length-encode s)

hex_digit-IsHexDigit : (n : ℕ) → n < 16 → IsHexDigit (hex_digit n)
unfolding hex_digit
hex_digit-IsHexDigit n h = ground arith

pub encode-IsHexDigit : (s : Bytes) → AreBytes s → All IsHexDigit (encode s)
unfolding encode
encode-IsHexDigit [] h = tt
encode-IsHexDigit (b ∷ s) (h, hs) = (
  hex_digit-IsHexDigit (b / 16) (omega arith),
  (hex_digit-IsHexDigit (b % 16) (omega arith), encode-IsHexDigit s hs),
)

hex_digit-injective : (m n : ℕ) → m < 16 → n < 16 → hex_digit m ≡ hex_digit n → m ≡ n
unfolding hex_digit
hex_digit-injective m n h k e = ground arith

-- Two texts of bytes with one encoding are equal.
pub encode-injective : (s t : Bytes) → AreBytes s → AreBytes t → encode s ≡ encode t → s ≡ t
unfolding encode
encode-injective [] [] h k e = refl
encode-injective [] (_ ∷ _) h k e = cc
encode-injective (_ ∷ _) [] h k e = cc
encode-injective (a ∷ s) (b ∷ t) (h, hs) (k, ks) e =
    let hi : hex_digit (a / 16) ≡ hex_digit (b / 16) = cc in
    let lo : hex_digit (a % 16) ≡ hex_digit (b % 16) = cc in
    let rest : encode s ≡ encode t = cc in
    let hi' = hex_digit-injective (a / 16) (b / 16) (omega arith) (omega arith) hi in
    let lo' = hex_digit-injective (a % 16) (b % 16) (omega arith) (omega arith) lo in
    let head : a ≡ b = omega arith in cc (head, encode-injective s t hs ks rest)
