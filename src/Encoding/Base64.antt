-- ===== src/Encoding/Base64.antt =====
-- `base64.StdEncoding`, as internal/handler/handler.go and the HTTP basic authentication use it.
-- Decoding skips carriage returns and newlines, wants the padding, and does not look at the bits
-- behind the last byte.
use disapyr_link.Common.{
  ℕ, ◌+◌, ◌*◌, ◌-◌, ◌/◌, ◌%◌, ◌≤◌, ◌<◌, ◌≡◌, refl, ◌⊎◌, inl, inr, Bool, true, false, not, ◌&&◌,
  ◌||◌, [], ◌∷◌, ◌==◌, arith, Bytes, keep, length, if◌then◌else◌, Bool-cases, ltb, leb, Option,
  none, some,
}
use disapyr_link.Encoding.Hex.{AreBytes}

abbrev digit : ℕ → ℕ
digit n =
    if ltb n 26
    then b'A' + n
    else if ltb n 52
    then b'a' + n - 26
    else if ltb n 62
    then b'0' + n - 52
    else if n == 62
    then b'+'
    else b'/'

abbrev digit_value : ℕ → Option ℕ
digit_value c =
    if leb b'A' c && leb c b'Z'
    then some (c - b'A')
    else if leb b'a' c && leb c b'z'
    then some (c - b'a' + 26)
    else if leb b'0' c && leb c b'9'
    then some (c - b'0' + 52)
    else if c == b'+'
    then some 62
    else if c == b'/'
    then some 63
    else none

unfoldable pub b64_digit : ℕ → ℕ
b64_digit n = digit n

unfoldable pub b64_value : ℕ → Option ℕ
b64_value c = digit_value c

abbrev pub pad : ℕ
pad = b'='

-- `EncodeToString`.
unfoldable pub encode : Bytes → Bytes
unfolding b64_digit
encode [] = []
encode (a ∷ []) = b64_digit (a / 4) ∷ b64_digit (a % 4 * 16) ∷ pad ∷ pad ∷ []
encode (a ∷ b ∷ []) =
    b64_digit (a / 4) ∷ b64_digit (a % 4 * 16 + b / 16) ∷ b64_digit (b % 16 * 4) ∷ pad ∷ []
encode (a ∷ b ∷ c ∷ s) =
    b64_digit (a / 4)
    ∷ b64_digit (a % 4 * 16 + b / 16)
    ∷ b64_digit (b % 16 * 4 + c / 64)
    ∷ b64_digit (c % 64)
    ∷ encode s

infixl 5 ◌>>=◌
abbrev ◌>>=◌ {ℓ κ} : {A : Type ℓ} {B : Type κ} → Option A → (A → Option B) → Option B
none >>= f = none
some a >>= f = f a

abbrev only_last : Bytes → Bytes → Option Bytes
only_last [] out = some out
only_last (_ ∷ _) out = none

-- The last quantum, when its third or fourth character is the padding.
abbrev padded : ℕ → ℕ → ℕ → ℕ → Bytes → Option Bytes
padded u v c d rest =
    if c == pad
    then (if d == pad then only_last rest ((u * 4 + v / 16) ∷ []) else none)
    else do w ← b64_value c; only_last rest ((u * 4 + v / 16) ∷ (v % 16 * 16 + w / 4) ∷ [])

abbrev full : ℕ → ℕ → ℕ → ℕ → Option Bytes → Option Bytes
full u v c d more = do
  w ← b64_value c
  x ← b64_value d
  out ← more
  some ((u * 4 + v / 16) ∷ (v % 16 * 16 + w / 4) ∷ (w % 4 * 64 + x) ∷ out)

-- Four characters at a time.
unfoldable pub quanta : Bytes → Option Bytes
unfolding b64_value
quanta [] = some []
quanta (a ∷ b ∷ c ∷ d ∷ rest) =
    let more = quanta rest in
    do
      u ← b64_value a
      v ← b64_value b
      (if c == pad || d == pad then padded u v c d rest else full u v c d more)
quanta _ = none

abbrev pub is_newline : ℕ → Bool
is_newline c = c == 10 || c == 13

-- `DecodeString`.
unfoldable pub decode : Bytes → Option Bytes
unfolding quanta
decode s = quanta (keep (λ c. not (is_newline c)) s)

b64_value-digit : (n : ℕ) → n < 64 → b64_value (b64_digit n) ≡ some n
unfolding b64_value b64_digit
b64_value-digit n h = ground arith

-- A digit is neither the padding nor a newline.
b64_digit-plain :
    (n : ℕ) → n < 64 → ((b64_digit n == pad) ≡ false) × (is_newline (b64_digit n) ≡ false)
unfolding b64_digit
b64_digit-plain n h = ground arith

encode-plain : (s : Bytes) → AreBytes s → keep (λ c. not (is_newline c)) (encode s) ≡ encode s
unfolding encode
encode-plain [] h = refl
encode-plain (a ∷ []) (h, _) = ground (arith, b64_digit-plain (a / 4), b64_digit-plain (a % 4 * 16))
encode-plain (a ∷ b ∷ []) (h, (k, _)) = ground (
  arith,
  b64_digit-plain (a / 4),
  b64_digit-plain (a % 4 * 16 + b / 16),
  b64_digit-plain (b % 16 * 4),
)
encode-plain (a ∷ b ∷ c ∷ s) (h, (k, (l, hs))) = ground (
  arith,
  b64_digit-plain (a / 4),
  b64_digit-plain (a % 4 * 16 + b / 16),
  b64_digit-plain (b % 16 * 4 + c / 64),
  b64_digit-plain (c % 64),
  encode-plain s hs,
)

quanta-encode : (s : Bytes) → AreBytes s → quanta (encode s) ≡ some s
unfolding encode quanta
quanta-encode [] h = refl
quanta-encode (a ∷ []) (h, _) =
    rw (b64_value-digit (a / 4) (omega arith), b64_value-digit (a % 4 * 16) (omega arith))
      (ground arith)
quanta-encode (a ∷ b ∷ []) (h, (k, _)) = ground (
  arith,
  b64_value-digit (a / 4),
  b64_value-digit (a % 4 * 16 + b / 16),
  b64_value-digit (b % 16 * 4),
  b64_digit-plain (b % 16 * 4),
)
quanta-encode (a ∷ b ∷ c ∷ s) (h, (k, (l, hs))) = ground (
  arith,
  b64_value-digit (a / 4),
  b64_value-digit (a % 4 * 16 + b / 16),
  b64_value-digit (b % 16 * 4 + c / 64),
  b64_value-digit (c % 64),
  b64_digit-plain (b % 16 * 4 + c / 64),
  b64_digit-plain (c % 64),
  quanta-encode s hs,
)

-- Every text of bytes is decoded from its encoding.
pub decode-encode : (s : Bytes) → AreBytes s → decode (encode s) ≡ some s
unfolding decode
decode-encode s h = rw (encode-plain s h) (quanta-encode s h)

-- The length of an encoding is four for each three bytes begun.
pub length-encode_le : (s : Bytes) → 3 * length (encode s) ≤ 4 * length s + 8
unfolding encode
length-encode_le [] = omega arith
length-encode_le (a ∷ []) = omega arith
length-encode_le (a ∷ b ∷ []) = omega arith
length-encode_le (a ∷ b ∷ c ∷ s) = omega (arith, length-encode_le s)

b64_value-lt : (c : ℕ) {n : ℕ} → b64_value c ≡ some n → n < 64
unfolding b64_value
b64_value-lt c h = ground arith

abbrev OfBytes : Option Bytes → Type 0
OfBytes none = Unit
OfBytes (some s) = AreBytes s

bind-OfBytes :
    {A : Type 0} (m : Option A) (f : A → Option Bytes)
    → ((a : A) → m ≡ some a → OfBytes (f a))
    → OfBytes (m >>= f)
bind-OfBytes none f h = tt
bind-OfBytes (some a) f h = h a refl

only_last-OfBytes : (rest out : Bytes) → AreBytes out → OfBytes (only_last rest out)
only_last-OfBytes [] out h = h
only_last-OfBytes (_ ∷ _) out h = tt

module _ (u v c d : ℕ) (hu : u < 64) (hv : v < 64) where
  padded-OfBytes : (rest : Bytes) → OfBytes (padded u v c d rest)
  padded-OfBytes rest = elim (Bool-cases (c == pad)) [
    | inl e ↦ elim (Bool-cases (d == pad)) [
      | inl k ↦ rw (e, k) (only_last-OfBytes rest _ (omega arith, tt))
      | inr k ↦ rw (e, k) tt
    ]
    | inr e ↦ rw e (
        bind-OfBytes (b64_value c) _ λ w h.
          only_last-OfBytes rest _ (let k = b64_value-lt c h in (omega arith, (omega arith, tt))))
  ]

  full-OfBytes : (more : Option Bytes) → OfBytes more → OfBytes (full u v c d more)
  full-OfBytes more hm = bind-OfBytes (b64_value c) _ λ w hw. bind-OfBytes (b64_value d) _ λ x hx.
      bind-OfBytes more _ λ out ho.
        (let kw = b64_value-lt c hw in
          let kx = b64_value-lt d hx in (omega arith, (omega arith, (omega arith, rw ho at hm))))

quanta-OfBytes : (s : Bytes) → OfBytes (quanta s)
unfolding quanta
quanta-OfBytes [] = tt
quanta-OfBytes (a ∷ b ∷ c ∷ d ∷ rest) =
    let more = quanta-OfBytes rest in
    bind-OfBytes (b64_value a) _ λ u hu. bind-OfBytes (b64_value b) _ λ v hv.
      go u v (b64_value-lt a hu) (b64_value-lt b hv) more (Bool-cases (c == pad || d == pad))
  where
    go :
        (u v : ℕ)
        → u < 64
        → v < 64
        → OfBytes (quanta rest)
        → ((c == pad || d == pad) ≡ true) ⊎ ((c == pad || d == pad) ≡ false)
        → OfBytes (if c == pad || d == pad then padded u v c d rest else full u v c d (quanta rest))
    go u v hu hv more (inl e) = rw e (padded-OfBytes u v c d hu hv rest)
    go u v hu hv more (inr e) = rw e (full-OfBytes u v c d hu hv (quanta rest) more)
quanta-OfBytes _ = tt

-- What is decoded is a text of bytes.
pub decode-AreBytes : (s : Bytes) {out : Bytes} → decode s ≡ some out → AreBytes out
unfolding decode
decode-AreBytes s h = rw h at (quanta-OfBytes (keep (λ c. not (is_newline c)) s))
