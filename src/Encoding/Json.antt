-- ===== src/Encoding/Json.antt =====
-- `json.NewEncoder(w).Encode` of the two responses of internal/handler/handler.go: objects of strings
-- that are ASCII. (Texts that are not are copied here.)
use disapyr_link.Common.{
  ℕ, ◌/◌, ◌%◌, ◌≤◌, ◌≡◌, refl, ap, ◌≢◌, ◌||◌, [], ◌∷◌, ◌++◌, ◌==◌, arith, Bytes, if◌then◌else◌, ltb,
  codes, All,
}
use disapyr_link.Encoding.Hex.{hex_digit}

abbrev quoted : ℕ → Bytes
quoted c = b'\\' ∷ c ∷ []

abbrev hex_escape : ℕ → Bytes
hex_escape c = codes "\\u00" ++ hex_digit (c / 16) ∷ hex_digit (c % 16) ∷ []

-- Quotes, backslashes and control characters are escaped, and `<`, `>` and `&` too.
unfoldable pub json_byte : ℕ → Bytes
json_byte c =
    if c == b'"' || c == b'\\'
    then quoted c
    else if c == 8
    then quoted b'b'
    else if c == 12
    then quoted b'f'
    else if c == 10
    then quoted b'n'
    else if c == 13
    then quoted b'r'
    else if c == 9
    then quoted b't'
    else if ltb c 0x20 || c == b'<' || c == b'>' || c == b'&'
    then hex_escape c
    else c ∷ []

unfoldable pub json_chars : Bytes → Bytes
unfolding json_byte
json_chars [] = []
json_chars (c ∷ s) = json_byte c ++ json_chars s

-- A string as JSON.
unfoldable pub json_string : Bytes → Bytes
unfolding json_chars
json_string s = b'"' ∷ (json_chars s ++ b'"' ∷ [])

-- A text that needs no escape.
abbrev pub IsSafe : ℕ → Type 0
IsSafe c = (0x20 ≤ c) × (c ≢ b'"') × (c ≢ b'\\') × (c ≢ b'<') × (c ≢ b'>') × (c ≢ b'&')

pub json_string-safe : (s : Bytes) → All IsSafe s → json_string s ≡ b'"' ∷ (s ++ b'"' ∷ [])
unfolding json_string
json_string-safe s h = ap (λ t. b'"' ∷ (t ++ b'"' ∷ [])) (json_chars-safe s h)
  where
    json_chars-safe : (s : Bytes) → All IsSafe s → json_chars s ≡ s
    json_chars-safe [] h = refl
    json_chars-safe (c ∷ s) (h, hs) =
        unfold json_chars json_byte in ground (arith, json_chars-safe s hs)
