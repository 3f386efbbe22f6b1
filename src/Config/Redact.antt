-- ===== src/Config/Redact.antt =====
-- `kvDSNRedact` of internal/config/config.go. The index into the text is the list of the bytes that
-- are left; an index past the end of the text is a case of its own.
pub mod Total
pub mod Values
pub mod Pairs
pub mod Faults
mod Tests
use disapyr_link.Common.{
  ℕ, zero, suc, Bool, not, ◌&&◌, ◌||◌, [], ◌∷◌, ◌++◌, ◌==◌, Bytes, same, length, if◌then◌else◌,
  codes,
}

-- The longest prefix whose bytes pass a test, and the rest.
unfoldable pub span : (ℕ → Bool) → Bytes → Bytes × Bytes
span p [] = ([], [])
span p (c ∷ s) = if p c then (c ∷ (span p s).0, (span p s).1) else ([], c ∷ s)

abbrev pub space : ℕ
space = b' '

abbrev pub equals : ℕ
equals = b'='

abbrev pub quote : ℕ
quote = b'\''

abbrev pub backslash : ℕ
backslash = b'\\'

abbrev pub is_space : ℕ → Bool
is_space c = c == space

abbrev pub in_key : ℕ → Bool
in_key c = not (c == equals) && not (c == space)

abbrev pub in_value : ℕ → Bool
in_value c = not (c == space)

-- Where the scan of a quoted value ends: behind the closing quote or at the end of the text, with the
-- text passed over and what is left; or one past the end of the text.
pub data Quoted : Type 0 where
  ended : Bytes → Bytes → Quoted
  overrun : Quoted

abbrev pub passed : Bytes → Quoted → Quoted
passed t (ended u rest) = ended (t ++ u) rest
passed t overrun = overrun

-- The scan behind the opening quote; a backslash skips the byte behind it.
unfoldable pub scan_quoted : Bytes → Quoted
scan_quoted [] = ended [] []
scan_quoted (c ∷ []) =
    if c == quote then ended (c ∷ []) [] else if c == backslash then overrun else ended (c ∷ []) []
scan_quoted (c ∷ d ∷ s) =
    let skip = passed (c ∷ d ∷ []) (scan_quoted s) in
    let next = passed (c ∷ []) (scan_quoted (d ∷ s)) in
    if c == quote then ended (c ∷ []) (d ∷ s) else if c == backslash then skip else next

-- How the function ends: with a text, or by a panic at a slice past the end; or its fuel runs out.
pub data Redaction : Type 0 where
  done : Bytes → Redaction
  crashed : Redaction
  out_of_fuel : Redaction

abbrev pub is_sensitive : Bytes → Bool
is_sensitive key = same key (codes "password") || same key (codes "passfile")

-- What a value leads to: text to append and the rest; or the loop ends; or it panics.
pub data Value : Type 0 where
  written : Bytes → Bytes → Value
  last : Bytes → Value
  panics : Value

abbrev pub hidden : Bytes
hidden = codes "xxxxx"

abbrev pub hidden_quoted : Bytes
hidden_quoted = codes "'xxxxx'"

abbrev pub quoted_value : Bool → Quoted → Value
quoted_value sensitive (ended u rest) =
    if sensitive then written hidden_quoted rest else written (quote ∷ u) rest
quoted_value sensitive overrun = if sensitive then last hidden_quoted else panics

abbrev pub plain_value : Bool → Bytes × Bytes → Value
plain_value sensitive (u, rest) = if sensitive then written hidden rest else written u rest

unfoldable pub value : Bool → Bytes → Value
unfolding span scan_quoted
value sensitive [] = written (if sensitive then hidden else []) []
value sensitive (c ∷ s) =
    if c == quote
    then quoted_value sensitive (scan_quoted s)
    else plain_value sensitive (span in_value (c ∷ s))

-- The loop goes on behind a value, with `next` for the rounds that follow.
abbrev pub after_value : (Bytes → Bytes → Redaction) → Bytes → Value → Redaction
after_value next so_far (written u rest) = next rest (so_far ++ (equals ∷ u))
after_value next so_far (last u) = done (so_far ++ (equals ∷ u))
after_value next so_far panics = crashed

-- The loop goes on behind a key.
abbrev pub after_key : (Bytes → Bytes → Redaction) → Bytes → Bytes → Bytes → Redaction
after_key next key so_far [] = next [] so_far
after_key next key so_far (d ∷ rest) =
    if d == equals
    then after_value next so_far (value (is_sensitive key) rest)
    else next (d ∷ rest) so_far

-- The loop, with `out` for the result so far.
unfoldable pub redact : ℕ → Bytes → Bytes → Redaction
unfolding span value
redact fuel [] out = done out
redact zero (c ∷ s) out = out_of_fuel
redact (suc fuel) (c ∷ s) out =
    let spaces = span is_space (c ∷ s) in
    let key = span in_key spaces.1 in
    after_key (redact fuel) key.0 (out ++ (spaces.0 ++ key.0)) key.1

-- Each round passes over a byte, so the length of the text is enough.
unfoldable pub kv_dsn_redact : Bytes → Redaction
unfolding redact
kv_dsn_redact dsn = redact (length dsn) dsn []
