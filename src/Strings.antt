-- ===== src/Strings.antt =====
-- The functions of Go's package strings on lists of bytes, as internal/handler/*.go call them. Where a
-- text is not ASCII they go by the tables of Unicode, which are an argument.
pub mod Splitting
pub mod Case
use disapyr_link.Common.{
  ℕ, Bool, true, ◌&&◌, ◌||◌, List, [], ◌∷◌, ◌++◌, ◌==◌, Bytes, same, if◌then◌else◌, leb, ascii_byte,
  lower_ascii,
}

-- Lower case, equality under case folding and trimming of texts that are not ASCII.
pub record Unicode : Type 0 where
  pub lower : Bytes → Bytes
  pub fold : Bytes → Bytes → Bool
  pub trim : Bytes → Bytes

abbrev pub all {ℓ} : {A : Type ℓ} → (A → Bool) → List A → Bool
all p [] = true
all p (x ∷ xs) = p x && all p xs

abbrev pub is_ascii : Bytes → Bool
is_ascii s = all ascii_byte s

-- `strings.ToLower`.
unfoldable pub to_lower : Unicode → Bytes → Bytes
unfolding lower_ascii
to_lower u s = if is_ascii s then lower_ascii s else u.lower s

-- `strings.EqualFold`.
unfoldable pub equal_fold : Unicode → Bytes → Bytes → Bool
unfolding same lower_ascii
equal_fold u s t =
    if is_ascii s && is_ascii t then same (lower_ascii s) (lower_ascii t) else u.fold s t

abbrev pub is_space : ℕ → Bool
is_space c = (leb 9 c && leb c 13) || c == b' '

abbrev drop_spaces : Bytes → Bytes
drop_spaces [] = []
drop_spaces (c ∷ s) = if is_space c then drop_spaces s else c ∷ s

abbrev before_trimmed : ℕ → Bytes → Bytes
before_trimmed c [] = if is_space c then [] else c ∷ []
before_trimmed c (d ∷ r) = c ∷ d ∷ r

-- What is left of a text without the spaces at its end.
abbrev trim_end : Bytes → Bytes
trim_end [] = []
trim_end (c ∷ s) = before_trimmed c (trim_end s)

-- `strings.TrimSpace`.
unfoldable pub trim_space : Unicode → Bytes → Bytes
trim_space u s = if is_ascii s then trim_end (drop_spaces s) else u.trim s

abbrev pub cons_head : ℕ → List Bytes → List Bytes
cons_head c [] = (c ∷ []) ∷ []
cons_head c (p ∷ ps) = (c ∷ p) ∷ ps

-- `strings.Split` at a separator of one byte: there is always a part.
unfoldable pub split : ℕ → Bytes → List Bytes
split sep [] = [] ∷ []
split sep (c ∷ s) = let rest = split sep s in if c == sep then [] ∷ rest else cons_head c rest

-- `strings.Join` with a separator of one byte.
unfoldable pub join : ℕ → List Bytes → Bytes
join sep [] = []
join sep (p ∷ []) = p
join sep (p ∷ q ∷ ps) = p ++ sep ∷ join sep (q ∷ ps)
