-- ===== src/Handler/Mask.antt =====
-- `maskTokenInPath` of internal/handler/handler.go.
pub mod Laws
mod Tests
use disapyr_link.Common.{ℕ, List, [], ◌∷◌, Bytes, same, if◌then◌else◌, codes, has_prefix}
use disapyr_link.Strings.{split, join}

abbrev pub slash : ℕ
slash = b'/'

abbrev pub mark : Bytes
mark = codes "[token]"

-- `parts[2]` is written, if there is one and it is not empty.
abbrev pub mask_parts : Bytes → List Bytes → Bytes
mask_parts path (a ∷ b ∷ c ∷ rest) = if same c [] then path else join slash (a ∷ b ∷ mark ∷ rest)
mask_parts path _ = path

unfoldable pub mask_token_in_path : Bytes → Bytes
unfolding has_prefix same split join
mask_token_in_path path =
    if has_prefix (codes "/s/") path then mask_parts path (split slash path) else path
