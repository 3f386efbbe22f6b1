-- ===== src/Handler/Mask/Tests.antt =====
-- Paths for the theorems about `maskTokenInPath` of internal/handler/handler.go.
use disapyr_link.Common.{◌≡◌, refl, ◌++◌, arith, Bytes, codes, Lacks}
use disapyr_link.Handler.Mask.{slash, mask_token_in_path}
use disapyr_link.Handler.Mask.Laws.{mask_token_in_path-secret}

abbrev token : Bytes
token = codes "a1"

token-Lacks : Lacks slash token
token-Lacks = ground arith

abbrev other : Bytes
other = codes "bc"

other-Lacks : Lacks slash other
other-Lacks = ground arith

mask_token_in_path-secret_example :
    mask_token_in_path (codes "/s/" ++ (token ++ codes "/reveal"))
    ≡ codes "/s/[token]" ++ codes "/reveal"
mask_token_in_path-secret_example =
    mask_token_in_path-secret token (codes "/reveal") (λ h. cc) token-Lacks refl

-- Other paths stay.
mask_health : mask_token_in_path (codes "/health") ≡ codes "/health"
unfolding mask_token_in_path
mask_health = refl
