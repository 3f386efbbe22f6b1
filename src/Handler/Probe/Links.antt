-- ===== src/Handler/Probe/Links.antt =====
-- `isProbeRequest` of internal/handler/handler.go on the links to secrets.
use disapyr_link.Common.{
  ◌≡◌, refl, ◌∙◌, true, false, [], ◌∷◌, ◌++◌, arith, Bytes, codes, All, All-append, has_prefix,
  contains, lower_ascii, Lacks,
}
use disapyr_link.Strings.{Unicode, is_ascii}
use disapyr_link.Strings.Case.{is_ascii-append}
use disapyr_link.Encoding.Hex
use disapyr_link.Encoding.Hex.{AreBytes, IsHexDigit, encode-IsHexDigit}
use disapyr_link.Handler.Probe.{git_inside, is_probe_request}
use disapyr_link.Handler.Probe.Laws.{is_blocked, is_probe_request-eq_blocked}

has_prefix-Lacks : (s : Bytes) → Lacks b'.' s → has_prefix git_inside s ≡ false
unfolding has_prefix
has_prefix-Lacks [] h = refl
has_prefix-Lacks (c ∷ []) h = ground arith
has_prefix-Lacks (c ∷ d ∷ s) h = ground arith

contains-Lacks : (s : Bytes) → Lacks b'.' s → contains git_inside s ≡ false
unfolding contains
contains-Lacks [] h = unfold has_prefix in refl
contains-Lacks (c ∷ s) h = ground (arith, has_prefix-Lacks (c ∷ s) h, contains-Lacks s h.1)

lower_ascii-Lacks : (s : Bytes) → Lacks b'.' s → Lacks b'.' (lower_ascii s)
unfolding lower_ascii
lower_ascii-Lacks [] h = tt
lower_ascii-Lacks (c ∷ s) (h, hs) = (ground arith, lower_ascii-Lacks s hs)

-- The path of a secret, whatever stands behind "/s/".
abbrev pub secret_path : Bytes → Bytes
secret_path r = codes "/s/" ++ r

is_blocked-secret_path :
    (r : Bytes) → Lacks b'.' r → is_blocked (lower_ascii (secret_path r)) ≡ false
unfolding is_blocked lower_ascii has_prefix
is_blocked-secret_path r h =
    let lacks : Lacks b'.' (lower_ascii (secret_path r)) =
      (omega arith, (omega arith, (omega arith, lower_ascii-Lacks r h))) in
    contains-Lacks (lower_ascii (secret_path r)) lacks

-- No ASCII path that starts with "/s/" and has no full stop is taken for a probe.
pub is_probe_request-secret_path :
    (u : Unicode) (r : Bytes)
    → is_ascii r ≡ true
    → Lacks b'.' r
    → is_probe_request u (secret_path r) ≡ false
is_probe_request-secret_path u r h k =
    is_probe_request-eq_blocked u (secret_path r) (is_ascii-append (codes "/s/") r refl h)
    ∙ is_blocked-secret_path r k

digits-plain : (s : Bytes) → All IsHexDigit s → (is_ascii s ≡ true) × Lacks b'.' s
digits-plain [] h = (refl, tt)
digits-plain (c ∷ s) (h, hs) = let (a, l) = digits-plain s hs in (ground arith, (ground arith, l))

-- The link to a secret, and the request that reveals it, pass: whatever random bytes the token
-- encodes, neither path is taken for a probe.
pub is_probe_request-link :
    (u : Unicode) (b : Bytes)
    → AreBytes b
    → (is_probe_request u (codes "/s/" ++ Hex.encode b) ≡ false)
      × (is_probe_request u (codes "/s/" ++ (Hex.encode b ++ codes "/reveal")) ≡ false)
is_probe_request-link u b h =
    let (a, l) = digits-plain (Hex.encode b) (encode-IsHexDigit b h) in
    (
      is_probe_request-secret_path u (Hex.encode b) a l,
      is_probe_request-secret_path u (Hex.encode b ++ codes "/reveal")
          (is_ascii-append (Hex.encode b) (codes "/reveal") a refl)
          (All-append _ (Hex.encode b) (codes "/reveal") l (omega arith)),
    )
