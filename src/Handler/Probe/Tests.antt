-- ===== src/Handler/Probe/Tests.antt =====
-- Paths for the theorems about `isProbeRequest` of internal/handler/handler.go.
use disapyr_link.Common.{◌≡◌, refl, false, [], ◌∷◌, ◌++◌, arith, same, codes, lower_ascii}
use disapyr_link.Strings.{Unicode}
use disapyr_link.Encoding.Hex
use disapyr_link.Handler.Probe.{is_probe_request}
use disapyr_link.Handler.Probe.Laws.{is_blocked, is_probe_request-eq_blocked}
use disapyr_link.Handler.Probe.Links.{is_probe_request-link}

abbrev tables : Unicode
tables = record { lower = λ s. s; fold = λ s t. same s t; trim = λ s. s }

is_probe_request-eq_blocked_example :
    is_probe_request tables (codes "/App/.GIT/config")
    ≡ is_blocked (lower_ascii (codes "/App/.GIT/config"))
is_probe_request-eq_blocked_example =
    is_probe_request-eq_blocked tables (codes "/App/.GIT/config") refl

is_probe_request-link_example :
    (is_probe_request tables (codes "/s/" ++ Hex.encode (171 ∷ [])) ≡ false)
    × (is_probe_request tables (codes "/s/" ++ (Hex.encode (171 ∷ []) ++ codes "/reveal")) ≡ false)
is_probe_request-link_example = is_probe_request-link tables (171 ∷ []) (omega arith, tt)
