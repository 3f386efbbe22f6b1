-- ===== src/Config/Redact/Tests.antt =====
-- Connection strings for the theorems about `kvDSNRedact` of internal/config/config.go.
use disapyr_link.Common.{◌≡◌, refl, ◌≢◌, List, [], ◌∷◌, ◌++◌, map, arith, same, codes, All}
use disapyr_link.Config.Redact.{kv_dsn_redact, done, crashed, out_of_fuel, quote, backslash, equals}
use disapyr_link.Config.Redact.Total.{kv_dsn_redact-total}
use disapyr_link.Config.Redact.Values.{lit, esc, plain, quoted, Pair, IsPair, print_dsn, hide}
use disapyr_link.Config.Redact.Pairs.{kv_dsn_redact-print}
use disapyr_link.Config.Redact.Faults.{kv_dsn_redact-crashed, kv_dsn_redact-spaced}

abbrev pairs : List Pair
pairs =
    record { key = codes "host"; val = plain (codes "db") }
    ∷ record { key = codes "password"; val = quoted (lit 97 ∷ lit 32 ∷ esc 39 ∷ []) }
    ∷ []

pairs-AreWellFormed : All IsPair pairs
pairs-AreWellFormed = ground arith

kv_dsn_redact-print_example : kv_dsn_redact (print_dsn pairs) ≡ done (print_dsn (map hide pairs))
kv_dsn_redact-print_example = kv_dsn_redact-print pairs pairs-AreWellFormed

hidden_pairs : print_dsn (map hide pairs) ≡ codes "host=db password='xxxxx'"
unfolding same
hidden_pairs = refl

kv_dsn_redact-total_example : kv_dsn_redact (codes "host=db password='a") ≢ out_of_fuel
kv_dsn_redact-total_example = kv_dsn_redact-total (codes "host=db password='a")

kv_dsn_redact-crashed_example :
    kv_dsn_redact (codes "user" ++ equals ∷ quote ∷ (codes "a" ++ backslash ∷ [])) ≡ crashed
unfolding same
kv_dsn_redact-crashed_example =
    kv_dsn_redact-crashed (codes "user") (codes "a") (ground arith) refl (ground arith)

kv_dsn_redact-spaced_example :
    kv_dsn_redact (codes "password = " ++ codes "hunter2")
    ≡ done (codes "password = " ++ codes "hunter2")
kv_dsn_redact-spaced_example = kv_dsn_redact-spaced (codes "hunter2") (ground arith)
