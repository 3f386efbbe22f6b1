-- ===== src/Handler/Admin/Stats.antt =====
-- `querySecretStats` and `queryLogSummary` of internal/handler/admin.go. The rows of a GROUP BY are what
-- the database sends, in any order.
pub mod Laws
use disapyr_link.Common.{
  ℕ, ◌^◌, not, List, [], ◌∷◌, map, Bytes, same, if◌then◌else◌, ltb, codes, none, some,
}
use disapyr_link.Strings.{Unicode, to_lower}
use disapyr_link.Http.{World, warn, log}
use disapyr_link.Handler.Admin.Views.{Reply, failed, answered, LogLevelCount, SecretStats}

abbrev pub no_stats : SecretStats
no_stats = record { created = 0; retrieved = 0; expired = 0 }

-- A row whose sum is no int64 cannot be scanned and is skipped.
unfoldable pub count_row : SecretStats → Bytes × ℕ → SecretStats
count_row s (kind, n) =
    if not (ltb n (2 ^ 63))
    then s
    else if same kind (codes "created")
    then record s { created = n }
    else if same kind (codes "retrieved")
    then record s { retrieved = n }
    else if same kind (codes "expired")
    then record s { expired = n }
    else s

unfoldable pub count_rows : SecretStats → List (Bytes × ℕ) → SecretStats
unfolding count_row
count_rows s [] = s
count_rows s (r ∷ rs) = count_rows (count_row s r) rs

-- querySecretStats
unfoldable pub query_secret_stats : Reply (Bytes × ℕ) → World → World × SecretStats
unfolding count_rows
query_secret_stats (failed text) w =
    (log warn (codes "querySecretStats") ((codes "error", text) ∷ []) w, no_stats)
query_secret_stats (answered rows none) w = (w, count_rows no_stats rows)
query_secret_stats (answered rows (some text)) w = (
  log warn (codes "querySecretStats iteration") ((codes "error", text) ∷ []) w,
  count_rows no_stats rows,
)

abbrev level_count : Unicode → Bytes × ℕ → LogLevelCount
level_count u (level, n) = record { level = level; level_class = to_lower u level; count = n }

-- queryLogSummary
unfoldable pub query_log_summary : Unicode → Reply (Bytes × ℕ) → World → World × List LogLevelCount
query_log_summary u (failed text) w =
    (log warn (codes "queryLogSummary") ((codes "error", text) ∷ []) w, [])
query_log_summary u (answered rows _) w = (w, map (level_count u) rows)
