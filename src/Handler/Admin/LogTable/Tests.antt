-- ===== src/Handler/Admin/LogTable/Tests.antt =====
-- Two records, for the theorem about the pages of the log browser of internal/handler/admin.go.
use disapyr_link.Common.{
  ℕ, ◌+◌, ℤ, pos, ◌+ℤ◌, ◌*ℤ◌, wrap64, ◌≡◌, refl, List, [], ◌∷◌, arith, Bytes, same, codes, none,
}
use disapyr_link.Repository.{Call, completed, LogRow}
use disapyr_link.Encoding.Decimal.{atoi}
use disapyr_link.Handler.Admin.LogTable.{page_of, has_more, query_logs}
use disapyr_link.Handler.Admin.LogTable.Paging.{pages_up_to, pages_up_to-all}

abbrev call : Call
call = record {
  verdict = completed;
  now = pos 100;
  uuid = 1;
  violation = codes "dup";
  stamp = λ t. t;
}

-- Every window goes back to the time 10.
abbrev ago : ℤ → Bytes → ℤ
ago now interval = pos 10

abbrev as_stored : Call → List LogRow → List LogRow
as_stored c rows = rows

abbrev row : ℕ → Bytes → LogRow
row n level = record { id = n; ts = pos (20 + n); level = level; msg = codes "m"; attrs = none }

abbrev rows : List LogRow
rows = row 1 (codes "WARN") ∷ row 2 (codes "ERROR") ∷ row 3 (codes "WARN") ∷ []

pages_up_to-all_example :
    pages_up_to ago as_stored (λ c. 0) (λ p. call) (λ p. call) rows (codes "WARN") (codes "1h") 0
    ≡ row 1 (codes "WARN") ∷ row 3 (codes "WARN") ∷ []
unfolding query_logs has_more wrap64 ◌*ℤ◌ ◌+ℤ◌ same
pages_up_to-all_example =
    pages_up_to-all ago as_stored (λ c. 0) (λ p. call) (λ p. call) rows (codes "WARN") (codes "1h")
      (pos 100) (row 1 (codes "WARN") ∷ row 3 (codes "WARN") ∷ []) (λ q. refl) (λ q. refl)
      (λ q. refl) (λ q. refl) (λ q. refl) 0 (omega arith) refl refl

-- A page that is no number is the first, and so is a negative one.
page_of_text : (page_of (codes "x") ≡ 0) × (page_of (codes "-3") ≡ 0) × (page_of (codes "7") ≡ 7)
unfolding page_of atoi
page_of_text = (refl, refl, refl)
