-- ===== src/Handler/Admin/LogTable.antt =====
-- `queryLogs` and the numbers of `ServeHealthLogs` of internal/handler/admin.go, over the table app_logs.
-- Arguments are `NOW() - interval`; the order that PostgreSQL gives to the rows of a statement, which may be
-- another one for another statement, since rows with equal `ts` have none; and how many rows arrive before
-- a connection is lost. The rows are as they are in the table; what the page shows of one is in
-- Handler/Admin/Views.
pub mod Paging
mod Tests
use disapyr_link.Common.{
  ℕ, ℤ, pos, negsuc, pos_part, ltb_ℤ, ◌+ℤ◌, ◌*ℤ◌, wrap64, Bool, ◌&&◌, ◌||◌, List, [], Bytes, same,
  keep, length, Option, none, some, take, drop,
}
use disapyr_link.Repository.{LogRow, Call, Verdict, completed, refused, lost}
use disapyr_link.Encoding.Decimal.{Parsed, parsed, bad_syntax, out_of_range, atoi}
use disapyr_link.Handler.Admin.{window_to_interval}

-- pageSize
abbrev pub page_size : ℕ
page_size = 50

abbrev parsed_page : Parsed → ℤ
parsed_page (parsed z) = z
parsed_page bad_syntax = pos 0
parsed_page (out_of_range z) = z

-- The number of the page that is asked for; an error of Atoi is dropped.
unfoldable pub page_of : Bytes → ℕ
page_of text = pos_part (parsed_page (atoi text))

-- (page+1)*pageSize < total
unfoldable pub has_more : ℕ → ℕ → Bool
unfolding wrap64 ◌*ℤ◌ ◌+ℤ◌
has_more page total = ltb_ℤ (wrap64 (wrap64 (pos page +ℤ pos 1) *ℤ pos page_size)) (pos total)

-- The condition of both statements.
abbrev pub selected : Bytes → ℤ → LogRow → Bool
selected level cutoff row = (same level [] || same row.level level) && ltb_ℤ cutoff row.ts

module _ (ago : ℤ → Bytes → ℤ) (order : Call → List LogRow → List LogRow) (arrived : Call → ℕ) where
  abbrev pub matching : ℤ → Bytes → Bytes → List LogRow → List LogRow
  matching now level window logs = keep (selected level (ago now (window_to_interval window))) logs

  -- LIMIT and OFFSET; a negative offset is an error.
  abbrev pub page_rows : ℤ → List LogRow → Option (List LogRow)
  page_rows (pos offset) rows = some (take page_size (drop offset rows))
  page_rows (negsuc _) rows = none

  abbrev pub rows_or_none : Option (List LogRow) → List LogRow
  rows_or_none none = []
  rows_or_none (some rows) = rows

  -- The rows; or none, if the statement is refused; or those that arrive before the connection is lost,
  -- which ends the loop over them without an error.
  abbrev pub second_query : Verdict → ℕ → List LogRow → List LogRow
  second_query completed n rows = rows
  second_query (refused _) n rows = []
  second_query (lost _) n rows = take n rows

  abbrev pub first_query : Verdict → ℕ → List LogRow → List LogRow × ℕ
  first_query completed total rows = (rows, total)
  first_query (refused _) total rows = ([], 0)
  first_query (lost _) total rows = ([], 0)

  -- queryLogs: the rows of a page, and the number of all.
  unfoldable pub query_logs : Call → Call → List LogRow → Bytes → Bytes → ℕ → List LogRow × ℕ
  unfolding wrap64 ◌*ℤ◌ window_to_interval
  query_logs c c' logs level window page =
      let offset = wrap64 (pos page *ℤ pos page_size) in
      let rows = rows_or_none (page_rows offset (order c' (matching c'.now level window logs))) in
      first_query c.verdict (length (matching c.now level window logs))
        (second_query c'.verdict (arrived c') rows)
