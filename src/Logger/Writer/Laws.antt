-- ===== src/Logger/Writer/Laws.antt =====
-- What the writer of internal/logger/db_handler.go leaves in app_logs.
use disapyr_link.Common.{
  ◌≡◌, refl, ap, ◌∙◌, inl, inr, Bool, true, false, List, [], ◌∷◌, ◌++◌, append-nil, if◌then◌else◌,
  Bool-cases, sym, append_assoc,
}
use disapyr_link.Repository.{Db, LogRow, Call, Verdict, completed, refused, lost, settle}
use disapyr_link.Logger.Queue.{DbRecord}
use disapyr_link.Logger.Writer.{Json, log_row, insert_log, insert, insert_all}

abbrev pub is_refused : Verdict → Bool
is_refused (refused _) = true
is_refused _ = false

-- The rows of the records whose statements the database carries out.
unfoldable pub written_rows : Json → List (Call × DbRecord) → List LogRow
written_rows j [] = []
written_rows j ((c, r) ∷ rs) =
    if is_refused c.verdict then written_rows j rs else log_row j c r ∷ written_rows j rs

insert_lem :
    (j : Json) (c : Call) (r : DbRecord) (db : Db)
    → insert true j c r db ≡ record db {
      app_logs = db.app_logs ++ (if is_refused c.verdict then [] else log_row j c r ∷ []);
    }
unfolding insert
insert_lem j c r db = go c.verdict
  where
    go :
        (v : Verdict)
        → (settle v db (insert_log j c r db)).0 ≡ record db {
          app_logs = db.app_logs ++ (if is_refused v then [] else log_row j c r ∷ []);
        }
    go completed = refl
    go (refused text) = λ i. record db { app_logs = sym (append-nil db.app_logs) i }
    go (lost text) = refl

-- The writer appends the rows of the records whose statements the database does not refuse, in the
-- order of the queue, and touches no other table: a refused record is lost and stops nothing.
pub insert_all-rows :
    (j : Json) (rs : List (Call × DbRecord)) (db : Db)
    → insert_all true j rs db ≡ record db { app_logs = db.app_logs ++ written_rows j rs }
unfolding insert_all written_rows
insert_all-rows j [] db = λ i. record db { app_logs = sym (append-nil db.app_logs) i }
insert_all-rows j ((c, r) ∷ rs) db = elim (Bool-cases (is_refused c.verdict)) [
  | inl e ↦
      ap (insert_all true j rs) (insert_lem j c r db)
      ∙ insert_all-rows j rs _
      ∙ rw (e, append-nil db.app_logs) refl
  | inr e ↦
      ap (insert_all true j rs) (insert_lem j c r db)
      ∙ insert_all-rows j rs _
      ∙ rw (e, append_assoc db.app_logs (log_row j c r ∷ []) (written_rows j rs)) refl
]
