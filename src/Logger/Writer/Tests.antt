-- ===== src/Logger/Writer/Tests.antt =====
-- Two records, for the theorem about the writer of internal/logger/db_handler.go.
use disapyr_link.Common.{pos, ◌≡◌, true, List, [], ◌∷◌, ◌++◌, Bytes, codes, none}
use disapyr_link.Repository.{Db, Call, Verdict, completed, refused}
use disapyr_link.Logger.Queue.{DbRecord}
use disapyr_link.Logger.Writer.{Json, insert_all}
use disapyr_link.Logger.Writer.Laws.{written_rows, insert_all-rows}

abbrev json : Json
json = record { marshal = λ m. none; stored = λ s. s }

abbrev call_with : Verdict → Call
call_with v = record {
  verdict = v;
  now = pos 100;
  uuid = 1;
  violation = codes "dup";
  stamp = λ t. t;
}

abbrev queued : Bytes → DbRecord
queued msg = record { ts = pos 5; level = codes "WARN"; msg = msg; attrs = [] }

abbrev records : List (Call × DbRecord)
records =
    (call_with completed, queued (codes "a"))
    ∷ (call_with (refused (codes "gone")), queued (codes "b"))
    ∷ []

abbrev empty_db : Db
empty_db = record { secrets = []; events = []; app_logs = [] }

insert_all-rows_example :
    insert_all true json records empty_db
    ≡ record empty_db { app_logs = empty_db.app_logs ++ written_rows json records }
insert_all-rows_example = insert_all-rows json records empty_db
