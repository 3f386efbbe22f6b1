-- ===== src/Logger/Writer.antt =====
-- `insert` of internal/logger/db_handler.go, which writes the queued records to app_logs. json.Marshal
-- and the form in which PostgreSQL keeps a JSON text are arguments.
pub mod Laws
mod Tests
use disapyr_link.Common.{Bool, not, List, [], ◌∷◌, ◌++◌, Bytes, if◌then◌else◌, Option, none, some}
use disapyr_link.Model.{Result, ok}
use disapyr_link.Repository.{Db, LogRow, Call, settle}
use disapyr_link.Logger.Attrs.{Map}
use disapyr_link.Logger.Queue.{DbRecord}

pub record Json : Type 0 where
  pub marshal : Map → Option Bytes
  pub stored : Bytes → Bytes

-- `attrsJSON`: nothing without attributes, or if they cannot be encoded.
abbrev pub attrs_json : Json → Map → Option Bytes
attrs_json j [] = none
attrs_json j (a ∷ as') = j.marshal (a ∷ as')

abbrev pub kept_json : Json → Option Bytes → Option Bytes
kept_json j none = none
kept_json j (some text) = some (j.stored text)

-- The row that the INSERT writes; the id is the next of its sequence.
abbrev pub log_row : Json → Call → DbRecord → LogRow
log_row j c r = record {
  id = c.uuid;
  ts = c.stamp r.ts;
  level = r.level;
  msg = r.msg;
  attrs = kept_json j (attrs_json j r.attrs);
}

abbrev pub insert_log : Json → Call → DbRecord → Db → Db × Result (Unit {0})
insert_log j c r db = (record db { app_logs = db.app_logs ++ log_row j c r ∷ [] }, ok tt)

-- insert: with a pool or without; the error is dropped.
unfoldable pub insert : Bool → Json → Call → DbRecord → Db → Db
insert has_pool j c r db =
    if not has_pool then db else (settle c.verdict db (insert_log j c r db)).0

-- run, on the records that it receives, each with the call of its statement.
unfoldable pub insert_all : Bool → Json → List (Call × DbRecord) → Db → Db
unfolding insert
insert_all has_pool j [] db = db
insert_all has_pool j ((c, r) ∷ rs) db = insert_all has_pool j rs (insert has_pool j c r db)
