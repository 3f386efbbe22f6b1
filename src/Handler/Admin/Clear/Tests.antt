-- ===== src/Handler/Admin/Clear/Tests.antt =====
-- Clearings of a small table, for the theorem about `ClearLogs` of internal/handler/admin.go.
use disapyr_link.Common.{ℤ, pos, refl, [], ◌∷◌, Bytes, same, codes, Option, none, some}
use disapyr_link.Repository.{LogRow, Call, completed}
use disapyr_link.Http.{Request, World, fresh_writer}
use disapyr_link.Handler.Admin.{UrlHost}
use disapyr_link.Handler.Admin.Health.{Browser}
use disapyr_link.Handler.Admin.Clear.{clear_logs}
use disapyr_link.Handler.Admin.Clear.Laws.{IsCleared, clear_logs-IsCleared}

abbrev clock_call : Call
clock_call = record {
  verdict = completed;
  now = pos 100;
  uuid = 1;
  violation = codes "dup";
  stamp = λ t. t;
}

abbrev browser : Browser
browser = record {
  ago = λ now interval. pos 10;
  order = λ c rows. rows;
  arrived = λ c. 0;
  unicode = record { lower = λ s. s; fold = λ s t. same s t; trim = λ s. s };
  pretty = λ s. none;
}

abbrev host_of : Bytes → Option UrlHost
host_of s = some (record { host = s; hostname = s })

abbrev form : Request → Bytes → Bytes
form r key = codes "1h"

abbrev request : Bytes → Request
request origin = record {
  method = codes "POST";
  path = codes "/health/logs/clear";
  host = codes "localhost";
  remote_addr = codes "10.0.0.1";
  headers = (codes "Origin", origin) ∷ [];
  body = [];
  token = [];
}

abbrev row : ℤ → LogRow
row t = record { id = 1; ts = t; level = codes "WARN"; msg = codes "m"; attrs = none }

abbrev world : World
world = record {
  db = record { secrets = []; events = []; app_logs = row (pos 5) ∷ row (pos 15) ∷ [] };
  logs = [];
  out = fresh_writer;
}

clear_logs-IsCleared_example :
    IsCleared browser clock_call
      (codes "1h")
      world.db
      (clear_logs browser host_of form [] clock_call clock_call clock_call
        (request (codes "localhost"))
        world).0.db
clear_logs-IsCleared_example =
    clear_logs-IsCleared browser host_of form [] clock_call clock_call clock_call
      (request (codes "localhost")) world (codes "1h") refl (λ h. cc)
