-- ===== src/Handler/Admin/Health/Tests.antt =====
-- A health page after one secret was stored and read, for the theorem about `ServeHealth` of
-- internal/handler/admin.go.
use disapyr_link.Common.{
  ℕ, ◌+◌, pos, ◌+ℤ◌, ◌*ℤ◌, wrap64, ◌≡◌, refl, List, [], ◌∷◌, ◌++◌, arith, Bytes, same, length,
  codes, none,
}
use disapyr_link.Model.{CreateSecretInput, errors_is}
use disapyr_link.Repository.{Db, Call, completed, store, fetch_and_delete, record_event, expiry}
use disapyr_link.Repository.Rows.{rows_with}
use disapyr_link.Repository.Invariant.{IsValid}
use disapyr_link.Repository.Trace.{Operation, put, take_out, apply, run}
use disapyr_link.Repository.Ledger.{total}
use disapyr_link.Http.{Request, World, fresh_writer}
use disapyr_link.Handler.Pages.{find_template}
use disapyr_link.Handler.Admin.Views.{
  answered, HealthData, health, Template, Templates, health_page,
}
use disapyr_link.Handler.Admin.Stats.Laws.{IsGroupingOf, AreSmall}
use disapyr_link.Handler.Admin.Health.{Browser, Checkup, healthy, serve_health}
use disapyr_link.Handler.Admin.Health.Laws.{serve_health-balanced}

abbrev clock_call : Call
clock_call = record {
  verdict = completed;
  now = pos 100;
  uuid = 1;
  violation = codes "dup";
  stamp = λ t. t;
}

abbrev browser : Browser
browser = record {
  ago = λ now interval. pos 10;
  order = λ c rows. rows;
  arrived = λ c. 0;
  unicode = record { lower = λ s. s; fold = λ s t. same s t; trim = λ s. s };
  pretty = λ s. none;
}

abbrev page : Template
page input = (codes "page", none)

abbrev pages : Templates
pages = (health_page, page) ∷ []

abbrev groups : List (Bytes × ℕ)
groups = (codes "created", 1) ∷ (codes "retrieved", 1) ∷ []

abbrev checkup : Checkup
checkup = record {
  go_version = codes "go1.24";
  uptime = 1;
  ping = healthy 2 1 4;
  summary = answered [] none;
  stats = answered groups none;
  count_call = clock_call;
  rows_call = clock_call;
}

abbrev request : Request
request = record {
  method = codes "GET";
  path = codes "/health";
  host = codes "localhost";
  remote_addr = codes "10.0.0.1";
  headers = [];
  body = [];
  token = [];
}

abbrev input : CreateSecretInput
input = record { ciphertext = 1 ∷ []; nonce = 3 ∷ []; expires_in = pos 2 }

abbrev history : List Operation
history =
    put (pos 50) clock_call clock_call (codes "ab") input
    ∷ take_out clock_call clock_call (codes "ab")
    ∷ []

abbrev empty_db : Db
empty_db = record { secrets = []; events = []; app_logs = [] }

abbrev world : World
world = record {
  db = record {
    secrets = [];
    events =
        record { event_type = codes "created"; count = 1 }
        ∷ record { event_type = codes "retrieved"; count = 1 }
        ∷ [];
    app_logs = [];
  };
  logs = [];
  out = fresh_writer;
}

empty_db-IsValid : IsValid empty_db
unfolding rows_with
empty_db-IsValid = record { unique = λ t. omega arith; known = tt }

reached : world.db ≡ run history empty_db
unfolding run apply fetch_and_delete same store expiry ◌+ℤ◌ wrap64 ◌*ℤ◌ record_event errors_is
reached = refl

small : AreSmall world.db.events
unfolding total same
small = record { created = omega arith; retrieved = omega arith; expired = omega arith }

grouped : IsGroupingOf groups world.db.events
unfolding total same
grouped = record { sums = (refl, (refl, tt)); covers = (refl, (refl, tt)) }

serve_health-balanced_example :
    (d : HealthData) × ((serve_health browser pages checkup request world).0.out.body
      ≡ world.out.body ++ (page (health d)).0)
    × (d.secrets.created ≡ d.secrets.retrieved + d.secrets.expired + length world.db.secrets)
unfolding find_template same total
serve_health-balanced_example =
    serve_health-balanced browser pages page checkup request world history empty_db groups refl refl
      ((tt, refl), ((tt, refl), tt)) empty_db-IsValid refl reached small grouped
