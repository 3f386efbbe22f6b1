-- ===== src/Handler/Admin/Tests.antt =====
-- Requests for the theorems about internal/handler/admin.go.
use disapyr_link.Common.{
  ◌≡◌, refl, inl, false, [], ◌∷◌, Bytes, same, codes, Option, some, lower_ascii,
}
use disapyr_link.Strings.{Unicode, equal_fold}
use disapyr_link.Http.{Request, World, Handler, get_header, fresh_writer, returned}
use disapyr_link.Handler.Admin.{UrlHost, same_origin, format_uptime}
use disapyr_link.Handler.Admin.Guards.{same_origin-foreign}

abbrev tables : Unicode
tables = record { lower = λ s. s; fold = λ s t. same s t; trim = λ s. s }

abbrev credentials : Request → Option (Bytes × Bytes)
credentials r = some (codes "root", codes "guess")

-- The host of every URL is the whole text.
abbrev host_of : Bytes → Option UrlHost
host_of s = some (record { host = s; hostname = s })

abbrev request : Request
request = record {
  method = codes "POST";
  path = codes "/health/logs/clear";
  host = codes "localhost";
  remote_addr = codes "10.0.0.1";
  headers = (codes "Origin", codes "evil.example") ∷ [];
  body = [];
  token = [];
}

abbrev world : World
world = record {
  db = record { secrets = []; events = []; app_logs = [] };
  logs = [];
  out = fresh_writer;
}

abbrev quiet : Handler
quiet r w = (w, returned)

same_origin-foreign_example : same_origin tables host_of request ≡ false
unfolding get_header same equal_fold lower_ascii
same_origin-foreign_example =
    same_origin-foreign tables host_of request (codes "evil.example") (λ h. cc) (inl refl) foreign
  where
    foreign :
        (url : UrlHost)
        → host_of (codes "evil.example") ≡ some url
        → (equal_fold tables url.host request.host ≡ false)
          × (equal_fold tables url.hostname request.host ≡ false)
    foreign url h =
        let same_url : record { host = codes "evil.example"; hostname = codes "evil.example" }
            ≡ url =
          cc in
        rw (← same_url) (refl, refl)

uptime_text : format_uptime 90061000000000 ≡ codes "1d 1h 1m"
unfolding format_uptime
uptime_text = refl
