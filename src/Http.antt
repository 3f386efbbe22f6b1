-- ===== src/Http.antt =====
-- What the handlers of internal/handler use of net/http and log/slog: requests, the response writer,
-- `http.Error`, a log of records, and handlers that may panic.
pub mod Headers
use disapyr_link.Common.{
  ℕ, not, List, [], ◌∷◌, ◌++◌, Bytes, same, keep, if◌then◌else◌, codes, Option, none, some,
}
use disapyr_link.Repository.{Db}

abbrev pub Headers : Type 0
Headers = List (Bytes × Bytes)

-- `Header.Get`: empty if the key is missing.
unfoldable pub get_header : Bytes → Headers → Bytes
get_header key [] = []
get_header key ((k, v) ∷ hs) = if same k key then v else get_header key hs

-- `Header.Del`, then `Header.Set`, at keys in canonical form.
unfoldable pub del_header : Bytes → Headers → Headers
del_header key hs = keep (λ h. not (same h.0 key)) hs

unfoldable pub set_header : Bytes → Bytes → Headers → Headers
unfolding del_header
set_header key value hs = (key, value) ∷ del_header key hs

pub record Request : Type 0 where
  pub method : Bytes
  pub path : Bytes
  pub host : Bytes
  pub remote_addr : Bytes
  pub headers : Headers
  pub body : Bytes
  -- `r.PathValue("token")`
  pub token : Bytes

-- The headers that a handler may still set, the status and the headers that were sent, the body.
pub record Writer : Type 0 where
  pub headers : Headers
  pub sent : Option (ℕ × Headers)
  pub body : Bytes

-- `WriteHeader`: only the first call counts.
abbrev pub send : ℕ → Headers → Option (ℕ × Headers) → Option (ℕ × Headers)
send code hs none = some (code, hs)
send code hs (some first) = some first

unfoldable pub write_header : ℕ → Writer → Writer
write_header code w = record w { sent = send code w.headers w.sent }

-- `Write` sends the status 200 if none was sent.
unfoldable pub write : Bytes → Writer → Writer
unfolding write_header
write s w = record (write_header 200 w) { body = w.body ++ s }

-- `http.Error`.
unfoldable pub http_error : Bytes → ℕ → Writer → Writer
unfolding write write_header set_header del_header
http_error message code w = write (message ++ 10 ∷ []) (
    write_header code (record w {
      headers = set_header (codes "X-Content-Type-Options") (codes "nosniff") (
          set_header (codes "Content-Type") (codes "text/plain; charset=utf-8")
            (del_header (codes "Content-Length") w.headers));
    }))

pub data Level : Type 0 where
  debug info warn error : Level

pub record LogRecord : Type 0 where
  pub level : Level
  pub msg : Bytes
  pub attrs : List (Bytes × Bytes)

-- The state that a handler acts on. What it logs is collected in `logs`; the way from there to app_logs,
-- which the log handler and its writer take behind the request, is in Server/Serving.
pub record World : Type 0 where
  pub db : Db
  pub logs : List LogRecord
  pub out : Writer

abbrev pub log : Level → Bytes → List (Bytes × Bytes) → World → World
log level msg attrs w = record w {
  logs = w.logs ++ record { level = level; msg = msg; attrs = attrs } ∷ [];
}

abbrev pub respond : (Writer → Writer) → World → World
respond f w = record w { out = f w.out }

-- A handler returns, or panics with a value that is printed so.
pub data Exit : Type 0 where
  returned : Exit
  panicked : Bytes → Exit

abbrev pub Handler : Type 0
Handler = Request → World → World × Exit

-- A response to which nothing was written.
abbrev pub fresh_writer : Writer
fresh_writer = record { headers = []; sent = none; body = [] }

-- The status that the client sees, once the handler has returned.
abbrev pub status_of : Option (ℕ × Headers) → ℕ
status_of none = 200
status_of (some (code, _)) = code

abbrev pub status : World → ℕ
status w = status_of w.out.sent
