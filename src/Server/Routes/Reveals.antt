-- ===== src/Server/Routes/Reveals.antt =====
-- What an answer with the status 200 of the reveal route costs, behind the middleware, the mux and the
-- limiter of cmd/server/main.go: a row with the token of the path.
use disapyr_link.Common.{◌+◌, ◌≤◌, ◌≡◌, ap, arith, Bytes, sym, none, some, subst, if_ind}
use disapyr_link.Model.{Secret, not_found, errors_is, Result, ok, err}
use disapyr_link.Repository.{Db, Call, fetch_and_delete}
use disapyr_link.Repository.Rows.{rows_with}
use disapyr_link.Repository.Fetch.{rows_with-fetch_ok}
use disapyr_link.Service.{retrieve}
use disapyr_link.Http.{Request, World, returned, status, write, write_header, http_error}
use disapyr_link.Handler.RateLimit.{Buckets}
use disapyr_link.Handler.Secrets.{Answers, reveal_secret, shown}
use disapyr_link.Server.Routes.{Target, reveal, Deps, Turn, Limiters, handle, serve}
use disapyr_link.Server.Routes.Keeps.{route_of}
use disapyr_link.Server.Routes.Success.{Redirects, Grants, limit-Grants, serve-Grants}

-- A row with the token has been used up.
abbrev Paid : Bytes → Db → Db → Type 0
Paid t a b = rows_with t b.secrets + 1 ≤ rows_with t a.secrets

module _ (t : Bytes) where
  shown-Grants :
      (c c' : Call) (w : World) (q : Db × Result Secret)
      → w.out.sent ≡ none
      → fetch_and_delete c c' w.db t ≡ q
      → Grants (Paid t w.db) (shown w q, returned)
  unfolding http_error write write_header
  shown-Grants c c' w (db, ok s) fresh e = λ h.
      subst (λ (p : Db × Result Secret). Paid t w.db p.0) e
        (rows_with-fetch_ok c c' w.db t {s = s} (ap (λ p. p.1) e))
  shown-Grants c c' w (db, err x) fresh e =
      if_ind (λ (v : World). status v ≡ 200 → Paid t w.db v.db) (errors_is x not_found)
        (λ h. rw fresh (λ k. ground arith)) (λ h. rw fresh (λ k. ground arith))

  reveal_secret-Grants :
      (a : Answers) (r : Request) (w : World)
      → w.out.sent ≡ none
      → r.token ≡ t
      → Grants (Paid t w.db) (reveal_secret a r w)
  unfolding reveal_secret retrieve
  reveal_secret-Grants a r w fresh named =
      shown-Grants a.main_call a.event_call w
        (fetch_and_delete a.main_call a.event_call w.db r.token) fresh
        (ap (fetch_and_delete a.main_call a.event_call w.db) (sym named))

  module _ (k : Buckets) (d : Deps) (e : Turn) (s : Limiters k) where
    handle-Paid :
        (x : Target) (token : Bytes) (r : Request) (v : World)
        → v.out.sent ≡ none
        → x ≡ reveal
        → token ≡ t
        → Grants (Paid t v.db) (handle k d e s x (record r { token = token }) v).1
    unfolding handle
    handle-Paid x token r v clear is_reveal named =
        subst (λ y. Grants (Paid t v.db) (handle k d e s y (record r { token = token }) v).1)
          (sym is_reveal)
          (limit-Grants (Paid t v.db) k d.unicode d.net e.clock s.for_reveal
            (reveal_secret e.answers) (record r { token = token }) v clear
            (reveal_secret-Grants e.answers (record r { token = token }) v clear named))

    -- An answer with the status 200 to a request for the reveal route has used up a row with the token.
    pub serve-status :
        (r : Request) (w : World)
        → w.out.sent ≡ none
        → Redirects d.moved
        → route_of d r ≡ some (reveal, t)
        → status (serve k d e s r w).1.0 ≡ 200
        → rows_with t (serve k d e s r w).1.0.db.secrets + 1 ≤ rows_with t w.db.secrets
    serve-status r w fresh moved found =
        serve-Grants (Paid t w.db) k d e s r w fresh moved (λ v x token clear same_db h.
          rw (sym same_db) (handle-Paid x token r v clear (ground arith) (ground arith)))
