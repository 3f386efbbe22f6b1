-- ===== src/Server/Serving/Opening.antt =====
-- What the server that cmd/server/main.go starts answers to the one who opens the link to a secret.
use disapyr_link.Common.{
  ℕ, ◌≡◌, refl, ap, ◌∙◌, false, List, [], ◌∷◌, ◌++◌, Bytes, codes, Option, none, some, sym, subst,
}
use disapyr_link.Model.{Error, ok, ok-injective}
use disapyr_link.Encoding.Hex
use disapyr_link.Encoding.Hex.{AreBytes}
use disapyr_link.Service.{generate_token}
use disapyr_link.Http.{LogRecord, Request, World, returned, status, write, write_header}
use disapyr_link.Handler.Probe.{is_probe_request}
use disapyr_link.Handler.Probe.Links.{is_probe_request-link}
use disapyr_link.Handler.Mask.{mask_token_in_path}
use disapyr_link.Handler.Middleware.{before_next}
use disapyr_link.Handler.Pages as Pages
use disapyr_link.Handler.Pages.{Data, find_template, rendered, render, serve_page, retrieve_page}
use disapyr_link.Handler.RateLimit.{Buckets}
use disapyr_link.Server.Routes.{get, Deps, Turn, Limiters, handle, serve_mux, serve}
use disapyr_link.Server.Routes.Link.{KeepsPlain, IsToken, encode-IsToken, page_path, serve_mux-page}
use disapyr_link.Server.Routes.Life.{middleware-returned}
use disapyr_link.Server.Start.{Surroundings, Running, runs, start}
use disapyr_link.Server.Start.Laws.{start-IsReady}
use disapyr_link.Server.Serving.Logged.{IsLogged, serve_running-IsLogged}
use disapyr_link.Server.Serving.{Outside, Fate, deps_of, serve_running}

-- The answer is the page of a template, and no handler changed a table.
abbrev ShowsPage : Pages.Template → Data → World → World → Type 0
ShowsPage t input w v = (status v ≡ 200) × (v.out.body ≡ w.out.body ++ (t input).0) × (v.db ≡ w.db)

rendered-ShowsPage :
    (name : Bytes) (t : Pages.Template) (input : Data) (w v : World)
    → v.out.sent ≡ none
    → v.out.body ≡ w.out.body
    → v.db ≡ w.db
    → ShowsPage t input w (rendered name (some t) input v)
unfolding write write_header
rendered-ShowsPage name t input w v fresh body db = go (t input).1 refl
  where
    go : (f : Option Error) → (t input).1 ≡ f → ShowsPage t input w (rendered name (some t) input v)
    go none h = rw (h, fresh) (refl, ap (λ b. b ++ (t input).0) body, db)
    go (some e) h = rw (h, fresh) (refl, ap (λ b. b ++ (t input).0) body, db)

serve-page :
    (k : Buckets) (d : Deps) (e : Turn) (s : Limiters k) (t : Bytes) (r : Request) (w : World)
    (p : Pages.Template)
    → is_probe_request d.unicode (page_path t) ≡ false
    → IsToken t
    → KeepsPlain d.unescape
    → r.path ≡ page_path t
    → d.escaped_path r ≡ page_path t
    → r.method ≡ get
    → w.out.sent ≡ none
    → find_template retrieve_page d.pages ≡ some p
    → ShowsPage p ((codes "Token", t) ∷ []) w (serve k d e s r w).1.0
unfolding serve handle serve_page render
serve-page k d e s t r w p passes v keeps path escaped method fresh found =
    let w' = before_next (mask_token_in_path r.path) r w in
    subst (ShowsPage p ((codes "Token", t) ∷ []) w)
      (sym (
        middleware-returned d.unicode (λ q y. (serve_mux k d e s q y).1) r w _
          (ap (is_probe_request d.unicode) path ∙ passes)
          (ap (λ y. y.1) (serve_mux-page k d e s t r w' v keeps escaped method)
            ∙ ap (λ y. (rendered retrieve_page y ((codes "Token", t) ∷ []) w', returned)) found)))
      (rendered-ShowsPage retrieve_page p ((codes "Token", t) ∷ []) w w' fresh refl refl)

-- The answer is the page of a template, and of the tables only app_logs has more rows.
abbrev pub OpensPage : Pages.Template → Data → World → World → Type 0
OpensPage t input w v =
    (status v ≡ 200) × (v.out.body ≡ w.out.body ++ (t input).0) × IsLogged w.db v.db

-- A link opens: when the server has started, a GET request for "/s/" and a token that generateToken made
-- from at least one byte is answered with the status 200 and what the template of the page writes for this
-- token, and when the writer of the log has caught up, the tables are as before but for rows added behind
-- those of app_logs; whatever else stands in the request, the tables and the limiters, if nothing was sent
-- before, the path has no escapes, and what has no percent sign is left as it is when it is unescaped.
pub serve_running-page :
    (k : Buckets) (x : Surroundings) (o : Outside) {logs : List LogRecord} {s : Running k}
    → start k x false ≡ runs logs s
    → KeepsPlain o.unescape
    → (b : ℕ) (bs t : Bytes) (e : Turn) (fates : ℕ → Fate) (l : Limiters k) (r : Request)
      (w : World)
    → AreBytes (b ∷ bs)
    → generate_token (ok (b ∷ bs)) ≡ ok t
    → r.path ≡ page_path t
    → o.escaped_path r ≡ page_path t
    → r.method ≡ get
    → w.out.sent ≡ none
    → (p : Pages.Template) × (find_template retrieve_page s.pages.templates ≡ some p)
      × OpensPage p ((codes "Token", t) ∷ []) w (serve_running k o s e fates l r w).1.0
unfolding serve_running deps_of generate_token
serve_running-page k x o {logs} {s} h keeps b bs t e fates l r w bytes made path escaped method
      fresh =
    let named : Hex.encode (b ∷ bs) ≡ t = ok-injective made in
    let v : IsToken t = subst IsToken named (encode-IsToken b bs bytes) in
    let passes : is_probe_request o.unicode (page_path t) ≡ false =
      ap (λ u. is_probe_request o.unicode (page_path u)) (sym named)
      ∙ (is_probe_request-link o.unicode (b ∷ bs) bytes).0 in
    let (p, found) = (start-IsReady k x false h).retrieve in
    let (good, body, same_db) =
      serve-page k (deps_of k o s) e l t r (record w { logs = [] }) p passes v keeps path escaped
        method fresh found in
    (p, found, (good, body, serve_running-IsLogged k o s e fates l r w same_db))
