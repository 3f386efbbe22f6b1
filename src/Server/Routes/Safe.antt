-- ===== src/Server/Routes/Safe.antt =====
-- What a request with the method GET can change in the tables, through the routes of cmd/server/main.go.
use disapyr_link.Common.{
  ◌≡◌, refl, ◌∙◌, true, not, ◌&&◌, List, [], ◌∷◌, map, Bytes, same, sym, codes, Option, none, some,
  subst, if_ind,
}
use disapyr_link.Repository.{Db}
use disapyr_link.Http.{Request, World, Handler}
use disapyr_link.Handler.RateLimit.{Buckets, limit}
use disapyr_link.Handler.Admin.{basic_auth}
use disapyr_link.Server.Mux.{choose, segments_of}
use disapyr_link.Server.Routes.{
  Target, static_files, index, create, page, reveal, health, health_logs, clear, Deps, Turn,
  Limiters, handle, serve, routes,
}
use disapyr_link.Server.Routes.Spec.{get_target, target_of, is_get, choose-target}
use disapyr_link.Server.Routes.Reading.{
  KeepsDb, serve_index-KeepsDb, serve_page-KeepsDb, serve_health-KeepsDb, serve_health_logs-KeepsDb,
}
use disapyr_link.Server.Routes.Keeps.{route_of, basic_auth-Keeps, limit-Keeps, serve-Keeps}

-- The routes that only read.
abbrev IsReading : Target → Type 0
IsReading create = ⊥
IsReading reveal = ⊥
IsReading clear = ⊥
IsReading _ = Unit

abbrev AllReading : Option (Target × Bytes) → Type 0
AllReading none = Unit
AllReading (some (t, token)) = IsReading t

get_target-reading : (ss : List Bytes) → AllReading (get_target ss)
get_target-reading [] = tt
get_target-reading (a ∷ []) = if_ind AllReading (same (codes "health") a) (λ e. tt) (λ e. tt)
get_target-reading (a ∷ b ∷ []) =
    if_ind AllReading (same (codes "static") a) (λ e. tt)
      (λ e.
        if_ind AllReading (same (codes "s") a && not (same b [])) (λ f. tt)
          (λ f.
            if_ind AllReading (same (codes "health") a && same (codes "logs") b) (λ g. tt)
              (λ g. tt)))
get_target-reading (a ∷ b ∷ c ∷ ss) =
    if_ind AllReading (same (codes "static") a) (λ e. tt) (λ e. tt)

-- The tables stay as they are.
abbrev Stay : Db → Db → Type 0
Stay x y = y ≡ x

module _ (k : Buckets) (d : Deps) (e : Turn) (s : Limiters k) (files : KeepsDb d.files) where
  guarded-db :
      (next : Handler) (r : Request) (w : World)
      → KeepsDb next
      → (limit k d.unicode d.net e.clock s.for_health
          (basic_auth d.sha d.credentials d.admin_user d.admin_password next)
          r
          w).1.0.db
        ≡ w.db
  guarded-db next r w h =
      limit-Keeps Stay (λ db. refl) k d.unicode d.net e.clock s.for_health _ r w
        (basic_auth-Keeps Stay (λ db. refl) d.sha d.credentials d.admin_user d.admin_password next r
          w (λ a. h r w))

  handle-db :
      (t : Target) (r : Request) (w : World) → IsReading t → (handle k d e s t r w).1.0.db ≡ w.db
  unfolding handle
  handle-db static_files r w h = files r w
  handle-db index r w h = serve_index-KeepsDb d.pages d.max_bytes r w
  handle-db page r w h = serve_page-KeepsDb d.pages r w
  handle-db health r w h = guarded-db _ r w (serve_health-KeepsDb d.browser d.admin_pages e.checkup)
  handle-db health_logs r w h =
      guarded-db _ r w
        (serve_health_logs-KeepsDb d.browser d.query d.admin_pages e.count_call e.rows_call)
  handle-db create r w h = absurd h
  handle-db reveal r w h = absurd h
  handle-db clear r w h = absurd h

-- Behind a request with the method GET or HEAD no handler changes a table, whatever its path, its headers and
-- the answers of the environment, if the file server and the redirect change none. What is logged stands in
-- the world beside the tables.
pub serve-get_db :
    (k : Buckets) (d : Deps) (e : Turn) (s : Limiters k) (r : Request) (w : World)
    → KeepsDb d.files
    → KeepsDb d.moved
    → is_get r.method ≡ true
    → (serve k d e s r w).1.0.db ≡ w.db
unfolding route_of
serve-get_db k d e s r w files moved reading =
    let ss = map d.unescape (segments_of (d.escaped_path r)) in
    let found : target_of (choose routes r.method ss) ≡ get_target ss =
      choose-target r.method ss ∙ rw reading refl in
    serve-Keeps Stay (λ db. refl) k d e s r w moved
      (λ v t token h.
        handle-db k d e s files t (record r { token = token }) v
          (subst AllReading (sym found ∙ h) (get_target-reading ss)))
