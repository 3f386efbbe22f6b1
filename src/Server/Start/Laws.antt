-- ===== src/Server/Start/Laws.antt =====
-- What the start of cmd/server/main.go has done when the server runs.
use disapyr_link.Common.{
  ℤ, pos, ◌≤ℤ◌, All, ◌≡◌, refl, ap, ◌∙◌, Bool, true, false, List, [], ◌∷◌, Bytes, same, sym, Option,
  some, subst,
}
use disapyr_link.Model.{Result, ok, err, ok-injective}
use disapyr_link.Http.{LogRecord}
use disapyr_link.Config.Load.{load}
use disapyr_link.Config.Load.Laws.{load-rates}
use disapyr_link.Database.{Pool, migrations, connect}
use disapyr_link.Database.Laws.{Ends, connected, no_pool, gave_up, stopped_at, connect-Ends}
use disapyr_link.Handler.Pages as Pages
use disapyr_link.Handler.Pages.{
  PageHandler, with_templates, new_handler, find_template, parse_pages, parse_templates, index_page,
  retrieve_page,
}
use disapyr_link.Handler.Admin.Views as Views
use disapyr_link.Handler.Admin.Views.{
  AdminHandler, with_admin_templates, new_admin_handler, parse_admin_templates, health_page,
  partial_page,
}
use disapyr_link.Handler.RateLimit.{Buckets, new_rate_limiter}
use disapyr_link.Server.Start.{
  Surroundings, Running, Start, prints, exits, runs, with_admin, with_handlers, with_pool,
  limiters_of, start,
}

-- A name has a template.
abbrev pub HasTemplate {ℓ} : {A : Type ℓ} → Bytes → List (Bytes × A) → Type ℓ
HasTemplate {A} name ts = (t : A) × (find_template name ts ≡ some t)

-- A server that is ready: the database answered the pool, the ping and every migration without an error, and
-- the pool is open; no page that a handler asks for is missing; and no rate is negative.
pub record IsReady (k : Buckets) (x : Surroundings) (s : Running k) : Type 0 where
  pub made : x.new_pool ≡ ok tt
  pub pinged : x.ping ≡ ok tt
  pub executed : All (λ m. x.exec m ≡ ok tt) migrations
  pub pool : (p : Pool) × (s.pool ≡ some p) × (p.open_now ≡ true) × (p.migrated ≡ migrations)
  pub index : HasTemplate index_page s.pages.templates
  pub retrieve : HasTemplate retrieve_page s.pages.templates
  pub health : HasTemplate health_page s.admin.templates
  pub partial : HasTemplate partial_page s.admin.templates
  pub create_rate : pos 0 ≤ℤ s.limiters.for_create.per_minute
  pub reveal_rate : pos 0 ≤ℤ s.limiters.for_reveal.per_minute
  pub health_rate : pos 0 ≤ℤ s.limiters.for_health.per_minute

parse_templates-has :
    (parse : Bytes → Result Pages.Template) {ts : Pages.Templates}
    → parse_templates parse ≡ ok ts
    → HasTemplate index_page ts × HasTemplate retrieve_page ts
unfolding parse_templates parse_pages find_template same
parse_templates-has parse {ts} h = go (parse index_page) (parse retrieve_page) refl refl
  where
    go :
        (p q : Result Pages.Template)
        → parse index_page ≡ p
        → parse retrieve_page ≡ q
        → HasTemplate index_page ts × HasTemplate retrieve_page ts
    go (ok a) (ok b) hp hq =
        let e : ts ≡ (index_page, a) ∷ (retrieve_page, b) ∷ [] =
          sym (ok-injective (sym (rw (hp, hq) refl) ∙ h)) in
        ((a, rw e refl), (b, rw e refl))
    go (ok a) (err e) hp hq = absurd (let k = rw (hp, hq) at h in cc)
    go (err e) q hp hq = absurd (let k = rw hp at h in cc)

parse_admin-has :
    (parse : Bytes → Result Views.Template) (partial : Result Views.Template) {ts : Views.Templates}
    → parse_admin_templates parse partial ≡ ok ts
    → HasTemplate health_page ts × HasTemplate partial_page ts
unfolding parse_admin_templates parse_pages find_template same
parse_admin-has parse partial {ts} h = go (parse health_page) partial refl refl
  where
    go :
        (p q : Result Views.Template)
        → parse health_page ≡ p
        → partial ≡ q
        → HasTemplate health_page ts × HasTemplate partial_page ts
    go (ok a) (ok b) hp hq =
        let e : ts ≡ (partial_page, b) ∷ (health_page, a) ∷ [] =
          sym (ok-injective (sym (rw (hp, hq) refl) ∙ h)) in
        ((a, rw e refl), (b, rw e refl))
    go (ok a) (err e) hp hq = absurd (let k = rw (hp, hq) at h in cc)
    go (err e) q hp hq = absurd (let k = rw hp at h in cc)

abbrev pub running_or : (k : Buckets) → Running k → Start k → Running k
running_or k s (prints _) = s
running_or k s (exits _ _ _) = s
running_or k s (runs _ t) = t

with_templates-ok :
    (max_bytes : ℤ) (out : Result Pages.Templates) {h : PageHandler}
    → with_templates max_bytes out ≡ ok h
    → out ≡ ok h.templates
with_templates-ok max_bytes (err e) h = absurd cc
with_templates-ok max_bytes (ok ts) h = ap ok (ap (λ a. a.templates) (ok-injective h))

new_handler-templates :
    (max_bytes : ℤ) (parse : Bytes → Result Pages.Template) {h : PageHandler}
    → new_handler max_bytes parse ≡ ok h
    → parse_templates parse ≡ ok h.templates
unfolding new_handler
new_handler-templates max_bytes parse e = with_templates-ok max_bytes (parse_templates parse) e

with_admin_templates-ok :
    (user password : Bytes) (start_time : ℤ) (out : Result Views.Templates) {h : AdminHandler}
    → with_admin_templates user password start_time out ≡ ok h
    → out ≡ ok h.templates
with_admin_templates-ok user password start_time (err e) h = absurd cc
with_admin_templates-ok user password start_time (ok ts) h =
    ap ok (ap (λ a. a.templates) (ok-injective h))

new_admin_handler-templates :
    (user password : Bytes) (start_time : ℤ) (parse : Bytes → Result Views.Template)
    (partial : Result Views.Template) {h : AdminHandler}
    → new_admin_handler user password start_time parse partial ≡ ok h
    → parse_admin_templates parse partial ≡ ok h.templates
unfolding new_admin_handler
new_admin_handler-templates user password start_time parse partial e =
    with_admin_templates-ok user password start_time (parse_admin_templates parse partial) e

-- The database answered the pool, the ping and the migrations without an error.
abbrev Answered : Surroundings → Type 0
Answered x = (x.new_pool ≡ ok tt) × (x.ping ≡ ok tt) × All (λ m. x.exec m ≡ ok tt) migrations

module _ (k : Buckets) (x : Surroundings) where
  with_admin-IsReady :
      (p : Pool) (pages : PageHandler) (out : Result AdminHandler) {logs : List LogRecord}
      {s : Running k}
      → Answered x
      → p.open_now ≡ true
      → p.migrated ≡ migrations
      → parse_templates x.parse_page ≡ ok pages.templates
      → new_admin_handler
          (load x.env).admin_user
          (load x.env).admin_password
          x.start_time
          x.parse_admin_page
          x.parse_partial
        ≡ out
      → with_admin k (load x.env) (some p) pages out ≡ runs logs s
      → IsReady k x s
  unfolding limiters_of new_rate_limiter running_or
  with_admin-IsReady p pages (err e) fine opened migrated hp ha h = absurd cc
  with_admin-IsReady p pages (ok admin) {logs} {s} fine opened migrated hp ha h =
      let (index, retrieve) = parse_templates-has x.parse_page hp in
      let (health, partial) = parse_admin-has x.parse_admin_page x.parse_partial (
        new_admin_handler-templates (load x.env).admin_user (load x.env).admin_password x.start_time
          x.parse_admin_page x.parse_partial ha) in
      let (create, reveal, check) = load-rates x.env in
      subst (IsReady k x) (ap (running_or k s) h) (record {
        made = fine.0;
        pinged = fine.1;
        executed = fine.2;
        pool = (p, refl, opened, migrated);
        index = index;
        retrieve = retrieve;
        health = health;
        partial = partial;
        create_rate = create;
        reveal_rate = reveal;
        health_rate = check;
      })

  with_handlers-IsReady :
      (p : Pool) (out : Result PageHandler) {logs : List LogRecord} {s : Running k}
      → Answered x
      → p.open_now ≡ true
      → p.migrated ≡ migrations
      → new_handler (load x.env).max_secret_bytes x.parse_page ≡ out
      → with_handlers k x (load x.env) (some p) out ≡ runs logs s
      → IsReady k x s
  with_handlers-IsReady p (err e) fine opened migrated hp h = absurd cc
  with_handlers-IsReady p (ok pages) fine opened migrated hp h =
      with_admin-IsReady p pages _ fine opened migrated
        (new_handler-templates (load x.env).max_secret_bytes x.parse_page hp) refl h

  with_pool-IsReady :
      (out : Option Pool × Result (Unit {0})) {logs : List LogRecord} {s : Running k}
      → Ends x.new_pool x.ping x.exec out
      → with_pool k x (load x.env) out ≡ runs logs s
      → IsReady k x s
  with_pool-IsReady _ (connected p opened migrated made pinged executed) h =
      with_handlers-IsReady p (new_handler (load x.env).max_secret_bytes x.parse_page)
        (made, pinged, executed) opened migrated refl h
  with_pool-IsReady _ (no_pool e cause) h = absurd cc
  with_pool-IsReady _ (gave_up p e closed none_sent cause) h = absurd cc
  with_pool-IsReady _ (stopped_at p before after n cause closed split sent pinged fine bad) h =
      absurd cc

-- The server listens only when it is ready: whatever the environment is and whatever the database and the
-- templates answer, a start that ends with a running server has got no error for the pool, the ping and
-- each of the three migrations; the pool is open and the migrations were carried out in their order; the
-- templates of the four pages are there; and the three rates are not negative.
pub start-IsReady :
    (k : Buckets) (x : Surroundings) (print_config : Bool) {logs : List LogRecord} {s : Running k}
    → start k x print_config ≡ runs logs s
    → IsReady k x s
unfolding start
start-IsReady k x true h = absurd cc
start-IsReady k x false h =
    with_pool-IsReady k x (connect x.new_pool x.ping x.exec) (connect-Ends x.new_pool x.ping x.exec)
      h
