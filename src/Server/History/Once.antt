-- ===== src/Server/History/Once.antt =====
-- How often the server of cmd/server/main.go answers with a secret over its time.
use disapyr_link.Common.{
  ℕ, ◌+◌, ◌≤◌, ◌≡◌, refl, ap, inl, inr, Bool, true, false, ◌&&◌, List, [], ◌∷◌, ◌==◌, arith, Bytes,
  same, same_iff, if◌then◌else◌, Bool-cases, Option, none, some,
}
use disapyr_link.Model.{CreateSecretInput, Result, ok, err}
use disapyr_link.Repository.{Db, cleanup_expired, store}
use disapyr_link.Repository.Rows.{rows_with}
use disapyr_link.Repository.Fetch.{rows_with-fetch}
use disapyr_link.Repository.Cleanup.{rows_with-cleanup}
use disapyr_link.Repository.Trace.{rows_with-put}
use disapyr_link.Service.{generate_token}
use disapyr_link.Http.{Request, World, fresh_writer, status}
use disapyr_link.Handler.RateLimit.{Buckets}
use disapyr_link.Handler.Admin.Clear.Laws.{clear_logs_ind}
use disapyr_link.Server.Routes.{
  Target, static_files, index, create, page, reveal, health, health_logs, clear, Deps, Turn,
  Limiters, serve,
}
use disapyr_link.Server.Routes.Reading.{KeepsDb}
use disapyr_link.Server.Routes.Keeps.{related, route_of, serve-Keeps}
use disapyr_link.Server.Routes.Handled.{handle-Keeps}
use disapyr_link.Server.Routes.Success.{Redirects}
use disapyr_link.Server.Routes.Reveals.{serve-status}
use disapyr_link.Server.History.{
  tick, Occurrence, asked, ticked, create_pruned, reveal_pruned, health_pruned, System, happen,
  happen_all,
}
use disapyr_link.Server.History.Laws.{ticked_world-db}

-- The reveal route, with a token.
abbrev pub is_reveal : Bytes → Option (Target × Bytes) → Bool
is_reveal t none = false
is_reveal t (some (reveal, u)) = same u t
is_reveal t (some (static_files, u)) = false
is_reveal t (some (index, u)) = false
is_reveal t (some (create, u)) = false
is_reveal t (some (page, u)) = false
is_reveal t (some (health, u)) = false
is_reveal t (some (health_logs, u)) = false
is_reveal t (some (clear, u)) = false

is_reveal-true :
    (t : Bytes) (q : Option (Target × Bytes)) → is_reveal t q ≡ true → q ≡ some (reveal, t)
is_reveal-true t none h = cc
is_reveal-true t (some (reveal, u)) h = ap (λ v. some (reveal, v)) ((same_iff u t).0 h)
is_reveal-true t (some (static_files, u)) h = cc
is_reveal-true t (some (index, u)) h = cc
is_reveal-true t (some (create, u)) h = cc
is_reveal-true t (some (page, u)) h = cc
is_reveal-true t (some (health, u)) h = cc
is_reveal-true t (some (health_logs, u)) h = cc
is_reveal-true t (some (clear, u)) h = cc

-- 1 for random bytes whose token is this one.
abbrev pub draws_it : Bytes → Result Bytes → ℕ
draws_it t (ok u) = if same u t then 1 else 0
draws_it t (err e) = 0

abbrev pub draw : Bytes → Occurrence → ℕ
draw t (asked e r) = draws_it t (generate_token e.answers.random)
draw t _ = 0

-- How often the random bytes of a history give a token.
unfoldable pub draws : Bytes → List Occurrence → ℕ
draws t [] = 0
draws t (o ∷ os) = draw t o + draws t os

-- The rows with a token grow by no more than a number.
abbrev Grows : Bytes → ℕ → Db → Db → Type 0
Grows t n a b = rows_with t b.secrets ≤ rows_with t a.secrets + n

grows : (t : Bytes) (n : ℕ) (db : Db) → Grows t n db db
grows t n db = omega arith

module _ (k : Buckets) (d : Deps) (t : Bytes) (files : KeepsDb d.files)
    (moved : KeepsDb d.moved) where
  store-Grows :
      (e : Turn) (db : Db) (u : Bytes) (input : CreateSecretInput)
      → generate_token e.answers.random ≡ ok u
      → Grows t
          (draws_it t (generate_token e.answers.random))
          db
          (store e.answers.now e.answers.main_call e.answers.event_call db u input).0
  store-Grows e db u input drawn =
      rw drawn (rows_with-put t e.answers.now e.answers.main_call e.answers.event_call db u input)

  serve-Grows :
      (e : Turn) (s : Limiters k) (r : Request) (w : World)
      → Grows t (draws_it t (generate_token e.answers.random)) w.db (serve k d e s r w).1.0.db
  serve-Grows e s r w =
      let n = draws_it t (generate_token e.answers.random) in
      serve-Keeps (Grows t n) (grows t n) k d e s r w
        (λ r' w'. related (Grows t n) (grows t n) (moved r' w'))
        (λ v x token h.
          handle-Keeps (Grows t n) (grows t n) k d e s x (record r { token = token }) v
            (λ r' w'. related (Grows t n) (grows t n) (files r' w'))
            (λ u input drawn. store-Grows e v.db u input drawn)
            (λ is_reveal.
              omega (arith, rows_with-fetch e.answers.main_call e.answers.event_call v.db token t))
            (λ a.
              clear_logs_ind (Grows t n v.db) d.browser d.url_host d.form d.admin_pages
                e.delete_call e.count_call e.rows_call _ v (grows t n v.db)
                (λ rows. grows t n v.db)))

module _ (k : Buckets) (d : Deps) (t : Bytes) where
  -- 1 for a request to the reveal route with the token that is answered with the status 200.
  abbrev pub answer : Occurrence → System k d → ℕ
  answer (asked e r) y = if is_reveal t (route_of d r) && status y.world == 200 then 1 else 0
  answer _ y = 0

  -- How often a history answers so.
  unfoldable pub answers : List Occurrence → System k d → ℕ
  answers [] y = 0
  answers (o ∷ os) y = answer o (happen k d o y) + answers os (happen k d o y)

  module _ (files : KeepsDb d.files) (moved : KeepsDb d.moved) (redirects : Redirects d.moved) where
    asked-rows :
        (e : Turn) (r : Request) (y : System k d)
        → answer (asked e r) (happen k d (asked e r) y)
            + rows_with t (happen k d (asked e r) y).world.db.secrets
          ≤ rows_with t y.world.db.secrets + draw t (asked e r)
    unfolding happen
    asked-rows e r y =
        let w = record y.world { out = fresh_writer } in
        let w' = (serve k d e y.limiters r w).1.0 in
        elim (Bool-cases (is_reveal t (route_of d r) && status w' == 200)) [
          | inl h ↦
              let named : route_of d r ≡ some (reveal, t) =
                is_reveal-true t (route_of d r) (ground arith) in
              let good : status w' ≡ 200 = ground arith in
              rw h (omega (arith, serve-status t k d e y.limiters r w refl redirects named good))
          | inr h ↦ rw h (omega (arith, serve-Grows k d t files moved e y.limiters r w))
        ]

    happen-rows :
        (o : Occurrence) (y : System k d)
        → answer o (happen k d o y) + rows_with t (happen k d o y).world.db.secrets
          ≤ rows_with t y.world.db.secrets + draw t o
    unfolding happen tick
    happen-rows (asked e r) y = asked-rows e r y
    happen-rows (ticked c c') y = omega (
      arith,
      ap (λ (db : Db). rows_with t db.secrets)
          (ticked_world-db y.world (cleanup_expired c c' y.world.db)),
      rows_with-cleanup c c' y.world.db t,
    )
    happen-rows (create_pruned now) y = omega arith
    happen-rows (reveal_pruned now) y = omega arith
    happen-rows (health_pruned now) y = omega arith

    answers-le-draws :
        (os : List Occurrence) (y : System k d)
        → answers os y + rows_with t (happen_all k d os y).world.db.secrets
          ≤ rows_with t y.world.db.secrets + draws t os
    unfolding answers happen_all draws
    answers-le-draws [] y = omega arith
    answers-le-draws (o ∷ os) y =
        omega (arith, happen-rows o y, answers-le-draws os (happen k d o y))

    -- A link is answered once: through any history of requests and ticks, whatever the paths, the
    -- headers, the clocks and the answers of the database, at most one request to the reveal route with
    -- a token gets the status 200, if no row bears the token at the start and the random bytes give it
    -- at most once, where the file server and the redirect touch no table and the redirect does not
    -- answer with the status 200.
    pub answers-le-one :
        (os : List Occurrence) (y : System k d)
        → rows_with t y.world.db.secrets ≡ 0
        → draws t os ≤ 1
        → answers os y ≤ 1
    answers-le-one os y fresh once = omega (arith, answers-le-draws os y)
