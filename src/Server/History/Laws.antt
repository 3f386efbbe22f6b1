-- ===== src/Server/History/Laws.antt =====
-- What stays in the tables over the time of the server of cmd/server/main.go.
use disapyr_link.Common.{ℕ, ◌≡◌, refl, ◌≢◌, true, List, [], ◌∷◌, sym, some, All, subst}
use disapyr_link.Model.{Secret, Result, ok, err}
use disapyr_link.Repository.{Db, cleanup_expired, live}
use disapyr_link.Repository.Rows.{In}
use disapyr_link.Repository.Invariant.{IsValid, cleanup_expired-IsValid}
use disapyr_link.Repository.Kept.{cleanup_expired-In}
use disapyr_link.Http.{World, fresh_writer}
use disapyr_link.Handler.RateLimit.{Buckets}
use disapyr_link.Server.Routes.{Deps, reveal}
use disapyr_link.Server.Routes.Keeps.{Keeps, route_of}
use disapyr_link.Server.Routes.Custody.{
  Holds, holds, serve-In, StaysValid, stays_valid, serve-IsValid,
}
use disapyr_link.Server.History.{
  ticked_world, tick, Occurrence, asked, ticked, create_pruned, reveal_pruned, health_pruned,
  System, happen, happen_all,
}

pub ticked_world-db : (w : World) (q : Db × Result ℕ) → (ticked_world w q).db ≡ q.0
ticked_world-db w (db, ok n) = refl
ticked_world-db w (db, err e) = refl

-- An occurrence that does not concern a secret: no request for its reveal route with its token, and no
-- tick of the worker when it is no longer live.
abbrev pub Spares : Deps → Secret → Occurrence → Type 0
Spares d x (asked e r) = route_of d r ≢ some (reveal, x.token)
Spares d x (ticked c c') = live c.now x.expires_at ≡ true
Spares d x _ = Unit

module _ (k : Buckets) (d : Deps) where
  module _ (x : Secret) (files : Keeps (Holds x) (holds x) d.files)
      (moved : Keeps (Holds x) (holds x) d.moved) where
    happen-In :
        (o : Occurrence) (y : System k d)
        → Spares d x o
        → In x y.world.db.secrets
        → In x (happen k d o y).world.db.secrets
    unfolding happen tick
    happen-In (asked e r) y spared h =
        serve-In k d e y.limiters r (record y.world { out = fresh_writer }) x files moved spared h
    happen-In (ticked c c') y spared h =
        subst (λ db. In x db.secrets)
          (sym (ticked_world-db y.world (cleanup_expired c c' y.world.db)))
          (cleanup_expired-In x c c' y.world.db spared h)
    happen-In (create_pruned now) y spared h = h
    happen-In (reveal_pruned now) y spared h = h
    happen-In (health_pruned now) y spared h = h

    -- A secret waits for its reader: through any history of requests, of ticks of the worker and of
    -- the limiters, whatever the environment answers, its row stays in the table, if no request goes to
    -- the reveal route with its token, each tick of the worker comes while it is live, and the file
    -- server and the redirect leave it there.
    pub happen_all-In :
        (os : List Occurrence) (y : System k d)
        → All (Spares d x) os
        → In x y.world.db.secrets
        → In x (happen_all k d os y).world.db.secrets
    unfolding happen_all
    happen_all-In [] y spared h = h
    happen_all-In (o ∷ os) y (spared, rest) h =
        happen_all-In os (happen k d o y) rest (happen-In o y spared h)

  module _ (files : Keeps StaysValid stays_valid d.files)
      (moved : Keeps StaysValid stays_valid d.moved) where
    happen-IsValid :
        (o : Occurrence) (y : System k d) → IsValid y.world.db → IsValid (happen k d o y).world.db
    unfolding happen tick
    happen-IsValid (asked e r) y v =
        serve-IsValid k d e y.limiters r (record y.world { out = fresh_writer }) files moved v
    happen-IsValid (ticked c c') y v =
        subst IsValid (sym (ticked_world-db y.world (cleanup_expired c c' y.world.db)))
          (cleanup_expired-IsValid c c' y.world.db v)
    happen-IsValid (create_pruned now) y v = v
    happen-IsValid (reveal_pruned now) y v = v
    happen-IsValid (health_pruned now) y v = v

    -- The tables are valid whatever happens to the server: from tables in which no token has two rows
    -- and every event is of a known kind, any history of requests and ticks leads to such tables, if
    -- the file server and the redirect keep them so.
    pub happen_all-IsValid :
        (os : List Occurrence) (y : System k d)
        → IsValid y.world.db
        → IsValid (happen_all k d os y).world.db
    unfolding happen_all
    happen_all-IsValid [] y v = v
    happen_all-IsValid (o ∷ os) y v = happen_all-IsValid os (happen k d o y) (happen-IsValid o y v)
