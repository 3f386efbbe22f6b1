-- ===== src/Server/History.antt =====
-- The server of cmd/server/main.go over time: requests, the ticks of its worker, which deletes the
-- expired secrets, and those of the rate limiters of internal/handler/ratelimit.go, in any order. A
-- request happens as a whole here; each statement that it sends is one that PostgreSQL runs atomically.
pub mod Laws
pub mod Once
use disapyr_link.Common.{ℕ, ℤ, List, [], ◌∷◌, codes}
use disapyr_link.Model.{error_text, Result, ok, err}
use disapyr_link.Repository.{Db, Call, cleanup_expired}
use disapyr_link.Http.{Request, World, Exit, fresh_writer, log, warn}
use disapyr_link.Handler.RateLimit.{Buckets, cleanup}
use disapyr_link.Server.Routes.{Deps, Turn, Limiters, serve}

abbrev ticked_world : World → Db × Result ℕ → World
ticked_world w (db, ok n) = record w { db = db }
ticked_world w (db, err e) =
    log warn (codes "expired secret cleanup failed") ((codes "err", error_text e) ∷ [])
      (record w { db = db })

-- One tick of the worker.
unfoldable pub tick : Call → Call → World → World
unfolding cleanup_expired
tick c c' w = ticked_world w (cleanup_expired c c' w.db)

-- What can happen to the server.
pub data Occurrence : Type 0 where
  asked : Turn → Request → Occurrence
  ticked : Call → Call → Occurrence
  create_pruned reveal_pruned health_pruned : ℤ → Occurrence

module _ (k : Buckets) (d : Deps) where
  -- The rate limiters, and the tables with the log and the last response.
  pub record System : Type 0 where
    pub limiters : Limiters k
    pub world : World

  abbrev answered : Limiters k × (World × Exit) → System
  answered (s, (w, exit)) = record { limiters = s; world = w }

  unfoldable pub happen : Occurrence → System → System
  unfolding serve tick cleanup
  happen (asked e r) y = answered (serve k d e y.limiters r (record y.world { out = fresh_writer }))
  happen (ticked c c') y = record y { world = tick c c' y.world }
  happen (create_pruned now) y = record y {
    limiters = record y.limiters { for_create = cleanup k now y.limiters.for_create };
  }
  happen (reveal_pruned now) y = record y {
    limiters = record y.limiters { for_reveal = cleanup k now y.limiters.for_reveal };
  }
  happen (health_pruned now) y = record y {
    limiters = record y.limiters { for_health = cleanup k now y.limiters.for_health };
  }

  unfoldable pub happen_all : List Occurrence → System → System
  unfolding happen
  happen_all [] y = y
  happen_all (o ∷ os) y = happen_all os (happen o y)
