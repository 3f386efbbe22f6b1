-- ===== src/Database.antt =====
-- internal/db/db.go: `Connect` and `migrate`. What pgx answers is an argument: whether the pool can be
-- made, whether the ping passes, and what each migration gives.
pub mod Laws
mod Tests
use disapyr_link.Common.{ℕ, pos, Bool, true, false, List, [], ◌∷◌, ◌++◌, codes, Option, none, some}
use disapyr_link.Model.{Error, wrapped, Result, ok, err}
use disapyr_link.Encoding.Decimal.{itoa}

-- The embedded files of internal/db/migrations, by their numbers.
abbrev pub migrations : List ℕ
migrations = 1 ∷ 2 ∷ 3 ∷ []

-- A pool, and the migrations that the database has carried out for it.
pub record Pool : Type 0 where
  pub open_now : Bool
  pub migrated : List ℕ

abbrev pub close : Pool → Pool
close p = record p { open_now = false }

-- What the answer of the database to a migration says of the database.
abbrev pub migrated_to : Pool → ℕ → Result (Unit {0}) → Pool
migrated_to p n (ok _) = record p { migrated = p.migrated ++ n ∷ [] }
migrated_to p n (err e) = p

abbrev pub failed_at : ℕ → Error → Error
failed_at n e = wrapped (codes "migration " ++ itoa (pos n)) e

abbrev after_exec :
    ℕ → Pool → Result (Unit {0}) → Pool × Result (Unit {0}) → Pool × Result (Unit {0})
after_exec n p (ok _) rest = rest
after_exec n p (err e) rest = (p, err (failed_at n e))

-- The loop of migrate; its first error ends it.
unfoldable pub migrate_each : (ℕ → Result (Unit {0})) → List ℕ → Pool → Pool × Result (Unit {0})
migrate_each exec [] p = (p, ok tt)
migrate_each exec (n ∷ ns) p =
    after_exec n (migrated_to p n (exec n)) (exec n)
      (migrate_each exec ns (migrated_to p n (exec n)))

-- migrate
unfoldable pub migrate : (ℕ → Result (Unit {0})) → Pool → Pool × Result (Unit {0})
unfolding migrate_each
migrate exec p = migrate_each exec migrations p

abbrev pub after_migrate : Pool × Result (Unit {0}) → Option Pool × Result (Unit {0})
after_migrate (p, ok _) = (some p, ok tt)
after_migrate (p, err e) = (some (close p), err (wrapped (codes "migrate") e))

abbrev pub after_ping :
    (ℕ → Result (Unit {0})) → Pool → Result (Unit {0}) → Option Pool × Result (Unit {0})
after_ping exec p (ok _) = after_migrate (migrate exec p)
after_ping exec p (err e) = (some (close p), err (wrapped (codes "ping database") e))

-- Connect: the pool, if it was made, and the error or none.
unfoldable pub connect :
    Result (Unit {0})
    → Result (Unit {0})
    → (ℕ → Result (Unit {0}))
    → Option Pool × Result (Unit {0})
unfolding migrate
connect (ok _) ping exec = after_ping exec (record { open_now = true; migrated = [] }) ping
connect (err e) ping exec = (none, err (wrapped (codes "create pool") e))
