-- ===== src/Database/Tests.antt =====
-- A migration that fails, for the theorem about internal/db/db.go.
use disapyr_link.Common.{ℕ, ◌==◌, if◌then◌else◌, codes}
use disapyr_link.Model.{external, Result, ok, err}
use disapyr_link.Database.{connect}
use disapyr_link.Database.Laws.{Ends, connect-Ends}

-- The second migration fails.
abbrev exec : ℕ → Result (Unit {0})
exec n = if n == 2 then err (external (codes "syntax")) else ok tt

connect-Ends_example : Ends (ok tt) (ok tt) exec (connect (ok tt) (ok tt) exec)
connect-Ends_example = connect-Ends (ok tt) (ok tt) exec
