-- ===== src/Logger/Queue/Tests.antt =====
-- Runs of the queue of internal/logger/db_handler.go.
use disapyr_link.Common.{pos, ◌≡◌, refl, true, [], ◌∷◌, codes}
use disapyr_link.Logger.Queue.{DbRecord, State, Reach, here, next, entering, start, stops}
use disapyr_link.Logger.Queue.Bounds.{IsValid, Reach-IsValid}
use disapyr_link.Logger.Queue.Race.{Reach-crashed}

abbrev rec : DbRecord
rec = record { ts = pos 7; level = codes "warn"; msg = codes "m"; attrs = [] }

Reach-IsValid_example : IsValid (record (start []) { stopped = true })
Reach-IsValid_example = Reach-IsValid [] (next here (stops refl refl))

Reach-crashed_example : (t : State) × Reach (start (entering rec ∷ [])) t × (t.crashed ≡ true)
Reach-crashed_example = Reach-crashed rec
