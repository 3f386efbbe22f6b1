-- ===== src/Logger/Queue/Race.antt =====
-- The race of `Handle` and `Stop` of internal/logger/db_handler.go.
use disapyr_link.Common.{◌≡◌, refl, true, [], ◌∷◌}
use disapyr_link.Logger.Queue.{
  DbRecord, entering, building, sending, finished, State, look, send, first_look, second_look,
  sends, stops, closes, Reach, here, next, start,
}

-- A call of Handle that has looked at the flag twice can find the channel closed when it sends: for
-- every record there is an order of the steps of one Handle and one Stop in which the send panics.
pub Reach-crashed :
    (r : DbRecord) → (t : State) × Reach (start (entering r ∷ [])) t × (t.crashed ≡ true)
unfolding look send
Reach-crashed r =
    let s₁ = record (start (entering r ∷ [])) { calls = building r ∷ [] } in
    let s₂ = record s₁ { calls = sending r ∷ [] } in
    let s₃ = record s₂ { stopped = true } in
    let s₄ = record s₃ { closed = true } in
    let s₅ = record s₄ { crashed = true; calls = finished ∷ [] } in
    (
      s₅,
      next
          (next
            (next (next (next here (first_look [] [] r refl refl)) (second_look [] [] r refl refl))
              (stops refl refl))
            (closes refl refl refl))
          (sends [] [] r refl refl),
      refl,
    )
