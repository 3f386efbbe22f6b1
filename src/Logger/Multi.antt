-- ===== src/Logger/Multi.antt =====
-- `MultiHandler` of internal/logger/multi_handler.go. The handlers below it are arguments: each says for
-- which levels it is enabled, and acts on a state with a record, with or without an error.
use disapyr_link.Common.{
  ℤ, ◌≡◌, refl, inl, inr, Bool, true, false, List, [], ◌∷◌, map, if◌then◌else◌, Bool-cases, Option,
  some,
}
use disapyr_link.Model.{Error}

module _ (W R : Type 0) where
  pub record SlogHandler : Type 0 where
    pub enabled : ℤ → Bool
    pub handle : R → W → W × Option Error

  -- Enabled
  unfoldable pub multi_enabled : List SlogHandler → ℤ → Bool
  multi_enabled [] level = false
  multi_enabled (h ∷ hs) level = if h.enabled level then true else multi_enabled hs level

  -- Handle: the errors are dropped.
  unfoldable pub multi_handle : List SlogHandler → ℤ → R → W → W
  multi_handle [] level r w = w
  multi_handle (h ∷ hs) level r w =
      multi_handle hs level r (if h.enabled level then (h.handle r w).0 else w)

  -- WithAttrs and WithGroup map what they do over the handlers.
  unfoldable pub multi_with : (SlogHandler → SlogHandler) → List SlogHandler → List SlogHandler
  multi_with f hs = map f hs

  -- A record that no handler is enabled for goes nowhere.
  pub multi_handle-disabled :
      (hs : List SlogHandler) (level : ℤ) (r : R) (w : W)
      → multi_enabled hs level ≡ false
      → multi_handle hs level r w ≡ w
  unfolding multi_enabled multi_handle
  multi_handle-disabled [] level r w h = refl
  multi_handle-disabled (g ∷ hs) level r w h = elim (Bool-cases (g.enabled level)) [
    | inl e ↦ let q = rw e at h in cc
    | inr e ↦ rw e (multi_handle-disabled hs level r w (rw e at h))
  ]

  -- The same handler, but always failing.
  abbrev pub failing : Error → SlogHandler → SlogHandler
  failing e h = record h { handle = λ r w. ((h.handle r w).0, some e) }

  -- A failing handler silences no other: with every handler failing behind its work, the record goes
  -- to the same handlers with the same effect.
  pub multi_handle-failing :
      (e : Error) (hs : List SlogHandler) (level : ℤ) (r : R) (w : W)
      → multi_handle (multi_with (failing e) hs) level r w ≡ multi_handle hs level r w
  unfolding multi_handle multi_with
  multi_handle-failing e [] level r w = refl
  multi_handle-failing e (g ∷ hs) level r w =
      multi_handle-failing e hs level r (if g.enabled level then (g.handle r w).0 else w)
