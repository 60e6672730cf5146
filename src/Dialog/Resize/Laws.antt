-- ===== src/Dialog/Resize/Laws.antt =====
-- The list that is shown behind `show_info` of chgres.c.
use chgres.Base.{ℕ, ◌≡◌, ◌⊎◌, false, List, [], ◌∷◌, ◌==◌, if◌then◌else◌}
use chgres.Mode.{Res}
use chgres.Nodes.{Cell}
use chgres.Nodes.Chain.{Chain}

-- The cells with another mode at `p`.
abbrev pub with_mode : ℕ → Res → List Cell → List Cell
with_mode p r [] = []
with_mode p r (c ∷ cs) = let rest = with_mode p r cs in if c.0 == p then (c.0, r) ∷ cs else c ∷ rest

-- The mode of the cell at `p`.
abbrev pub HoldsMode : ℕ → Res → List Cell → Type 0
HoldsMode p r [] = ⊥
HoldsMode p r (c ∷ cs) = ((c.0 ≡ p) × (c.1 ≡ r)) ⊎ ((c.0 == p) ≡ false × HoldsMode p r cs)
