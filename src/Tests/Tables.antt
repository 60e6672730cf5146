-- ===== src/Tests/Tables.antt =====
-- Runs on tables of modes.
use chgres.Base.{◌≡◌, refl, Bool, true, [], ◌∷◌, arith, Bytes, drop}
use chgres.Base.Int.{pos}
use chgres.CLib.{codes}
use chgres.Mode.{modes_at, Modes, no_modes}
use chgres.Mode.Table.{valid_planes, falcon_planes, ArePlaced, AllDistinct, Offers}
use chgres.Resolution.{
  saga_depths, saga_resolutions, saga_loop, initres_st, initres_tt, initres_falc, initres_saga, vga,
  color,
}
use chgres.Resolution.Placed.{initres-ArePlaced, initres_falc-ArePlaced}
use chgres.Resolution.Saga.{saga_loop-AllDistinct, saga_loop_all}
use chgres.Tests.Disk.{saga_mode, st_mode}

abbrev empty : Modes
empty = [] ∷ [] ∷ [] ∷ [] ∷ [] ∷ [] ∷ [] ∷ [] ∷ []

-- Modes in 1 plane and in 16 planes.
abbrev pub table : Modes
table = (st_mode ∷ []) ∷ [] ∷ [] ∷ [] ∷ [] ∷ (saga_mode ∷ []) ∷ [] ∷ [] ∷ []

abbrev virtual : Bytes
virtual = codes "virtual"

abbrev room : Modes → Bool
room t = true

no_modes-empty : no_modes ≡ empty
unfolding no_modes
no_modes-empty = refl

initres-ArePlaced_example :
    ArePlaced valid_planes (initres_st virtual room (pos 2) empty).modes
    × ArePlaced valid_planes (initres_tt virtual room color (pos 2) empty).modes
    × ArePlaced valid_planes (initres_saga virtual room 8 (pos 0x4502) empty).modes
initres-ArePlaced_example =
    initres-ArePlaced virtual room color 8 (pos 2) (pos 0x4502) empty (omega arith)

initres_falc-ArePlaced_example :
    ArePlaced falcon_planes (initres_falc virtual room vga (pos 0x1a) empty).modes
    × (drop 5 (initres_falc virtual room vga (pos 0x1a) empty).modes ≡ drop 5 empty)
initres_falc-ArePlaced_example =
    initres_falc-ArePlaced virtual room vga (pos 0x1a) empty (omega arith)

saga_loop-AllDistinct_example : AllDistinct (saga_loop virtual room 0 (saga_depths true) empty)
saga_loop-AllDistinct_example =
    saga_loop-AllDistinct virtual room 0 (saga_depths true) empty (omega arith)

saga_loop_all_example :
    Offers
      (modes_at (saga_loop virtual room 0 (saga_depths true) empty) 5)
      (pos 800)
      (pos 600)
      (pos 16)
unfolding saga_depths saga_resolutions
saga_loop_all_example =
    saga_loop_all virtual room (λ t. refl) 0 (saga_depths true) empty 5 11
      (record { reg = 0x02; bpp = 16 }) (record { reg = 0x0c; width = 800; height = 600 })
      (omega arith) refl (omega arith) refl
