-- ===== src/Tests/Dialogs.antt =====
-- Runs of the texts and sizes of the dialog.
use chgres.Base.{◌≡◌, refl, true, false, some, [], ◌∷◌}
use chgres.Base.Int.{pos, ◌*ℤ◌}
use chgres.Mode.{new_mode}
use chgres.CLib.{codes, atoi, strstr}
use chgres.Dialog.Fields.{set_bpp, translated}
use chgres.Dialog.Info.{entered_size, virtual_res}
use chgres.Dialog.Events.{Choice}
use chgres.Tests.Disk.{saga_mode, st_mode}

set_bpp_text : set_bpp (codes "........") 5 ≡ codes "    65K "
unfolding set_bpp
set_bpp_text = refl

translated_text :
    translated (codes "Niedrig") (codes "Low") (codes " 320 x 200, ST Niedrig")
    ≡ codes " 320 x 200, ST Low"
unfolding translated strstr
translated_text = refl

-- The width 1000 is rounded down to 992.
entered_size_rounded :
    entered_size saga_mode (codes "1000") (codes "500")
    ≡ (record { width = pos 992; height = pos 496 }, virtual_res ∷ [])
unfolding entered_size atoi new_mode ◌*ℤ◌
entered_size_rounded = refl

-- A table of two depths, with the mode of one plane chosen.
abbrev choice : Choice
choice = record {
  table = (st_mode ∷ []) ∷ [] ∷ [] ∷ [] ∷ [] ∷ (saga_mode ∷ []) ∷ [] ∷ [] ∷ [];
  bpp_index = 0;
  cur_res = some st_mode;
  ok_button = record { disabled = false; selectable = true; default = true };
  info_button = record { disabled = false; selectable = true; default = false };
  slider = 0;
  must_shutdown = false;
}
