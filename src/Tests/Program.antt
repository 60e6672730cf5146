-- ===== src/Tests/Program.antt =====
-- A run of the program on a TT with a monochrome monitor and MagiC: the mode that is current is saved.
use chgres.Base.{◌≡◌, refl, true, false, some, List, [], ◌∷◌, ◌++◌}
use chgres.System.Main.{Run, main}
use chgres.Gemdos.{Call, load_file}
use chgres.Base.Int.{pos}
use chgres.Base.Exec.{ok}
use chgres.Init.Detect.{init_res, detected}
use chgres.CLib.{strstr, strupr, codes}
use chgres.Mode.Insertion.{by_insertion, insertion_sort}
use chgres.Drivers.{gdos_drivers, read_assign_sys, assign_loop, assign_sys}
use chgres.Nvdivga.{et4000modes}
use chgres.Dialog.Events.{ok_object}
use chgres.System.Cookies.{Boot, name_of, setup}
use chgres.System.Program.{Dialog, program, dialog_on}
use chgres.Init.{choose_mode, select}
use chgres.Nodes.{sort_restab, count_res, load, table_of, set_next, write}
use chgres.System.Save.{save}
use chgres.System.Apply.{apply}
use chgres.Dialog.Session.{select_res}
use chgres.Save.Magx.{save_magx_inf, find_place, write_magx, mode_line}
use chgres.Text.{next_line, find_line}
use chgres.Mode.{new_mode}
use chgres.Gemdos.Load.{load_calls}
use chgres.Save.Magx.Laws.{magx_calls}
use chgres.System.Main.Laws.{shut_down_with}
use chgres.Text.Lines.{render}
use chgres.Tests.Disk.{remark, disk}
use chgres.Tests.Start.{tt_high, tt_mono, at_three}
use chgres.Tests.Session.{button}
use chgres.Tests.Systems.{boot, text, rounds}

abbrev tt_boot : Boot
tt_boot = record (boot (codes "MagX")) {
  jar = some ((name_of (codes "_VDO"), 131072) ∷ (name_of (codes "MagX"), 1) ∷ []);
}

abbrev only_ok : Dialog
only_ok = record {
  made = true;
  ok_button = button;
  info_button = button;
  events = record { obj = ok_object; items = []; ends = false } ∷ [];
}

abbrev shut_down : Run
shut_down = shut_down_with (select tt_high)

abbrev all_calls : List Call
all_calls =
    load_calls (disk text) assign_sys
    ++ magx_calls (disk text) tt_high (render (remark ∷ [])) (codes "end")

program_run :
    program
      (disk text)
      (codes "virtual")
      (λ t. true)
      4096
      2
      at_three
      by_insertion
      (λ n. true)
      2
      tt_boot
      tt_mono
      gdos_drivers
      []
      et4000modes
      only_ok
      (pos 0)
      1
      rounds
      true
      true
      []
    ≡ ok (shut_down, all_calls)
unfolding program init_res detected choose_mode read_assign_sys sort_restab dialog_on main save
    apply select_res save_magx_inf load_file assign_loop next_line setup count_res load table_of
    insertion_sort set_next write new_mode find_place find_line write_magx mode_line strstr strupr
program_run = refl
