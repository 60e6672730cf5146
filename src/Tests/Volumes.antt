-- ===== src/Tests/Volumes.antt =====
-- Runs of the routines that save a mode, on a volume in memory.
use chgres.Base.{◌≡◌, refl, some, List, [], ◌∷◌, ◌++◌, arith, Bytes}
use chgres.Base.Int.{pos}
use chgres.Base.Exec.{ok}
use chgres.CLib.{codes}
use chgres.Gemdos.{Call}
use chgres.Gemdos.Copy.{Patched}
use chgres.Machine.{f_system_tos}
use chgres.Text.{find_str}
use chgres.Text.Lines.{render}
use chgres.Save.Magx.{mode_line, save_magx_inf}
use chgres.Save.Magx.Laws.{magx_calls}
use chgres.Save.Magx.Steps.{magx_inf}
use chgres.Save.Magx.Files.{magx_calls-HasBecome, save_magx_inf-HasBecome, save_magx_inf_twice}
use chgres.Save.Desk.{save_desk_inf_base}
use chgres.Save.Desk.Fields.{word}
use chgres.Save.Desk.Files.{save_desk_inf_base-HasBecome}
use chgres.Save.Config.{save_config, xaaes_keys, xaaes_settings}
use chgres.Save.Config.Files.{config_calls, config_calls-HasBecome, save_config-HasBecome}
use chgres.Save.Config.Twice.{rest_of, save_config_twice}
use chgres.Save.Fvdi
use chgres.Volume.{run, HasBecome}
use chgres.Volume.Memory.{Files, memory, memory-IsLawful}
use chgres.Volume.Rewrite.{written_over}
use chgres.Tests.Disk.{only, disk-Serves, only-content, only-Serves, disk, saga_mode, st_mode}
use chgres.Tests.Configs.{
  front, dev_line, magx_text, desk_line, desk_text, newdesk, device, code_of, xaaes_text, cnf,
}

save_magx_inf-HasBecome_example :
    (calls : List Call) × (save_magx_inf (disk magx_text) saga_mode [] ≡ ok (pos 1, calls))
    × HasBecome memory
        (only magx_inf magx_text)
        (run memory (disk magx_text) (only magx_inf magx_text) calls)
        magx_inf
        (render front ++ (mode_line saga_mode ++ codes "end"))
unfolding find_str
save_magx_inf-HasBecome_example =
    save_magx_inf-HasBecome memory-IsLawful (disk magx_text) (only magx_inf magx_text) saga_mode
      front dev_line b'e' (codes "nd") (omega arith) (refl, tt) (omega arith) refl
      (only-content magx_inf magx_text) (only-Serves magx_inf magx_text) refl

abbrev saved : Files
saved =
    run memory (disk magx_text) (only magx_inf magx_text)
      (magx_calls (disk magx_text) saga_mode (render front) (codes "end"))

abbrev again_text : Bytes
again_text = render front ++ (mode_line saga_mode ++ codes "end")

saved-content : saved.files magx_inf ≡ some again_text
saved-content =
    let become =
      magx_calls-HasBecome memory-IsLawful (disk magx_text) (only magx_inf magx_text) saga_mode
        (render front) (codes "end") refl in
    become.this

save_magx_inf_twice_example :
    (calls : List Call) × (save_magx_inf (disk magx_text) saga_mode []
      ≡ ok (pos 1, magx_calls (disk magx_text) saga_mode (render front) (codes "end")))
    × (save_magx_inf (disk again_text) st_mode [] ≡ ok (pos 1, calls))
    × HasBecome memory
        (only magx_inf magx_text)
        (run memory (disk again_text) saved calls)
        magx_inf
        (render front ++ (mode_line st_mode ++ codes "end"))
unfolding find_str
save_magx_inf_twice_example =
    save_magx_inf_twice memory-IsLawful (disk magx_text) (disk again_text) (only magx_inf magx_text)
      saga_mode st_mode front dev_line b'e' (codes "nd") (omega arith) (refl, tt) (omega arith) refl
      (only-content magx_inf magx_text) (only-Serves magx_inf magx_text) refl
      (disk-Serves saved magx_inf again_text saved-content) refl

save_desk_inf_base-HasBecome_example :
    (q : Bytes) × (calls : List Call) × (save_desk_inf_base
        (disk desk_text)
        f_system_tos
        (pos 5)
        (pos 0x4502)
        newdesk
        9
        []
        []
      ≡ ok (pos 1, calls))
    × HasBecome memory
        (only newdesk desk_text)
        (run memory (disk desk_text) (only newdesk desk_text) calls)
        newdesk
        q
    × Patched desk_text 13 (codes "45 02") q
unfolding find_str
save_desk_inf_base-HasBecome_example =
    save_desk_inf_base-HasBecome memory-IsLawful (disk desk_text) (only newdesk desk_text)
      f_system_tos (pos 5) (pos 0x4502) newdesk 9 [] front desk_line b'e' (codes "nd") (omega arith)
      (refl, tt) (omega arith) refl (word 0x4501 refl (omega arith) (omega arith))
      (only-content newdesk desk_text) (only-Serves newdesk desk_text) refl

save_config-HasBecome_example :
    (calls : List Call) × (save_config
        (disk xaaes_text)
        (pos 77)
        cnf
        xaaes_keys
        (xaaes_settings saga_mode)
        []
      ≡ ok (pos 1, calls))
    × HasBecome memory
        (only cnf xaaes_text)
        (run memory (disk xaaes_text) (only cnf xaaes_text) calls)
        cnf
        (written_over (render front ++ (xaaes_settings saga_mode ++ codes "end")) xaaes_text)
unfolding find_str
save_config-HasBecome_example =
    save_config-HasBecome memory-IsLawful (disk xaaes_text) (only cnf xaaes_text) (pos 77) cnf
      (xaaes_settings saga_mode) front device (code_of ∷ []) b'e' (codes "nd") (omega arith)
      ((refl, tt), omega arith, refl, ((refl, tt), omega arith, refl, tt))
      (only-content cnf xaaes_text) (only-Serves cnf xaaes_text) refl

abbrev xaaes_again : Bytes
xaaes_again = written_over (render front ++ (xaaes_settings saga_mode ++ codes "end")) xaaes_text

abbrev xaaes_saved : Files
xaaes_saved =
    run memory (disk xaaes_text) (only cnf xaaes_text)
      (config_calls (disk xaaes_text) cnf (xaaes_settings saga_mode) (render front) (codes "end"))

xaaes_saved-content : xaaes_saved.files cnf ≡ some xaaes_again
xaaes_saved-content =
    let become =
      config_calls-HasBecome memory-IsLawful (disk xaaes_text) (only cnf xaaes_text) cnf
        (xaaes_settings saga_mode) (render front) (codes "end") xaaes_text
        (only-content cnf xaaes_text) refl in
    become.this

save_config_twice_example :
    (calls : List Call) × (save_config
        (disk xaaes_text)
        (pos 77)
        cnf
        xaaes_keys
        (xaaes_settings saga_mode)
        []
      ≡ ok (
        pos 1,
        config_calls (disk xaaes_text) cnf (xaaes_settings saga_mode) (render front) (codes "end"),
      ))
    × (save_config (disk xaaes_again) (pos 77) cnf xaaes_keys (xaaes_settings st_mode) []
        ≡ ok (pos 1, calls))
    × HasBecome memory (only cnf xaaes_text) (run memory (disk xaaes_again) xaaes_saved calls) cnf (
        written_over
          (render front
            ++ (xaaes_settings st_mode
                ++ rest_of (render front) (xaaes_settings saga_mode) (codes "end") xaaes_text))
          xaaes_again)
unfolding find_str
save_config_twice_example =
    save_config_twice memory-IsLawful (disk xaaes_text) (disk xaaes_again) (only cnf xaaes_text)
      (pos 77) (pos 77) cnf saga_mode st_mode front device (code_of ∷ []) b'e' (codes "nd")
      xaaes_text xaaes_again (omega arith)
      ((refl, tt), omega arith, refl, ((refl, tt), omega arith, refl, tt)) refl (refl, tt)
      (refl, tt) refl refl (only-content cnf xaaes_text) (only-Serves cnf xaaes_text) refl
      (disk-Serves xaaes_saved cnf xaaes_again xaaes_saved-content) refl
