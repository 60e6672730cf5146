-- ===== src/System/Program.antt =====
-- `main` of chgres.c from the start: `setup`, `init_res`, the dialog on what that found, and the rest.
-- What the hardware and the AES answer are arguments, and so are the events of the dialog.
use chgres.Base.{ℕ, Bool, true, ◌&&◌, Option, none, List, if◌then◌else◌, Bytes}
use chgres.Base.Int.{ℤ}
use chgres.Base.Exec.{Exec, ok, and_then}
use chgres.Gemdos.{Gemdos, Io, ◌>>=◌, lift}
use chgres.Mode.{Modes, max_depths}
use chgres.Mode.Sort.{Qsort}
use chgres.Drivers.{Drivers}
use chgres.Nodes.{Heap, Cell}
use chgres.Nvdivga.{Et4000}
use chgres.Init.{Setting}
use chgres.Init.Detect.{Answers, Started, init_res}
use chgres.Init.Opening.{read_list, read_table, read_current}
use chgres.Dialog.Events.{Button, Choice}
use chgres.Dialog.Session.{Event, opening, select_res}
use chgres.System.Cookies.{Boot, setup}
use chgres.System.Apply.{Round}
use chgres.System.Main.{Run, main}

-- What the dialog is given by the AES: whether it is made, its two buttons, and its events.
pub record Dialog : Type 0 where
  pub made : Bool
  pub ok_button : Button
  pub info_button : Button
  pub events : List Event

-- `select_res` on what `init_res` left.
unfoldable pub dialog_on : ℕ → Dialog → Setting → Exec (Option Choice)
unfolding read_list read_table read_current opening select_res
dialog_on fuel v s = and_then (read_table fuel max_depths 0 s) λ t.
    and_then (read_list fuel s.heap s.res_tab) λ shown. and_then (read_current s) λ cur.
      let start = opening t shown s.bpp_index cur v.ok_button v.info_button in
      ok (select_res v.made start v.events)

-- The hardware that `setup` found.
abbrev pub with_vdo : Gemdos → Boot → Answers → Answers
with_vdo os b a = record a { vdo = (setup os b).vdo }

module _ (os : Gemdos) (virtual : Bytes) (memory : Modes → Bool) (base nv_rounds : ℕ)
    (place : Modes → List ℕ × Heap) (q : Qsort Cell) (room : ℕ → Bool) (fuel : ℕ) where
  abbrev pub init_with : Boot → Answers → Drivers → Bytes → List Et4000 → Io Started
  init_with b a drivers behind table =
      init_res os virtual memory base nv_rounds place q room fuel (setup os b).sys_vdi
        (with_vdo os b a) drivers behind table

  -- `sn`, `tries` and `rounds` are those of `main`.
  unfoldable pub program :
      Boot
      → Answers
      → Drivers
      → Bytes
      → List Et4000
      → Dialog
      → ℤ
      → ℕ
      → (ℕ → Round)
      → Bool
      → Bool
      → Io Run
  unfolding init_res dialog_on main
  program b a drivers behind table v sn tries rounds registered loaded =
      let shown : Io Run = (do
        st ← init_with b a drivers behind table
        dialog ← lift (dialog_on fuel v st.setting)
        main os st.sys_vdi (setup os b).sys_aes sn tries rounds true true dialog) in
      if registered && loaded
      then shown
      else main os (setup os b).sys_vdi (setup os b).sys_aes sn tries rounds registered loaded none
