-- ===== src/Tests/Systems.antt =====
-- Runs of `setup`, `save`, `apply` and of the table of drivers.
use chgres.Base.{
  ℕ, ◌*◌, ◌≡◌, refl, inr, true, false, not, ◌&&◌, some, [], ◌∷◌, arith, ltb, ◌==◌, if◌then◌else◌,
  Bytes, set, replicate,
}
use chgres.Base.Int.{pos, ltb_ℤ}
use chgres.Base.Exec.{ok, fault}
use chgres.CLib.{strstr, atoi, codes, str_eq}
use chgres.Gemdos.Load.{load_calls}
use chgres.Drivers.{
  name_start, Drivers, gdos_drivers, assign_sys, read_assign_sys, registered, register_line,
  get_gdos_driver,
}
use chgres.Drivers.Laws.{SameShape, read_assign_sys_lem, get_gdos_driver-missing}
use chgres.Machine.{f_system_emutos, f_system_mint_naes}
use chgres.System.Apply.{Round, apply}
use chgres.System.Apply.Laws.{is_end, apply-end}
use chgres.System.Cookies.{Boot, name_of, setup}
use chgres.System.Cookies.Laws.{known_aes, known_vdi, setup_known}
use chgres.Text.Lines.{render}
use chgres.Text.Whole.{around}
use chgres.Tests.Disk.{disk, disk-Loads, crlf_line, remark, saga_mode}

-- A machine with one cookie.
abbrev pub boot : Bytes → Boot
boot name = record {
  jar = some ((name_of name, 1) ∷ []);
  os_version = pos 0x206;
  is_etos = false;
  aes_global_0 = pos 0x399;
  peek = λ address. 0;
}

abbrev pub text : Bytes
text = around (render (remark ∷ [])) (crlf_line (codes "#_DEV 5 16")) (codes "end")

setup_known_example :
    (known_aes (setup (disk text) (boot (codes "MagX"))).sys_aes ≡ true)
    × (known_vdi (setup (disk text) (boot (codes "MagX"))).sys_vdi ≡ true)
    × (((setup (disk text) (boot (codes "MagX"))).sys_aes == f_system_emutos
          && not (ltb_ℤ (setup (disk text) (boot (codes "MagX"))).aes_ver (pos 0x400)))
        ≡ false)
setup_known_example = setup_known (disk text) (boot (codes "MagX"))

-- An application stands in the way for two rounds.
abbrev pub rounds : ℕ → Round
rounds k = record {
  result = pos 0;
  apid = if ltb k 2 then pos 9 else pos 0;
  pid = pos 33;
  elapsed = pos (k * 100);
}

apply-end_example : is_end (apply 3 2 f_system_mint_naes rounds saga_mode).1 ≡ true
apply-end_example =
    apply-end 2 3 2 f_system_mint_naes rounds saga_mode (inr (omega arith)) (omega arith)

abbrev assign_text : Bytes
assign_text = codes "03r xvga16.sys\n; end\n"

read_assign_sys_lem_example :
    (u : Drivers) × (read_assign_sys (disk assign_text) gdos_drivers []
      ≡ ok (u, load_calls (disk assign_text) assign_sys))
    × SameShape gdos_drivers u
unfolding gdos_drivers
read_assign_sys_lem_example =
    read_assign_sys_lem (disk assign_text) assign_text gdos_drivers
      (disk-Loads assign_sys assign_text) refl refl

-- The name behind the blank goes to the entry 3.
register_line_name :
    register_line gdos_drivers (codes "03R XVGA16.SYS")
    ≡ ok (set gdos_drivers 3 (codes "XVGA16.SYS"))
unfolding register_line registered gdos_drivers strstr name_start atoi
register_line_name = refl

get_gdos_driver-missing_example : get_gdos_driver ([] ∷ replicate 10 []) (codes "B.SYS") ≡ fault
unfolding str_eq
get_gdos_driver-missing_example =
    get_gdos_driver-missing [] (replicate 10 []) (codes "B.SYS")
      (refl, (refl, (refl, (refl, (refl, (refl, (refl, (refl, (refl, (refl, tt)))))))))) refl
