-- ===== src/Tests/Configs.antt =====
-- Runs of the routines that save a mode.
use chgres.Base.{◌≡◌, refl, inl, false, List, [], ◌∷◌, ◌++◌, arith, Bytes}
use chgres.Base.Int.{pos}
use chgres.Base.Exec.{ok, fault}
use chgres.CLib.{codes}
use chgres.Gemdos.Load.{load_calls}
use chgres.Machine.{f_system_tos}
use chgres.Mode.{new_mode}
use chgres.Text.{find_str}
use chgres.Text.Lines.{lf, TextLine, line_bytes, render}
use chgres.Text.Whole.{around, Nowhere}
use chgres.Save.Magx.{save_magx_inf}
use chgres.Save.Magx.Laws.{magx_calls, front_calls, save_magx_inf_added, save_magx_inf_last}
use chgres.Save.Magx.Steps.{magx_inf}
use chgres.Save.Desk.{save_desk_inf_base}
use chgres.Save.Desk.Laws.{save_desk_inf_base_last}
use chgres.Save.Config.{save_config, xaaes_settings}
use chgres.Save.Config.Laws.{save_config_overrun}
use chgres.Save.Config.Settings.{Setting, stacked}
use chgres.Save.Fvdi.{driver_tag}
use chgres.CLib.{print_d}
use chgres.Save.Fvdi.Driver.{HasDriver}
use chgres.Tests.Disk.{disk, disk-Loads, crlf_line, remark, saga_mode}

abbrev pub front : List TextLine
front = remark ∷ []

-- A file without the words that the routines look for.
abbrev plain : Bytes
plain = codes "; x\nend"

abbrev pub dev_line : TextLine
dev_line = crlf_line (codes "#_DEV 5 16")

abbrev aes_line : TextLine
aes_line = crlf_line (codes "#[aes]")

abbrev pub magx_text : Bytes
magx_text = around (render front) dev_line (codes "end")

abbrev aes_text : Bytes
aes_text = around (render front) aes_line (codes "end")

save_magx_inf_added_example :
    save_magx_inf (disk aes_text) saga_mode []
    ≡ ok (
      pos 1,
      magx_calls (disk aes_text) saga_mode (render front ++ line_bytes aes_line) (codes "end"),
    )
unfolding find_str
save_magx_inf_added_example =
    save_magx_inf_added (disk aes_text) saga_mode front aes_line b'e' (codes "nd")
      (record {
        ls = remark ∷ aes_line ∷ [];
        tail = codes "end";
        text_is = refl;
        are_lines = omega arith;
        no_match = (refl, (refl, tt));
        is_body = omega arith;
        no_match_tail = refl;
      })
      (omega arith) (refl, tt) (omega arith) refl (disk-Loads magx_inf aes_text) refl

plain-Nowhere :
    (str : Bytes) → find_str [] str ≡ false → find_str (codes "end") str ≡ false → Nowhere str plain
plain-Nowhere str e f = record {
  ls = remark ∷ [];
  tail = codes "end";
  text_is = refl;
  are_lines = omega arith;
  no_match = (e, tt);
  is_body = omega arith;
  no_match_tail = f;
}

abbrev last_text : Bytes
last_text = around (render front) dev_line []

save_magx_inf_last_example :
    save_magx_inf (disk last_text) saga_mode []
    ≡ ok (pos 1, front_calls (disk last_text) saga_mode last_text)
unfolding find_str
save_magx_inf_last_example =
    save_magx_inf_last (disk last_text) saga_mode front dev_line (omega arith) (refl, tt)
      (omega arith) refl
      (record {
        ls = remark ∷ dev_line ∷ [];
        tail = [];
        text_is = refl;
        are_lines = omega arith;
        no_match = (refl, (refl, tt));
        is_body = tt;
        no_match_tail = refl;
      })
      (disk-Loads magx_inf last_text) refl

abbrev pub desk_line : TextLine
desk_line = crlf_line (codes "#E 9A 07 00 00 00")

abbrev pub desk_text : Bytes
desk_text = around (render front) desk_line (codes "end")

abbrev pub newdesk : Bytes
newdesk = codes "newdesk.inf"

abbrev desk_last : Bytes
desk_last = around (render front) desk_line []

save_desk_inf_base_last_example :
    save_desk_inf_base (disk desk_last) f_system_tos (pos 4) (pos 0) newdesk 9 [] []
    ≡ ok (pos 0, load_calls (disk desk_last) newdesk)
unfolding find_str
save_desk_inf_base_last_example =
    save_desk_inf_base_last (disk desk_last) f_system_tos (pos 4) (pos 0) newdesk 9 [] front
      desk_line (omega arith) (refl, tt) (omega arith) refl (disk-Loads newdesk desk_last)

abbrev pub device : Setting
device = record { key = codes "SCREENDEV"; line = crlf_line (codes "SCREENDEV = 2") }

abbrev pub code_of : Setting
code_of = record { key = codes "MODECODE"; line = crlf_line (codes "MODECODE = 0x0010") }

abbrev pub xaaes_text : Bytes
xaaes_text = render front ++ stacked (device ∷ code_of ∷ []) (codes "end")

abbrev pub cnf : Bytes
cnf = codes "xaaes.cnf"

save_config_overrun_example :
    save_config (disk plain) (pos 100) cnf (codes "MODECODE" ∷ []) (xaaes_settings saga_mode) []
    ≡ fault
unfolding find_str
save_config_overrun_example =
    save_config_overrun (disk plain) cnf (xaaes_settings saga_mode) (codes "MODECODE" ∷ []) plain
      100 (plain-Nowhere _ refl refl, tt) (disk-Loads cnf plain) refl (omega arith)

abbrev pub mode_01 : TextLine
mode_01 = crlf_line (codes "01r none mode 640x400x1@60")

abbrev pub drivers : Bytes
drivers = codes "#[driver16] saga.sys 1\nend"

abbrev pub fvdi_text : Bytes
fvdi_text = around (render front) mode_01 drivers

-- A remark behind the name is not part of it.
abbrev driver_line : TextLine
driver_line = record { body = codes "#[driver16] saga.sys 1"; eol = lf }

pub fvdi_text-HasDriver : HasDriver saga_mode fvdi_text (codes "saga.sys")
unfolding driver_tag print_d new_mode find_str
fvdi_text-HasDriver = record {
  before = front ++ mode_01 ∷ [];
  line = driver_line;
  back = codes "end";
  text_is = refl;
  are_lines = omega arith;
  no_match = (refl, (refl, tt));
  is_body = omega arith;
  hit = refl;
  not_last = omega arith;
  names_it = record {
    blanks = 1;
    first = b's';
    others = codes "aga.sys";
    stop = b' ';
    more = codes "1\n";
    driver_is = refl;
    line_is = refl;
    plain = (
      (refl, refl, refl, refl, refl),
      (
        (refl, refl, refl, refl, refl),
        (
          (refl, refl, refl, refl, refl),
          (
            (refl, refl, refl, refl, refl),
            (
              (refl, refl, refl, refl, refl),
              (
                (refl, refl, refl, refl, refl),
                ((refl, refl, refl, refl, refl), ((refl, refl, refl, refl, refl), tt)),
              ),
            ),
          ),
        ),
      ),
    );
    stops = inl refl;
    short = omega arith;
    no_tag = refl;
  };
}
