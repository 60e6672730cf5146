-- ===== src/Tests/Disk.antt =====
-- A disk with one file, and the lines that the runs use.
use chgres.Base.{◌≡◌, refl, sym, ap, ◌∙◌, true, none, some, [], if◌then◌else◌, Bytes, length, take}
use mathlib.Core.List.{append-nil}
use chgres.Base.Int.{pos, negsuc}
use mathlib.Core.Option.{some-injective}
use std.Path.{subst}
use chgres.CLib.{str_eq, codes}
use chgres.Volume.{Serves}
use chgres.Volume.Memory.{str_eq_refl, Files, memory}
use chgres.Gemdos.{Gemdos}
use chgres.Gemdos.Load.{Loads}
use chgres.Gemdos.Copy.{take_of}
use chgres.Mode.{Res, new_mode}
use chgres.Text.Lines.{TextLine, lf, crlf}

-- Every call is met; the only file holds `text`.
abbrev pub disk : Bytes → Gemdos
disk text = record {
  fopen = λ name mode. pos 6;
  fcreate = λ name. pos 7;
  fseek_end = λ fd. length text;
  fread = λ fd n. some (take n text);
  malloc = λ n. true;
  getenv = λ name. none;
  fsfirst = λ name attributes. negsuc 32;
  dta_name = none;
}

pub disk-Loads : (name text : Bytes) → Loads (disk text) name text
disk-Loads name text = record {
  open_ok = refl;
  size_is = refl;
  memory = refl;
  content = ap some (rw append-nil at (take_of (length text) text [] refl));
}

-- The volume with the one file `n`.
abbrev pub only : Bytes → Bytes → Files
only n text = record { files = λ m. if str_eq m n then some text else none; handles = λ fd. none }

pub disk-Serves :
    (s : Files) (n text : Bytes) → s.files n ≡ some text → Serves memory (disk text) s n
disk-Serves s n text e old holds =
    subst (Loads (disk text) n) (some-injective text old (sym e ∙ holds)) (disk-Loads n text)

pub only-content : (n text : Bytes) → (only n text).files n ≡ some text
only-content n text = rw str_eq_refl refl

pub only-Serves : (n text : Bytes) → Serves memory (disk text) (only n text) n
only-Serves n text = disk-Serves (only n text) n text (only-content n text)

abbrev pub crlf_line : Bytes → TextLine
crlf_line s = record { body = s; eol = crlf }

abbrev pub remark : TextLine
remark = record { body = codes "; x"; eol = lf }

-- 640x480 in 16 planes on the Falcon, with the mode word 0x4502.
abbrev pub saga_mode : Res
saga_mode = new_mode (codes "virtual") (pos 640) (pos 480) (pos 16) (pos 5) (pos 0x4502) none

-- ST high.
abbrev pub st_mode : Res
st_mode = new_mode (codes "virtual") (pos 640) (pos 400) (pos 1) (pos 4) (pos 0) none
