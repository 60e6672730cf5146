-- ===== src/Save/Desk.antt =====
-- `save_desk_inf_base` of save.c and its callers for EMUDESK.INF, NEWDESK.INF, DESKTOP.INF and
-- N_DESK.INF: the mode is patched into the line of the desktop file that begins with "#E ".
pub mod Fields
pub mod Laws
pub mod Files
pub mod Default
use chgres.Base.{
  ℕ, zero, suc, ◌+◌, ◌-◌, ◌*◌, ◌/◌, ◌%◌, ◌^◌, ◌≤◌, ◌<◌, min, ◌≡◌, refl, sym, ap, ◌∙◌, ◌≢◌, ◌↔◌, ◌⊎◌,
  inl, inr, Bool, true, false, not, ◌&&◌, ◌||◌, Option, none, some, List, [], ◌∷◌, ◌++◌, map, arith,
  ltb, leb, ◌==◌, if◌then◌else◌, ltb→lt, lt→ltb, leb→le, ==_iff, Bool-cases, Option-cases, Bytes,
  length, get_elem?, set, get_or, take, drop, replicate, length-append, length-set,
  get_elem?-set_self, get_elem?-set_ne, take-append-drop, length-take, length-drop,
  length-replicate, length-map, tests,
}
use chgres.Base.Int.{ℤ, pos, negsuc, ◌-ℤ◌}
use chgres.Base.Exec.{Exec, ok, fault, timeout}
use chgres.CLib.{codes, print_x, strupr}
use chgres.Gemdos.{
  Gemdos, Io, ◌>>=◌, ◌>>◌, return, lift, call, positive, created, written, closed, unless_null,
  load_file, overwrite,
}
use chgres.Machine.{f_system_emutos}
use chgres.Save.Process.{get_system_drive, get_process_path}
use chgres.Text.{find_line}
use chgres.Mode.{Res}
use chgres.Save.Desk.Default.{default_newdesk}

abbrev pub is_zero : ℤ → Bool
is_zero (pos zero) = true
is_zero _ = false

-- `vmode >> 8` and `vmode & 0xFF`, of a negative number too.
abbrev pub high_byte : ℤ → ℤ
high_byte (pos n) = pos (n / 256)
high_byte (negsuc n) = negsuc (n / 256)

abbrev pub low_byte : ℤ → ℤ
low_byte (pos n) = pos (n % 256)
low_byte (negsuc n) = pos (255 - n % 256)

-- What `sprintf` leaves in `char modestr[6]`, with its 0.
abbrev pub modestr : Bytes → Exec Bytes
modestr s = if ltb (length s) 6 then ok (strupr s) else fault

-- The number of the resolution, as one hexadecimal digit.
unfoldable pub rez_digit : ℤ → Bytes
rez_digit rez = print_x 1 (rez -ℤ pos 2)

-- The mode as two bytes in hexadecimal.
unfoldable pub mode_bytes : ℕ → ℤ → ℤ → Bytes
mode_bytes sys rez vmode =
    if is_zero vmode && sys == f_system_emutos
    then codes "FF " ++ print_x 2 (rez -ℤ pos 2)
    else print_x 2 (high_byte vmode) ++ b' ' ∷ print_x 2 (low_byte vmode)

abbrev some_block : Exec Bytes → Exec (Option Bytes)
some_block (ok b) = ok (some b)
some_block fault = fault
some_block timeout = timeout

-- `memcpy(&p[at], modestr, n)`
unfoldable pub copy_modestr : Bytes → ℕ → ℕ → Exec Bytes → Exec (Option Bytes)
copy_modestr buf at n (ok s) = some_block (overwrite buf at (take n s))
copy_modestr buf at n fault = fault
copy_modestr buf at n timeout = timeout

-- What is done with the line at `offset`; `none` if it is too short.
unfoldable pub patch : ℕ → ℤ → ℤ → ℕ → Bytes → ℕ → ℕ → Exec (Option Bytes)
patch sys rez vmode eoffset buf offset linesize =
    if is_zero vmode && (not (sys == f_system_emutos) && leb 8 linesize)
    then copy_modestr buf (offset + 7) 1 (modestr (rez_digit rez))
    else if leb (eoffset + 5) linesize
    then copy_modestr buf (offset + eoffset) 5 (modestr (mode_bytes sys rez vmode))
    else ok none

-- `buf` and `size`. Behind a default file stands the 0 of its literal.
abbrev pub desk_buffer : Option Bytes → Bytes → Option (Bytes × ℕ)
desk_buffer (some buf) fallback = some (buf, length buf)
desk_buffer none [] = none
desk_buffer none (c ∷ s) = some (c ∷ s ++ 0 ∷ [], length (c ∷ s))

unfoldable pub write_desk : Gemdos → Bytes → ℕ → Bytes → Io ℤ
write_desk os filename size buf = do
  let fd = os.fcreate filename
  call (created filename)
  if is_zero fd
      then return (pos 0)
      else (do call (written fd (take size buf)); call (closed fd); return (pos 1))

-- An empty `fallback` stands for `defaultbuf` 0.
unfoldable pub save_desk_inf_base : Gemdos → ℕ → ℤ → ℤ → Bytes → ℕ → Bytes → Io ℤ
save_desk_inf_base os sys rez vmode filename eoffset fallback = do
  loaded ← load_file os filename
  unless_null (desk_buffer loaded fallback) (return (pos 0)) λ (buf, size). do
    f ← lift (find_line buf (codes "#E ") size)
    if positive f.remain
        then (do
          b ← lift (patch sys rez vmode eoffset buf f.offset f.linesize)
          unless_null b (return (pos 0)) (write_desk os filename size))
        else return (pos 0)

unfoldable pub save_emudesk_inf : Gemdos → ℕ → Res → Io ℤ
save_emudesk_inf os sys r =
    save_desk_inf_base os sys r.rez r.vmode (get_system_drive ++ codes "\\emudesk.inf") 9 []

unfoldable pub save_newdesk_inf : Gemdos → ℕ → Res → Io ℤ
save_newdesk_inf os sys r =
    save_desk_inf_base os sys r.rez r.vmode (get_system_drive ++ codes "\\newdesk.inf") 15
      default_newdesk

-- Nothing is saved.
unfoldable pub save_olddesk_inf : Gemdos → Res → Io ℤ
save_olddesk_inf os r = return (pos 0)

abbrev naes_in : Gemdos → ℕ → Res → Bytes → Io ℤ
naes_in os sys r aesdir =
    save_desk_inf_base os sys r.rez r.vmode (aesdir ++ codes "/n_desk.inf") 15 default_newdesk

abbrev from_env : Option Bytes → Option Bytes
from_env (some (c ∷ s)) = some (c ∷ s)
from_env _ = none

-- The directory of the AES process, or else that of a variable that is not empty.
unfoldable pub naes_dir : Gemdos → Option Bytes
unfolding get_process_path
naes_dir os = elim (get_process_path os (codes "AESSYS")) [
  | some dir ↦ some dir
  | none ↦ from_env (os.getenv (codes "AESDIR"))
]

unfoldable pub save_naes_inf : Gemdos → ℕ → Res → Io ℤ
save_naes_inf os sys r = unless_null (naes_dir os) (return (pos 0)) (naes_in os sys r)
