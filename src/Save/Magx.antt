-- ===== src/Save/Magx.antt =====
-- `save_magx_inf` of save.c: the mode line of MagiC's configuration file.
pub mod Steps
pub mod Laws
pub mod Files
use chgres.Base.{
  ℕ, zero, ◌+◌, Bool, true, false, ◌∷◌, ◌++◌, if◌then◌else◌, Bytes, length, take, drop,
}
use chgres.Base.Int.{ℤ, pos}
use chgres.CLib.{codes, cr_lf, print_d}
use chgres.Gemdos.{
  Gemdos, Io, ◌>>=◌, ◌>>◌, return, lift, call, positive, created, written, closed, unless_null,
  load_file,
}
use chgres.Mode.{Res}
use chgres.Text.{Found, find_line}

-- Where the line goes: the bytes before it, what `remain` says, and the bytes that it replaces.
pub record Place : Type 0 where
  pub before : ℕ
  pub remain : ℤ
  pub replaced : ℕ

abbrev is_zero : ℤ → Bool
is_zero (pos zero) = true
is_zero _ = false

-- Behind the section's line, and nothing is replaced.
abbrev in_section : Found → Place
in_section f = record { before = f.offset + f.linesize; remain = f.remain; replaced = 0 }

abbrev at_line : Found → Place
at_line f = record { before = f.offset; remain = f.remain; replaced = f.linesize }

unfoldable pub find_place : Bytes → Io Place
find_place buf = do
  f ← lift (find_line buf (codes "#_DEV") (length buf))
  if is_zero f.remain
      then (do g ← lift (find_line buf (codes "#[aes]") (length buf)); return (in_section g))
      else return (at_line f)

-- The line that is written.
unfoldable pub mode_line : Res → Bytes
mode_line r = codes "#_DEV " ++ (print_d r.rez ++ (b' ' ∷ (print_d r.vmode ++ cr_lf)))

unfoldable pub write_magx : ℤ → Bytes → Bytes → Place → Io ℤ
write_magx fd buf line place =
    if positive place.remain
    then (do
      call (written fd (take place.before buf))
      call (written fd line)
      call (written fd (drop (place.before + place.replaced) buf))
      call (closed fd)
      return (pos 1))
    else (do call (written fd line); call (written fd buf); call (closed fd); return (pos 1))

unfoldable pub save_magx_inf : Gemdos → Res → Io ℤ
save_magx_inf os r = do
  loaded ← load_file os (codes "\\MAGX.INF")
  unless_null loaded (return (pos 0)) λ buf. do
    place ← find_place buf
    let fd = os.fcreate (codes "\\MAGX.INF")
    call (created (codes "\\MAGX.INF"))
    if positive fd then write_magx fd buf (mode_line r) place else return (pos 0)
