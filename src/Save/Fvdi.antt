-- ===== src/Save/Fvdi.antt =====
-- `save_fvdi_inf` of save.c: the mode line of FVDI.SYS.
pub mod Laws
pub mod Files
pub mod Driver
use chgres.Base.{
  ℕ, zero, suc, ◌+◌, ◌-◌, ◌*◌, ◌/◌, ◌%◌, ◌^◌, ◌≤◌, ◌<◌, min, ◌≡◌, refl, sym, ap, ◌∙◌, ◌≢◌, ◌↔◌, ◌⊎◌,
  inl, inr, Bool, true, false, not, ◌&&◌, ◌||◌, Option, none, some, List, [], ◌∷◌, ◌++◌, map, arith,
  ltb, leb, ◌==◌, if◌then◌else◌, ltb→lt, lt→ltb, leb→le, ==_iff, Bool-cases, Option-cases, Bytes,
  length, get_elem?, set, get_or, take, drop, replicate, length-append, length-set,
  get_elem?-set_self, get_elem?-set_ne, take-append-drop, length-take, length-drop,
  length-replicate, length-map, tests,
}
use chgres.Base.Int.{ℤ, pos, negsuc, sub_ℕ}
use chgres.Base.Exec.{Exec, ok, fault}
use chgres.CLib.{codes, cr_lf, print_d}
use chgres.Gemdos.{
  Gemdos, Io, ◌>>=◌, ◌>>◌, return, lift, call, positive, created, written, closed, unless_null,
  load_file,
}
use chgres.Save.Process.{get_system_drive, c_string}
use chgres.Text.{Found, Removed, skip_white, find_line, remove_line}
use chgres.Mode.{Res}

-- `"#[driver%d]"`
unfoldable pub driver_tag : Res → Bytes
driver_tag r = codes "#[driver" ++ (print_d r.planes ++ b']' ∷ [])

-- A byte of the driver's name as it is copied.
abbrev pub name_byte : ℕ → ℕ
name_byte c = if c == 0x0d || (c == 0x0a || c == b' ') then 0 else c

-- `driverid` after the copy of `n` bytes of the line over the tag.
abbrev pub driver_name : Bytes → Bytes → ℤ → Bytes
driver_name tag name (pos zero) = tag
driver_name tag name (pos (suc n)) =
    if ltb (suc n) 31
    then c_string 32 (map name_byte (take (suc n) name) ++ drop (suc n) (tag ++ 0 ∷ []))
    else tag
driver_name tag name (negsuc n) = tag

-- From `lp2` on; `skip_white` reads the byte at which it stops.
abbrev named : Bytes → ℕ → Bytes → Bytes → Exec Bytes
named tag linesize behind [] = fault
named tag linesize behind (c ∷ name) =
    let blanks = length behind - length (c ∷ name) in
    ok (driver_name tag (c ∷ name) (sub_ℕ linesize (length tag + blanks)))

-- `driverid` when the line of the tag has been looked for.
unfoldable pub driver_id : Bytes → Bytes → Found → Exec Bytes
driver_id buf tag f =
    let behind = drop (f.offset + length tag) buf in
    if positive f.remain then named tag f.linesize behind (skip_white behind) else ok tag

-- `"01r %s mode %dx%dx%d@%d\r\n"`
unfoldable pub mode_line : Bytes → Res → Bytes
mode_line driver r =
    codes "01r "
    ++ (driver
        ++ (codes " mode "
            ++ (print_d r.hres
                ++ (b'x'
                    ∷ (print_d r.vres
                        ++ (b'x' ∷ (print_d r.planes ++ (b'@' ∷ (print_d r.freq ++ cr_lf)))))))))

unfoldable pub write_fvdi : Gemdos → Bytes → Res → Bytes → Removed → Io ℤ
write_fvdi os path r driver cut = do
  let fd = os.fcreate path
  call (created path)
  if positive fd
      then (do
        call (written fd (take cut.offset cut.buffer))
        call (written fd (mode_line driver r))
        call (written fd (take (cut.newsize - cut.offset) (drop cut.offset cut.buffer)))
        call (closed fd)
        return (pos 1))
      else return (negsuc 0)

-- The one line that begins with "01r " is replaced; with none or several nothing is written.
unfoldable pub replace_mode : Gemdos → Bytes → Res → Bytes → Bytes → Io ℤ
replace_mode os path r driver buf = do
  first ← lift (remove_line buf (codes "01r ") (length buf))
  unless_null first (return (negsuc 0)) λ cut. do
    second ← lift (remove_line cut.buffer (codes "01r ") cut.newsize)
    unless_null second (write_fvdi os path r driver cut) (λ _. return (negsuc 0))

abbrev pub fvdi_path : Bytes
fvdi_path = get_system_drive ++ codes "\\fvdi.sys"

abbrev pub is_tag : Bytes → Bool
is_tag s = get_or s 0 0 == b'#'

unfoldable pub save_fvdi_inf : Gemdos → Res → Io ℤ
save_fvdi_inf os r = do
  loaded ← load_file os fvdi_path
  unless_null loaded (return (negsuc 0)) λ buf. do
    f ← lift (find_line buf (driver_tag r) (length buf))
    driver ← lift (driver_id buf (driver_tag r) f)
    if is_tag driver then return (negsuc 0) else replace_mode os fvdi_path r driver buf
