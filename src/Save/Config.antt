-- ===== src/Save/Config.antt =====
-- `save_xaaes_inf` and `save_myaes_inf` of save.c: lines of a configuration file are taken out, and the
-- new settings are written where the last of them stood.
pub mod Settings
pub mod Laws
pub mod Files
pub mod Twice
use chgres.Base.{
  ℕ, zero, suc, ◌+◌, ◌-◌, ◌*◌, ◌/◌, ◌%◌, ◌^◌, ◌≤◌, ◌<◌, min, ◌≡◌, refl, sym, ap, ◌∙◌, ◌≢◌, ◌↔◌, ◌⊎◌,
  inl, inr, Bool, true, false, not, ◌&&◌, ◌||◌, Option, none, some, List, [], ◌∷◌, ◌++◌, map, arith,
  ltb, leb, ◌==◌, if◌then◌else◌, ltb→lt, lt→ltb, leb→le, ==_iff, Bool-cases, Option-cases, Bytes,
  length, get_elem?, set, get_or, take, drop, replicate, length-append, length-set,
  get_elem?-set_self, get_elem?-set_ne, take-append-drop, length-take, length-drop,
  length-replicate, length-map, tests,
}
use chgres.Base.Int.{ℤ, pos, negsuc, ◌-ℤ◌, sub_ℕ}
use chgres.Base.Exec.{Exec, ok, fault, timeout}
use chgres.CLib.{codes, cr_lf, print_d, print_x}
use chgres.Gemdos.{
  Gemdos, Call, Io, ◌>>=◌, ◌>>◌, return, lift, call, positive, opened, written, closed, unless_null,
  load_file,
}
use chgres.Save.Process.{get_process_path}
use chgres.Text.{remove_line, Removed}
use chgres.Mode.{Res}

-- `buf`, `lc - buf`, `sc` and `sn`.
pub record Cut : Type 0 where
  pub buffer : Bytes
  pub place : ℕ
  pub size : ℕ
  pub newsize : ℤ

abbrev cut_to : Cut → Option Removed → Exec Cut
cut_to c none = ok c
cut_to c (some r) =
    ok (record { buffer = r.buffer; place = r.offset; size = r.newsize; newsize = pos r.newsize })

abbrev after : Exec (Option Removed) → Cut → Exec Cut
after (ok r) c = cut_to c r
after fault c = fault
after timeout c = timeout

-- `ln = remove_line(buf, key, sc, &sn); if (ln) { lc = ln; sc = sn; }`
unfoldable pub cut_line : Cut → Bytes → Exec Cut
cut_line c key = after (remove_line c.buffer key c.size) c

unfoldable pub cut_lines : Cut → List Bytes → Exec Cut
cut_lines c [] = ok c
cut_lines c (key ∷ keys) = elim (cut_line c key) [
  | ok c' ↦ cut_lines c' keys
  | fault ↦ fault
  | timeout ↦ timeout
]

-- `if (s1 > 0) { Fwrite(fd, s1, buf); }`
abbrev pub front_write : ℤ → Bytes → List Call
front_write fd [] = []
front_write fd (c ∷ s) = written fd (c ∷ s) ∷ []

-- `if (s2 > 0) { Fwrite(fd, s2, lc); }`; what `Fwrite` reads outside the block is not known.
abbrev pub back_write : ℤ → Cut → ℤ → Exec (List Call)
back_write fd c (pos zero) = ok []
back_write fd c (pos (suc n)) =
    if leb (c.place + suc n) (length c.buffer)
    then ok (written fd (take (suc n) (drop c.place c.buffer)) ∷ [])
    else fault
back_write fd c (negsuc n) = ok []

abbrev pub calls_made : List Call → Io (Unit {0})
calls_made more calls = ok (tt, calls ++ more)

-- The part behind `Fopen`.
unfoldable pub write_config : ℤ → Bytes → Cut → Io ℤ
write_config fd settings c = do
  calls_made (front_write fd (take c.place c.buffer))
  call (written fd settings)
  back ← lift (back_write fd c (c.newsize -ℤ pos c.place))
  calls_made back
  call (closed fd)
  return (pos 1)

-- The common course of both routines. `sn` is the value that the local variable `sn` has at first; no
-- statement sets it before `remove_line` does.
unfoldable pub save_config : Gemdos → ℤ → Bytes → List Bytes → Bytes → Io ℤ
save_config os sn path keys settings = do
  loaded ← load_file os path
  unless_null loaded (return (pos 0)) λ buf. do
    let fd = os.fopen path 1
    call (opened path 1)
    if positive fd
        then (do
          let start : Cut = record { buffer = buf; place = 0; size = length buf; newsize = sn }
          c ← lift (cut_lines start keys)
          write_config fd settings c)
        else return (pos 0)

-- `"SCREENDEV = %d\r\nMODECODE = 0x%04x\r\n"`
unfoldable pub xaaes_settings : Res → Bytes
xaaes_settings r =
    codes "SCREENDEV = "
    ++ (print_d r.rez ++ (cr_lf ++ (codes "MODECODE = 0x" ++ (print_x 4 r.vmode ++ cr_lf))))

abbrev pub xaaes_keys : List Bytes
xaaes_keys = codes "SCREENDEV" ∷ codes "MODECODE" ∷ []

abbrev below : Bytes → Option Bytes → Option Bytes
below name none = none
below name (some dir) = some (dir ++ name)

-- Beside the AES, or below the directory of a variable.
unfoldable pub xaaes_path : Gemdos → Option Bytes
xaaes_path os = elim (get_process_path os (codes "XaSYS")) [
  | some dir ↦ some (dir ++ codes "/xaaes.cnf")
  | none ↦ below (codes "/xaaes/xaaes.cnf") (os.getenv (codes "SYSDIR"))
]

unfoldable pub save_xaaes_inf : Gemdos → ℤ → Res → Io ℤ
save_xaaes_inf os sn r =
    unless_null (xaaes_path os) (return (pos 0))
      λ path. save_config os sn path xaaes_keys (xaaes_settings r)

-- `"vsetmode = %d\r\nrezmode = %d\r\nesetshift = %d\r\n"`, the last always 0.
unfoldable pub myaes_settings : Res → Bytes
myaes_settings r =
    codes "vsetmode = "
    ++ (print_d r.vmode
        ++ (cr_lf
            ++ (codes "rezmode = "
                ++ (print_d (r.rez -ℤ pos 2)
                    ++ (cr_lf ++ (codes "esetshift = " ++ (print_d (pos 0) ++ cr_lf)))))))

abbrev pub myaes_keys : List Bytes
myaes_keys = codes "vsetmode" ∷ codes "rezmode" ∷ codes "esetshift" ∷ []

unfoldable pub myaes_path : Gemdos → Bytes
myaes_path os = elim (get_process_path os (codes "myaes")) [
  | some dir ↦ dir ++ codes "/myaes.cnf"
  | none ↦ codes "c:\\gemsys\\myaes/myaes.cnf"
]

unfoldable pub save_myaes_inf : Gemdos → ℤ → Res → Io ℤ
save_myaes_inf os sn r = save_config os sn (myaes_path os) myaes_keys (myaes_settings r)
