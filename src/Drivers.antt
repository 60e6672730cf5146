-- ===== src/Drivers.antt =====
-- The names of the drivers in ASSIGN.SYS: `read_assign_sys` of save.c fills the table `gdos_drivers`,
-- and `get_gdos_driver` of res.c looks a name up. An entry of the table is a C string.
pub mod Laws
use chgres.Base.{
  ℕ, zero, suc, ◌+◌, ◌-◌, ◌*◌, ◌/◌, ◌%◌, ◌^◌, ◌≤◌, ◌<◌, min, ◌≡◌, refl, sym, ap, ◌∙◌, ◌≢◌, ◌↔◌, ◌⊎◌,
  inl, inr, Bool, true, false, not, ◌&&◌, ◌||◌, Option, none, some, List, [], ◌∷◌, ◌++◌, map, arith,
  ltb, leb, ◌==◌, if◌then◌else◌, ltb→lt, lt→ltb, leb→le, ==_iff, Bool-cases, Option-cases, Bytes,
  length, get_elem?, set, get_or, take, drop, replicate, length-append, length-set,
  get_elem?-set_self, get_elem?-set_ne, take-append-drop, length-take, length-drop,
  length-replicate, length-map, tests, or_else,
}
use chgres.Base.Int.{ℤ, pos, negsuc, sub_ℕ, ltb_ℤ}
use chgres.Base.Exec.{Exec, and_then, ok, fault, timeout}
use chgres.CLib.{codes, strupr, strstr, atoi, str_eq}
use chgres.Gemdos.{Gemdos, Io, ◌>>=◌, return, load_file, unless_null, lift}
use chgres.Save.Process.{get_system_drive, c_string}
use chgres.Text.{Line, next_line}

abbrev pub Drivers : Type 0
Drivers = List Bytes

-- `gdos_drivers` at first: 11 entries of 0.
unfoldable pub gdos_drivers : Drivers
gdos_drivers = replicate 11 []

-- `buf`: 512 bytes of the file for a line that is longer than 511, and its 511 at most; a copy that
-- goes on behind the file is a fault.
unfoldable pub line_string : Bytes → Line → Exec Bytes
line_string p l =
    let copied = if leb 512 l.valid then 512 else l.valid in
    if leb copied (length p) then ok (strupr (c_string 512 (take (min l.valid 511) p))) else fault

-- From the place of ".SYS" back to the byte behind the first that is not from '0' to 'Z'; `none` if the
-- line begins before.
unfoldable pub name_start : Bytes → ℕ → Option ℕ
name_start text zero = none
name_start text (suc k) =
    let rest = name_start text k in
    let c = get_or text k 0 in if ltb c b'0' || ltb b'Z' c then some (suc k) else rest

-- The cast of `atoi` to `short`, as a residue: the values from 1 to 10 are those of the `short`.
abbrev pub short_id : ℤ → ℕ
short_id (pos n) = n % 2 ^ 16
short_id (negsuc n) = 2 ^ 16 - 1 - n % 2 ^ 16

-- `strncpy(gdos_drivers[id], ..., 13)`; an entry outside the table is a fault.
abbrev pub stored : Drivers → ℕ → Bytes → Exec Drivers
stored t id name = if ltb id (length t) then ok (set t id (c_string 13 name)) else fault

-- The name is stored if the number is in the range.
unfoldable pub registered : Drivers → ℕ → Bytes → Exec Drivers
registered t id name = if ltb 0 id && ltb id 11 then stored t id name else ok t

abbrev pub register_name : Drivers → Bytes → Option ℕ → Exec Drivers
register_name t text none = ok t
register_name t text (some k) = registered t (short_id (atoi text)) (drop k text)

abbrev pub register_at : Drivers → Bytes → Option ℕ → Exec Drivers
register_at t text none = ok t
register_at t text (some k) = register_name t text (name_start text k)

-- What is done with a line.
unfoldable pub register_line : Drivers → Bytes → Exec Drivers
unfolding registered
register_line t text = register_at t text (strstr text (codes ".SYS"))

abbrev pub for_line : Exec Line → (Line → Exec Drivers) → Exec Drivers
for_line (ok l) body = body l
for_line fault body = fault
for_line timeout body = timeout

unfoldable pub assign_loop : ℕ → Bytes → ℕ → Drivers → Exec Drivers
unfolding line_string register_line
assign_loop zero p size t = timeout
assign_loop (suc fuel) p size t = for_line (next_line p size) λ l.
    and_then (line_string p l) λ text. and_then (register_line t text) λ t'.
      let rest = assign_loop fuel (drop l.len p) (size - l.len) t' in
      if ltb_ℤ (pos 0) (sub_ℕ size l.len) && ltb 0 l.len then rest else ok t'

abbrev pub assign_sys : Bytes
assign_sys = get_system_drive ++ codes "\\assign.sys"

unfoldable pub read_assign_sys : Gemdos → Drivers → Io Drivers
read_assign_sys os t = do
  loaded ← load_file os assign_sys
  unless_null loaded (return t) λ buf. lift (assign_loop (suc (length buf)) buf (length buf) t)

abbrev pub at_entry : Option Bytes → (Bytes → Exec ℕ) → Exec ℕ
at_entry none body = fault
at_entry (some s) body = body s

-- The loop from `i` on, with `n` rounds left; an entry outside the table is read.
unfoldable pub driver_loop : ℕ → ℕ → Drivers → Bytes → Exec ℕ
driver_loop zero i t name = ok 0
driver_loop (suc n) i t name =
    let rest = driver_loop n (suc i) t name in
    at_entry (get_elem? t i) λ s. if str_eq s name then ok i else rest

unfoldable pub get_gdos_driver : Drivers → Bytes → Exec ℕ
unfolding driver_loop
get_gdos_driver t name = driver_loop 11 1 t name
