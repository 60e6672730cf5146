-- ===== src/Nvdivga/Load.antt =====
-- `initres_nvdivga` and `save_nvdivga_inf` of res.c. `base` is the address of the block that `load_file`
-- gives; `drivers` is the table `gdos_drivers` with what stands behind it.
pub mod Laws
pub mod Edited
pub mod Files
use chgres.Base.{
  ℕ, zero, suc, ◌+◌, ◌-◌, ◌*◌, ◌/◌, ◌%◌, ◌^◌, ◌≤◌, ◌<◌, min, ◌≡◌, refl, sym, ap, ◌∙◌, ◌≢◌, ◌↔◌, ◌⊎◌,
  inl, inr, Bool, true, false, not, ◌&&◌, ◌||◌, Option, none, some, List, [], ◌∷◌, ◌++◌, map, arith,
  ltb, leb, ◌==◌, if◌then◌else◌, ltb→lt, lt→ltb, leb→le, ==_iff, Bool-cases, Option-cases, Bytes,
  length, get_elem?, set, get_or, take, drop, replicate, length-append, length-set,
  get_elem?-set_self, get_elem?-set_ne, take-append-drop, length-take, length-drop,
  length-replicate, length-map, tests,
}
use chgres.Base.Int.{ℤ, pos, negsuc, ltb_ℤ, ◌-ℤ◌, pos_part}
use chgres.Base.Exec.{Exec, ok, and_then}
use chgres.CLib.{codes}
use chgres.Gemdos.{
  Gemdos, Io, ◌>>=◌, ◌>>◌, return, load_file, unless_null, lift, call, positive, written, sought,
  closed, opened,
}
use chgres.Save.Process.{get_system_drive}
use chgres.Machine.{f_vdi_nvdi, f_vdi_nvdivga, has_bit}
use chgres.Mode.{Res, Modes, remove_modes, eq_ℤ}
use chgres.Drivers.{Drivers, get_gdos_driver}
use chgres.Nvdivga.{Et4000, Cards, mode_loop}
use chgres.Nvdivga.Vgainf.{sizeof_vgainf, vgainf_nummodes, vgainf_defmode, vga_xres}
use chgres.Nvdivga.Block.{word_at, short_of}

abbrev entry_assigned : Et4000 → ℕ → List Et4000 × Bool → List Et4000 × Bool
entry_assigned e j (es, any) = (record e { rez = j } ∷ es, ltb 0 j || any)

-- The loop that puts the numbers of the drivers into the table; whether there is any.
unfoldable pub assign_rez : Drivers → List Et4000 → Exec (List Et4000 × Bool)
unfolding get_gdos_driver
assign_rez drivers [] = ok ([], false)
assign_rez drivers (e ∷ es) =
    and_then (get_gdos_driver drivers e.driver)
      λ j. and_then (assign_rez drivers es) λ r. ok (entry_assigned e j r)

-- The modes of the depths that have a driver are removed.
unfoldable pub remove_owned : List Et4000 → Modes → Modes
unfolding remove_modes
remove_owned [] t = t
remove_owned (e ∷ es) t = remove_owned es (if ltb 0 e.rez then remove_modes t e.index else t)

-- `sys_vdi |= F_VDI_NVDIVGA`, if there is a driver.
abbrev pub with_nvdivga : ℕ → Bool → ℕ
with_nvdivga sys_vdi any =
    if any && not (has_bit sys_vdi 2) then sys_vdi + f_vdi_nvdivga else sys_vdi

abbrev pub nvdivga_inf : Bytes
nvdivga_inf = get_system_drive ++ codes "\\auto\\nvdivga.inf"

module _ (os : Gemdos) (virtual : Bytes) (memory : Modes → Bool) (base fuel : ℕ) where
  -- What is done with the file.
  unfoldable pub read_modes : Bytes → Cards → Exec Cards
  unfolding word_at mode_loop
  read_modes buf c = and_then (word_at buf vgainf_nummodes) λ n.
      let rest = mode_loop virtual memory fuel base (base + sizeof_vgainf) buf c in
      if ltb_ℤ (pos 0) (short_of n) then rest else ok c

  abbrev with_driver : ℕ → Cards → Io (ℕ × Cards)
  with_driver sys_vdi c = do
    loaded ← load_file os nvdivga_inf
    unless_null loaded (return (sys_vdi, c))
        λ buf. do c' ← lift (read_modes buf c); return (sys_vdi, c')

  abbrev with_table : ℕ → Modes → List Et4000 × Bool → Io (ℕ × Cards)
  with_table sys_vdi t (table, any) =
      let sys = with_nvdivga sys_vdi any in
      if has_bit sys 2
      then with_driver sys (record { table = table; modes = remove_owned table t })
      else return (sys, record { table = table; modes = t })

  -- The result is `sys_vdi`, the table of the cards and the modes; `*outrez` and `*outmode` stay.
  unfoldable pub initres_nvdivga : ℕ → Drivers → Cards → Io (ℕ × Cards)
  unfolding assign_rez remove_owned read_modes
  initres_nvdivga sys_vdi drivers c =
      let nvdi : Io (ℕ × Cards) = (do
        assigned ← lift (assign_rez drivers c.table)
        with_table sys_vdi c.modes assigned) in
      if has_bit sys_vdi 1 then nvdi else return (sys_vdi, c)

-- A `short` as its 16 bits.
abbrev pub word_of : ℤ → ℕ
word_of (pos n) = n % 65536
word_of (negsuc n) = 65535 - n % 65536

abbrev pub word_bytes : ℕ → Bytes
word_bytes n = n / 256 % 256 ∷ n % 256 ∷ []

-- `vmode | 0xc000`
abbrev pub as_default : ℤ → ℕ
as_default vmode = word_of vmode % 16384 + 0xc000

-- The loop over the table: the default mode of the mode's depth, the entry `i` of the header.
unfoldable pub write_defmode : ℤ → Res → ℕ → List Et4000 → Io (Unit {0})
write_defmode fd r i [] = return tt
write_defmode fd r i (e ∷ es) =
    let rest = write_defmode fd r (suc i) es in
    if eq_ℤ (pos e.planes) r.planes
    then (do
      call (sought fd (vgainf_defmode + 2 * i))
      call (written fd (word_bytes (as_default r.vmode))))
    else rest

-- `save_nvdivga_inf`, which nothing calls. No mode has an offset below 0.
unfoldable pub save_nvdivga_inf : Gemdos → List Et4000 → Res → Io ℕ
unfolding write_defmode
save_nvdivga_inf os table r =
    let fd = os.fopen nvdivga_inf 1 in
    let size =
      word_bytes (word_of (r.virt_hres -ℤ pos 1)) ++ word_bytes (word_of (r.virt_vres -ℤ pos 1)) in
    let done : Io ℕ = (do
      call (opened nvdivga_inf 1)
      write_defmode fd r 0 table
      call (sought fd (vga_xres + pos_part r.mode_offset))
      call (written fd size)
      call (closed fd)
      return 1) in
    if positive fd then done else (do call (opened nvdivga_inf 1); return 0)
