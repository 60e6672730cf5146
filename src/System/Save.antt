-- ===== src/System/Save.antt =====
-- `save` of chgres.c: the routine that saves the mode on this system.
pub mod Laws
use chgres.Base.{
  ℕ, zero, suc, ◌+◌, ◌-◌, ◌*◌, ◌/◌, ◌%◌, ◌^◌, ◌≤◌, ◌<◌, min, ◌≡◌, refl, sym, ap, ◌∙◌, ◌≢◌, ◌↔◌, ◌⊎◌,
  inl, inr, Bool, true, false, not, ◌&&◌, ◌||◌, Option, none, some, List, [], ◌∷◌, ◌++◌, map, arith,
  ltb, leb, ◌==◌, if◌then◌else◌, ltb→lt, lt→ltb, leb→le, ==_iff, Bool-cases, Option-cases, Bytes,
  length, get_elem?, set, get_or, take, drop, replicate, length-append, length-set,
  get_elem?-set_self, get_elem?-set_ne, take-append-drop, length-take, length-drop,
  length-replicate, length-map, tests,
}
use chgres.Base.Int.{ℤ, pos, negsuc}
use chgres.Gemdos.{Gemdos, Io, ◌>>=◌, return}
use chgres.Machine.{
  f_system_tos, f_system_emutos, f_system_magic, f_system_geneva, f_system_mint_aes,
  f_system_mint_naes, f_system_mint_xaaes, f_system_mint_myaes, f_vdi_fvdi,
}
use chgres.Mode.{Res}
use chgres.Save.Config.{save_xaaes_inf, save_myaes_inf}
use chgres.Save.Desk.{save_newdesk_inf, save_emudesk_inf, save_naes_inf, is_zero}
use chgres.Save.Fvdi.{save_fvdi_inf}
use chgres.Save.Magx.{save_magx_inf}

-- `… ? 1 : otherwise`
abbrev pub one_or : ℤ → Io ℤ → Io ℤ
one_or otherwise m = m >>= λ z. return (if is_zero z then otherwise else pos 1)

-- `sn` is the value that the local variable of `save_xaaes_inf` or `save_myaes_inf` has at first.
unfoldable pub save : Gemdos → ℕ → ℕ → ℤ → Res → Io ℤ
save os sys_vdi sys_aes sn r =
    if sys_vdi == f_vdi_fvdi
    then save_fvdi_inf os r
    else if sys_aes == f_system_tos
    then one_or (negsuc 0) (save_newdesk_inf os sys_aes r)
    else if sys_aes == f_system_emutos
    then one_or (negsuc 0) (save_emudesk_inf os sys_aes r)
    else if sys_aes == f_system_geneva
    then return (negsuc 0)
    else if sys_aes == f_system_magic
    then one_or (pos 0) (save_magx_inf os r)
    else if sys_aes == f_system_mint_aes
    then one_or (pos 0) (save_newdesk_inf os sys_aes r)
    else if sys_aes == f_system_mint_naes
    then one_or (pos 0) (save_naes_inf os sys_aes r)
    else if sys_aes == f_system_mint_xaaes
    then one_or (negsuc 0) (save_xaaes_inf os sn r)
    else if sys_aes == f_system_mint_myaes
    then one_or (pos 0) (save_myaes_inf os sn r)
    else return (negsuc 0)
