-- ===== src/System/Cookies.antt =====
-- `get_cookie` and `setup` of chgres.c. The cookie jar, the header of the system and the answers of the
-- AES and of GEMDOS are arguments; a `long` of the jar is a natural number below 2 ^ 32.
pub mod Laws
use chgres.Base.{
  ℕ, zero, suc, ◌+◌, ◌-◌, ◌*◌, ◌/◌, ◌%◌, ◌^◌, ◌≤◌, ◌<◌, min, ◌≡◌, refl, sym, ap, ◌∙◌, ◌≢◌, ◌↔◌, ◌⊎◌,
  inl, inr, Bool, true, false, not, ◌&&◌, ◌||◌, Option, none, some, List, [], ◌∷◌, ◌++◌, map, arith,
  ltb, leb, ◌==◌, if◌then◌else◌, ltb→lt, lt→ltb, leb→le, ==_iff, Bool-cases, Option-cases, Bytes,
  length, get_elem?, set, get_or, take, drop, replicate, length-append, length-set,
  get_elem?-set_self, get_elem?-set_ne, take-append-drop, length-take, length-drop,
  length-replicate, length-map, tests,
}
use chgres.Base.Int.{ℤ, pos, negsuc, ltb_ℤ}
use chgres.CLib.{codes}
use chgres.Gemdos.{Gemdos, positive}
use chgres.Machine.{
  f_system_tos, f_system_emutos, f_system_magic, f_system_geneva, f_system_mint_aes,
  f_system_mint_naes, f_system_mint_xaaes, f_system_mint_myaes, f_vdi_atari, f_vdi_nvdi, f_vdi_fvdi,
  has_bit,
}
use chgres.Save.Process.{get_process_id}

-- The pairs of the jar before the one with the name 0.
abbrev pub Jar : Type 0
Jar = List (ℕ × ℕ)

unfoldable pub cookie_loop : Jar → ℕ → ℕ
cookie_loop [] id = 0
cookie_loop ((name, value) ∷ jar) id =
    let rest = cookie_loop jar id in if name == 0 then 0 else if name == id then value else rest

-- `none` is a jar pointer of 0.
unfoldable pub get_cookie : Option Jar → ℕ → ℕ
unfolding cookie_loop
get_cookie none id = 0
get_cookie (some jar) id = cookie_loop jar id

-- A constant of four characters, as the compiler reads it.
abbrev pub id_of : ℕ → Bytes → ℕ
id_of n [] = n
id_of n (c ∷ s) = id_of (n * 256 + c) s

abbrev pub name_of : Bytes → ℕ
name_of s = id_of 0 s

-- The cast to WORD of a long.
abbrev pub word : ℕ → ℤ
word n = let w = n % 2 ^ 16 in if ltb w (2 ^ 15) then pos w else negsuc (2 ^ 16 - 1 - w)

-- Division in C rounds towards 0.
abbrev pub div_ten : ℤ → ℤ
div_ten (pos n) = pos (n / 10)
div_ten (negsuc n) = if ltb n 9 then pos 0 else negsuc (suc n / 10 - 1)

-- What `setup` reads.
pub record Boot : Type 0 where
  pub jar : Option Jar
  pub os_version : ℤ
  pub is_etos : Bool
  pub aes_global_0 : ℤ
  pub peek : ℕ → ℕ

-- The globals that it sets.
pub record System : Type 0 where
  pub vdo : ℤ
  pub cpu : ℤ
  pub mch : ℤ
  pub tos_version : ℤ
  pub tos_emutos : ℤ
  pub aes_ver : ℤ
  pub sys_aes : ℕ
  pub sys_vdi : ℕ

abbrev pub is_pos : ℤ → ℕ → Bool
is_pos (pos n) m = n == m
is_pos (negsuc n) m = false

-- `get_cookie(…) != 0`
abbrev pub has_cookie : Boot → Bytes → Bool
has_cookie b s = not (get_cookie b.jar (name_of s) == 0)

-- N.AES has its bit 15 at the word 3 of its header clear.
abbrev pub naes_runs : Boot → Bool
naes_runs b =
    let header = get_cookie b.jar (name_of (codes "nAES")) in
    not (header == 0) && not (has_bit (b.peek (header + 6)) 15)

-- The AES under MiNT.
unfoldable pub mint_aes : Gemdos → Boot → ℕ
unfolding get_cookie
mint_aes os b =
    if positive (get_process_id os (codes "myaes"))
    then f_system_mint_myaes
    else if positive (get_process_id os (codes "XaSYS"))
    then f_system_mint_xaaes
    else if naes_runs b
    then f_system_mint_naes
    else f_system_mint_aes

abbrev pub emutos_version : Boot → ℤ
emutos_version b = if b.is_etos then b.os_version else pos 0

unfoldable pub detect_aes : Gemdos → Boot → ℕ
unfolding get_cookie mint_aes
detect_aes os b =
    if has_cookie b (codes "Gnva")
    then f_system_geneva
    else if has_cookie b (codes "MiNT")
    then mint_aes os b
    else if has_cookie b (codes "MagX")
    then f_system_magic
    else if is_pos (emutos_version b) 0
    then f_system_tos
    else f_system_emutos

-- EmuTOS with an AES of version 4 counts as TOS.
unfoldable pub with_new_aes : ℤ → ℕ → ℕ
with_new_aes aes_ver sys =
    if sys == f_system_emutos && not (ltb_ℤ aes_ver (pos 0x400)) then f_system_tos else sys

unfoldable pub detect_vdi : Boot → ℕ
unfolding get_cookie
detect_vdi b =
    if has_cookie b (codes "fVDI")
    then f_vdi_fvdi
    else if has_cookie b (codes "NVDI")
    then f_vdi_nvdi
    else f_vdi_atari

unfoldable pub setup : Gemdos → Boot → System
unfolding get_cookie detect_aes with_new_aes detect_vdi
setup os b =
    let cpu = div_ten (word (get_cookie b.jar (name_of (codes "_CPU")))) in
    let mch = word (get_cookie b.jar (name_of (codes "_MCH")) / 2 ^ 16) in
    let vdo = word (get_cookie b.jar (name_of (codes "_VDO")) / 2 ^ 16) in
    record {
      vdo = if is_pos cpu 8 || is_pos mch 6 then pos 6 else vdo;
      cpu = cpu;
      mch = mch;
      tos_version = b.os_version;
      tos_emutos = emutos_version b;
      aes_ver = b.aes_global_0;
      sys_aes = with_new_aes b.aes_global_0 (detect_aes os b);
      sys_vdi = detect_vdi b;
    }
