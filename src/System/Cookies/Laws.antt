-- ===== src/System/Cookies/Laws.antt =====
-- The search of the cookie jar, and the systems that `setup` can find.
use chgres.Base.{
  ℕ, ◌≡◌, refl, ◌≢◌, inl, inr, Bool, true, false, not, ◌&&◌, ◌||◌, some, [], ◌∷◌, ◌++◌, arith, ◌==◌,
  if◌then◌else◌, Bool-cases,
}
use chgres.Base.Int.{pos, ltb_ℤ}
use chgres.CLib.{codes}
use chgres.Gemdos.{Gemdos, positive}
use chgres.Machine.{
  f_system_tos, f_system_emutos, f_system_magic, f_system_geneva, f_system_mint_aes,
  f_system_mint_naes, f_system_mint_xaaes, f_system_mint_myaes, f_vdi_atari, f_vdi_nvdi, f_vdi_fvdi,
}
use chgres.Save.Process.{get_process_id}
use chgres.System.Cookies.{
  Jar, Boot, cookie_loop, get_cookie, has_cookie, naes_runs, mint_aes, detect_aes, with_new_aes,
  detect_vdi, setup, emutos_version, is_pos,
}

-- No cookie has the name 0 or the name `id`.
abbrev pub NotNamed : ℕ → Jar → Type 0
NotNamed id [] = Unit
NotNamed id ((name, value) ∷ jar) = (name ≢ 0) × (name ≢ id) × NotNamed id jar

cookie_loop-found :
    (before : Jar) (id value : ℕ) (rest : Jar)
    → id ≢ 0
    → NotNamed id before
    → cookie_loop (before ++ (id, value) ∷ rest) id ≡ value
unfolding cookie_loop
cookie_loop-found [] id value rest h n = ground arith
cookie_loop-found ((name, v) ∷ before) id value rest h n =
    ground (arith, cookie_loop-found before id value rest h n.2)

cookie_loop-absent :
    (jar : Jar) (id more : ℕ) (rest : Jar)
    → NotNamed id jar
    → cookie_loop (jar ++ (0, more) ∷ rest) id ≡ 0
unfolding cookie_loop
cookie_loop-absent [] id more rest n = refl
cookie_loop-absent ((name, v) ∷ jar) id more rest n =
    ground (arith, cookie_loop-absent jar id more rest n.2)

-- `get_cookie` gives the value of the first cookie with the name, if that is not 0 and no cookie in
-- front of it has the name 0; and it gives 0 if the jar ends, with the name 0, before the name comes.
get_cookie_lem :
    (before : Jar) (id value more : ℕ) (rest : Jar)
    → id ≢ 0
    → NotNamed id before
    → (get_cookie (some (before ++ (id, value) ∷ rest)) id ≡ value)
      × (get_cookie (some (before ++ (0, more) ∷ rest)) id ≡ 0)
unfolding get_cookie
get_cookie_lem before id value more rest h n =
    (cookie_loop-found before id value rest h n, cookie_loop-absent before id more rest n)

abbrev pub known_aes : ℕ → Bool
known_aes sys =
    sys == f_system_tos
    || sys == f_system_emutos
    || sys == f_system_magic
    || sys == f_system_geneva
    || sys == f_system_mint_aes
    || sys == f_system_mint_naes
    || sys == f_system_mint_xaaes
    || sys == f_system_mint_myaes

abbrev pub known_vdi : ℕ → Bool
known_vdi vdi = vdi == f_vdi_atari || vdi == f_vdi_nvdi || vdi == f_vdi_fvdi

if_known :
    (b : Bool) (x y : ℕ)
    → known_aes x ≡ true
    → known_aes y ≡ true
    → known_aes (if b then x else y) ≡ true
if_known true x y h k = h
if_known false x y h k = k

pub mint_aes_known : (os : Gemdos) (b : Boot) → known_aes (mint_aes os b) ≡ true
unfolding mint_aes
mint_aes_known os b = if_known (positive (get_process_id os (codes "myaes"))) _ _ refl (
    if_known (positive (get_process_id os (codes "XaSYS"))) _ _ refl
      (if_known (naes_runs b) _ _ refl refl))

detect_aes_known : (os : Gemdos) (b : Boot) → known_aes (detect_aes os b) ≡ true
unfolding detect_aes
detect_aes_known os b = if_known (has_cookie b (codes "Gnva")) _ _ refl (
    if_known (has_cookie b (codes "MiNT")) _ _ (mint_aes_known os b) (
      if_known (has_cookie b (codes "MagX")) _ _ refl
        (if_known (is_pos (emutos_version b) 0) _ _ refl refl)))

detect_vdi_known : (b : Boot) → known_vdi (detect_vdi b) ≡ true
unfolding detect_vdi
detect_vdi_known b = elim (Bool-cases (has_cookie b (codes "fVDI"))) [
  | inl e ↦ rw e refl
  | inr e ↦ elim (Bool-cases (has_cookie b (codes "NVDI"))) [
    | inl f ↦ rw (e, f) refl
    | inr f ↦ rw (e, f) refl
  ]
]

-- On every machine `setup` sets `sys_aes` to one of the eight codes that `save` knows and `sys_vdi` to
-- one of three, and never to EmuTOS together with an AES of version 4 or above.
pub setup_known :
    (os : Gemdos) (b : Boot)
    → (known_aes (setup os b).sys_aes ≡ true)
      × (known_vdi (setup os b).sys_vdi ≡ true)
      × (((setup os b).sys_aes == f_system_emutos && not (ltb_ℤ (setup os b).aes_ver (pos 0x400)))
          ≡ false)
unfolding setup with_new_aes
setup_known os b = (
  if_known (detect_aes os b == f_system_emutos && not (ltb_ℤ b.aes_global_0 (pos 0x400)))
      f_system_tos (detect_aes os b) refl (detect_aes_known os b),
  detect_vdi_known b,
  not_both (ltb_ℤ b.aes_global_0 (pos 0x400)) (detect_aes os b),
)
  where
    not_both :
        (old : Bool) (sys : ℕ)
        → ((if sys == f_system_emutos && not old then f_system_tos else sys) == f_system_emutos
            && not old)
          ≡ false
    not_both old sys = ground arith
