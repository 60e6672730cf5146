-- ===== src/Machine.antt =====
-- The codes of extern.h for the AES and the VDI that the program runs on, and the globals of
-- chgres.c that hold them.
use chgres.Base.{ℕ, ◌/◌, ◌%◌, ◌^◌, Bool, ◌||◌, ◌==◌}

abbrev pub f_vdi_atari : ℕ
f_vdi_atari = 1

abbrev pub f_vdi_nvdi : ℕ
f_vdi_nvdi = 2

abbrev pub f_vdi_nvdivga : ℕ
f_vdi_nvdivga = 4

abbrev pub f_vdi_fvdi : ℕ
f_vdi_fvdi = 8

abbrev pub f_system_tos : ℕ
f_system_tos = 1

abbrev pub f_system_emutos : ℕ
f_system_emutos = 3

abbrev pub f_system_magic : ℕ
f_system_magic = 4

abbrev pub f_system_geneva : ℕ
f_system_geneva = 8

abbrev pub f_system_mint_aes : ℕ
f_system_mint_aes = 16

abbrev pub f_system_mint_naes : ℕ
f_system_mint_naes = 32

abbrev pub f_system_mint_xaaes : ℕ
f_system_mint_xaaes = 64

abbrev pub f_system_mint_myaes : ℕ
f_system_mint_myaes = 128

-- The flag with the value `2 ^ k`, tested in `word`.
abbrev pub has_bit : ℕ → ℕ → Bool
has_bit word k = word / 2 ^ k % 2 == 1

-- `sys_aes & F_SYSTEM_MINT`
abbrev pub is_mint : ℕ → Bool
is_mint sys = has_bit sys 4 || has_bit sys 5 || has_bit sys 6 || has_bit sys 7
