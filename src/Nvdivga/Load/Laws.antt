-- ===== src/Nvdivga/Load/Laws.antt =====
-- `initres_nvdivga` on a file with modes.
use chgres.Base.{
  ℕ, ◌+◌, ◌≤◌, ◌<◌, ◌≡◌, refl, inl, inr, Bool, true, false, List, [], arith, Bool-cases, Bytes,
  length,
}
use chgres.Base.Int.{pos, ltb_ℤ}
use chgres.Base.Exec.{ok}
use chgres.Gemdos.{◌>>=◌, Gemdos}
use chgres.Gemdos.Load.{Loads, load_calls, load_file-Loads}
use chgres.Machine.{has_bit}
use chgres.Mode.{Modes}
use chgres.Drivers.{Drivers}
use chgres.Nvdivga.{Et4000, Cards, no_mode}
use chgres.Nvdivga.Vgainf.{sizeof_vgainf, vgainf_nummodes}
use chgres.Nvdivga.Block.{word_at, short_of}
use chgres.Nvdivga.Loop.{IsModes, create_all_modes}
use chgres.Nvdivga.Walk.{mode_loop-create_all_modes}
use chgres.Nvdivga.Load.{
  assign_rez, remove_owned, with_nvdivga, nvdivga_inf, read_modes, initres_nvdivga, with_driver,
}

with_nvdivga_bit : (sys : ℕ) → has_bit (with_nvdivga sys true) 2 ≡ true
with_nvdivga_bit sys = elim (Bool-cases (has_bit sys 2)) [
  | inl there ↦ rw there there
  | inr absent ↦ rw absent (added sys absent)
]
  where
    added : (sys : ℕ) → has_bit sys 2 ≡ false → has_bit (sys + 4) 2 ≡ true
    added sys e = ground arith

-- The part behind the test for a driver, on a file that is loaded.
with_driver-Loads :
    (os : Gemdos) (virtual : Bytes) (memory : Modes → Bool) (base fuel sys : ℕ) (c c' : Cards)
    (buf : Bytes)
    → Loads os nvdivga_inf buf
    → read_modes os virtual memory base fuel buf c ≡ ok c'
    → with_driver os virtual memory base fuel sys c [] ≡ ok ((sys, c'), load_calls os nvdivga_inf)
with_driver-Loads os virtual memory base fuel sys c c' buf loads e =
    rw (with_driver, ◌>>=◌, load_file-Loads os nvdivga_inf buf loads, ◌>>=◌, e) refl

-- If NVDI runs, a driver of the table is registered, and nvdivga.inf is loaded, with a number of modes
-- above 0 and with modes at the offsets `ats`, the first behind the header, then with fuel for more
-- rounds than there are modes `initres_nvdivga` ends. It notes that NVDIVGA is used; the modes of the
-- depths with a driver are those removed, and the modes of the file are created as they stand in it.
pub initres_nvdivga-create_all_modes :
    (os : Gemdos) (virtual : Bytes) (memory : Modes → Bool) (base fuel sys_vdi n : ℕ)
    (drivers : Drivers) (table : List Et4000) (c : Cards) (buf : Bytes) (ats : List ℕ)
    → has_bit sys_vdi 1 ≡ true
    → assign_rez drivers c.table ≡ ok (table, true)
    → length table ≤ 15
    → Loads os nvdivga_inf buf
    → base + length buf < no_mode
    → word_at buf vgainf_nummodes ≡ ok n
    → ltb_ℤ (pos 0) (short_of n) ≡ true
    → IsModes base buf sizeof_vgainf ats
    → length ats < fuel
    → (c' : Cards) × (initres_nvdivga os virtual memory base fuel sys_vdi drivers c []
        ≡ ok ((with_nvdivga sys_vdi true, c'), load_calls os nvdivga_inf))
      × (create_all_modes virtual memory buf ats
            (record { table = table; modes = remove_owned table c.modes })
          ≡ ok c')
unfolding initres_nvdivga read_modes
initres_nvdivga-create_all_modes os virtual memory base fuel sys_vdi n drivers table c buf ats nvdi
      assigned short loads fits number positive modes l =
    let start : Cards = record { table = table; modes = remove_owned table c.modes } in
    let (c', done, created) =
      mode_loop-create_all_modes virtual memory base buf fits fuel start modes short l in
    let read : read_modes os virtual memory base fuel buf start ≡ ok c' =
      rw (number, positive, done) refl in
    (
      c',
      rw (nvdi, assigned, with_nvdivga_bit sys_vdi)
          (with_driver-Loads os virtual memory base fuel (with_nvdivga sys_vdi true) start c' buf
            loads read),
      created,
    )
