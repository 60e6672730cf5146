-- ===== src/Tests/Cards.antt =====
-- A run of the NVDIVGA driver on a file with one mode.
use chgres.Base.{
  ℕ, zero, suc, ◌≡◌, refl, inr, true, none, List, [], ◌∷◌, ◌++◌, arith, Bytes, length, drop,
  replicate,
}
use chgres.Base.Exec.{ok}
use chgres.CLib.{codes, str_eq}
use chgres.Gemdos.Load.{load_calls}
use chgres.Drivers.{Drivers}
use chgres.Base.Int.{pos, ◌-ℤ◌}
use chgres.Gemdos.{Call}
use chgres.Mode.{Res, new_mode, add_mode}
use chgres.Nvdivga.{Et4000, Cards, Fields, et4000modes, fields_at, create_nvdivga_mode}
use chgres.Nvdivga.Load.Files.{save_nvdivga_inf-HasBecome, create_nvdivga_mode-save_nvdivga_inf}
use chgres.Volume.{run, HasBecome}
use chgres.Volume.Memory.{memory, memory-IsLawful}
use chgres.Nvdivga.Vgainf.{sizeof_vgainf}
use chgres.Nvdivga.Block.{long_at, word_at}
use chgres.Nvdivga.Loop.{IsModes, last, create_all_modes}
use chgres.Nvdivga.Load.{
  assign_rez, remove_owned, with_nvdivga, nvdivga_inf, initres_nvdivga, save_nvdivga_inf,
}
use chgres.Nvdivga.Load.Laws.{initres_nvdivga-create_all_modes}
use chgres.Tests.Disk.{disk, disk-Loads, only, only-content}
use chgres.Tests.Tables.{table}

-- 640 x 480 in 4 planes, at 60 Hz, and no mode behind it.
abbrev vga_file : Bytes
vga_file =
    replicate 34 0
    ++ (0 ∷ 1 ∷ [])
    ++ replicate 32 0
    ++ (255 ∷ 255 ∷ 255 ∷ 255 ∷ [])
    ++ replicate 6 0
    ++ (2 ∷ 127 ∷ 1 ∷ 223 ∷ 2 ∷ 127 ∷ 1 ∷ 223 ∷ [])
    ++ replicate 4 0
    ++ (0 ∷ 4 ∷ [])
    ++ replicate 20 0
    ++ (2 ∷ 88 ∷ [])
    ++ replicate 54 0

-- The driver for 4 planes, at 1, and the bytes behind the table as a twelfth entry.
abbrev drivers : Drivers
drivers = [] ∷ codes "XVGA16.SYS" ∷ replicate 10 []

abbrev with_rez : ℕ → List Et4000 → List Et4000
with_rez i [] = []
with_rez zero (e ∷ es) = record e { rez = 1 } ∷ es
with_rez (suc i) (e ∷ es) = e ∷ with_rez i es

abbrev cards : Cards
cards = record { table = et4000modes; modes = table }

abbrev assigned_table : List Et4000
assigned_table = with_rez 1 et4000modes

one_mode : IsModes 4096 vga_file sizeof_vgainf (68 ∷ [])
unfolding long_at
one_mode = last (omega arith) (omega arith) refl

initres_nvdivga-create_all_modes_example :
    (c' : Cards) × (initres_nvdivga
        (disk vga_file)
        (codes "virtual")
        (λ t. true)
        4096
        2
        2
        drivers
        cards
        []
      ≡ ok ((with_nvdivga 2 true, c'), load_calls (disk vga_file) nvdivga_inf))
    × (create_all_modes
          (codes "virtual")
          (λ t. true)
          vga_file
          (68 ∷ [])
          (record { table = assigned_table; modes = remove_owned assigned_table table })
        ≡ ok c')
unfolding assign_rez et4000modes word_at str_eq
initres_nvdivga-create_all_modes_example =
    initres_nvdivga-create_all_modes (disk vga_file) (codes "virtual") (λ t. true) 4096 2 2 1
      drivers assigned_table cards vga_file (68 ∷ []) refl refl (omega arith)
      (disk-Loads nvdivga_inf vga_file) (omega arith) refl refl one_mode (omega arith)

-- The mode of the file, with a virtual screen of 1024 x 768.
abbrev wide_mode : Res
wide_mode =
    record (new_mode (codes "virtual") (pos 1024) (pos 768) (pos 4) (pos 1) (pos 0x4000) none) {
      mode_offset = pos 68;
    }

abbrev file_fields : Fields
file_fields = record {
  xres = 639;
  yres = 479;
  visible_xres = 639;
  visible_yres = 479;
  vfreq = 600;
  defmode = 0;
}

abbrev card : Et4000
card = record { index = 2; planes = 4; driver = codes "XVGA16.SYS"; rez = 1; count = 0 }

-- A second mode behind the first.
abbrev two_modes : Bytes
two_modes = vga_file ++ drop 68 vga_file

save_nvdivga_inf-HasBecome_example :
    (calls : List Call) × (new : Bytes) × (save_nvdivga_inf
        (disk two_modes)
        et4000modes
        wide_mode
        []
      ≡ ok (1, calls))
    × HasBecome memory
        (only nvdivga_inf two_modes)
        (run memory (disk two_modes) (only nvdivga_inf two_modes) calls)
        nvdivga_inf
        new
    × (length new ≡ length two_modes)
    × (fields_at new 68 1 ≡ ok (record file_fields { xres = 1023; yres = 767; defmode = 0xc000 }))
    × (fields_at new 168 2 ≡ fields_at two_modes 168 2)
unfolding et4000modes new_mode fields_at word_at ◌-ℤ◌
save_nvdivga_inf-HasBecome_example =
    save_nvdivga_inf-HasBecome memory-IsLawful (disk two_modes) (only nvdivga_inf two_modes)
      et4000modes wide_mode 1 68 two_modes file_fields 168 2 refl (omega arith) refl (omega arith)
      (omega arith) refl (only-content nvdivga_inf two_modes) refl (omega arith) (omega arith)
      (omega arith) (inr (omega arith))

create_nvdivga_mode-save_nvdivga_inf_example :
    (calls : List Call) × (new : Bytes) × (q : Res) × (save_nvdivga_inf
        (disk vga_file)
        et4000modes
        wide_mode
        []
      ≡ ok (1, calls))
    × HasBecome memory
        (only nvdivga_inf vga_file)
        (run memory (disk vga_file) (only nvdivga_inf vga_file) calls)
        nvdivga_inf
        new
    × (create_nvdivga_mode (codes "virtual") (λ t. true) new 68 1 card table
        ≡ ok (add_mode table 2 q))
    × (q.virt_hres ≡ pos 1024)
    × (q.virt_vres ≡ pos 768)
    × (q.hres ≡ pos 640)
    × (q.vres ≡ pos 480)
    × (q.mode_offset ≡ pos 68)
    × (q.flags ≡ 1)
unfolding et4000modes new_mode fields_at word_at
create_nvdivga_mode-save_nvdivga_inf_example =
    create_nvdivga_mode-save_nvdivga_inf memory-IsLawful (disk vga_file) (only nvdivga_inf vga_file)
      et4000modes wide_mode 1 68 vga_file file_fields (codes "virtual") (λ t. true) card table refl
      (omega arith) refl (omega arith) (omega arith) (omega arith) (omega arith) refl
      (only-content nvdivga_inf vga_file) refl refl
