-- ===== src/Nvdivga.antt =====
-- The NVDIVGA driver of res.c: its modes are read from nvdivga.inf, a file that is loaded and whose
-- offsets are made addresses in place. The offsets are those of the structures of vgainf.h on the
-- 68000; `base` is the address of the block.
pub mod Vgainf
pub mod Block
pub mod Relocate
pub mod Loop
pub mod Walk
pub mod Load
use chgres.Base.{
  ℕ, zero, suc, ◌+◌, ◌-◌, ◌*◌, ◌/◌, ◌%◌, ◌^◌, ◌≤◌, ◌<◌, min, ◌≡◌, refl, sym, ap, ◌∙◌, ◌≢◌, ◌↔◌, ◌⊎◌,
  inl, inr, Bool, true, false, not, ◌&&◌, ◌||◌, Option, none, some, List, [], ◌∷◌, ◌++◌, map, arith,
  ltb, leb, ◌==◌, if◌then◌else◌, ltb→lt, lt→ltb, leb→le, ==_iff, Bool-cases, Option-cases, Bytes,
  length, get_elem?, set, get_or, take, drop, replicate, length-append, length-set,
  get_elem?-set_self, get_elem?-set_ne, take-append-drop, length-take, length-drop,
  length-replicate, length-map, tests,
}
use chgres.Base.Int.{ℤ, pos, negsuc, ltb_ℤ}
use chgres.Base.Exec.{Exec, ok, fault, timeout, ◌>>=◌}
use chgres.CLib.{codes, print_width_d}
use chgres.Mode.{Res, Modes, add_mode, with_virtual, eq_ℤ}
use chgres.Nvdivga.Vgainf.{
  sizeof_vgainf, vgainf_nummodes, vgainf_defmode, vga_next, vga_modename, vga_xres, vga_yres,
  vga_visible_xres, vga_visible_yres, vga_planes, vga_vfreq, vga_ts_regs, vga_crtc_regs,
  vga_atc_regs, vga_gdc_regs,
}
use chgres.Nvdivga.Block.{word_at, long_at, put_long, short_of}

-- `struct et4000mode`
pub record Et4000 : Type 0 where
  pub index : ℕ
  pub planes : ℕ
  pub driver : Bytes
  pub rez : ℕ
  pub count : ℕ

abbrev et4000 : ℕ → ℕ → Bytes → Et4000
et4000 i p d = record { index = i; planes = p; driver = d; rez = 0; count = 0 }

unfoldable pub et4000modes : List Et4000
et4000modes =
    et4000 0 1 (codes "XVGA2.SYS")
    ∷ et4000 2 4 (codes "XVGA16.SYS")
    ∷ et4000 3 8 (codes "XVGA256.SYS")
    ∷ et4000 4 15 (codes "XVGA32K.SYS")
    ∷ et4000 5 16 (codes "XVGA65K.SYS")
    ∷ et4000 6 24 (codes "XVGA16M.SYS")
    ∷ []

-- `(struct vgainf_mode *)-1`
abbrev pub no_mode : ℕ
no_mode = 0xffffffff

abbrev pub svext : ℕ
svext = 0x4000

-- One more, as the `short` that a field holds.
abbrev pub plus_one : ℕ → ℤ
plus_one n = short_of ((n + 1) % 65536)

-- What `create_nvdivga_mode` reads of a mode and of the header.
pub record Fields : Type 0 where
  pub xres : ℕ
  pub yres : ℕ
  pub visible_xres : ℕ
  pub visible_yres : ℕ
  pub vfreq : ℕ
  pub defmode : ℕ

unfoldable pub fields_at : Bytes → ℕ → ℕ → Exec Fields
unfolding word_at
fields_at buf at idx = word_at buf (at + vga_xres) >>= λ x. word_at buf (at + vga_yres) >>= λ y.
    word_at buf (at + vga_visible_xres) >>= λ vx. word_at buf (at + vga_visible_yres) >>= λ vy.
    word_at buf (at + vga_vfreq) >>= λ f. word_at buf (vgainf_defmode + 2 * idx) >>= λ d.
    ok (record { xres = x; yres = y; visible_xres = vx; visible_yres = vy; vfreq = f; defmode = d })

-- FLAG_INFO, and FLAG_DEFMODE for the default mode of the depth.
abbrev pub mode_flags : ℕ → ℤ → ℕ
mode_flags modeidx defmode = if eq_ℤ (pos modeidx) defmode then 3 else 1

-- The record that `create_nvdivga_mode` fills; `virtual` is the text of `rs_string(FS_VIRTUAL)`.
unfoldable pub nvdivga_mode : Bytes → Et4000 → ℕ → Fields → Res
unfolding print_width_d
nvdivga_mode virtual e at f =
    let r : Res = record {
      base = record {
        selected = false;
        desc = [];
        rez = pos e.rez;
        vmode = short_of ((e.count + svext) % 65536);
        flags = mode_flags e.count (short_of f.defmode);
        virt_hres = plus_one f.xres;
        virt_vres = plus_one f.yres;
        hres = plus_one f.visible_xres;
        vres = plus_one f.visible_yres;
      };
      planes = pos e.planes;
      freq = pos (f.vfreq / 10);
      mode_offset = pos at;
    } in
    let size =
      print_width_d 4 r.virt_hres
      ++ (codes " x " ++ (print_width_d 4 r.virt_vres ++ codes ", ET4000")) in
    record r { base = record (r.base) { desc = with_virtual r virtual size } }

-- The table `et4000modes` and `possible_resolutions`.
pub record Cards : Type 0 where
  pub table : List Et4000
  pub modes : Modes

abbrev pub counted : Et4000 → Et4000
counted e = record e { count = suc e.count }

module _ (virtual : Bytes) (memory : Modes → Bool) where
  -- `create_nvdivga_mode` for entry `idx` of the table, with its count as the number of the mode.
  unfoldable pub create_nvdivga_mode : Bytes → ℕ → ℕ → Et4000 → Modes → Exec Modes
  unfolding fields_at nvdivga_mode
  create_nvdivga_mode buf at idx e t =
      let made =
        fields_at buf at idx >>= λ f. ok (add_mode t e.index (nvdivga_mode virtual e at f)) in
      if memory t then made else ok t

  -- The loop over the table, from entry `i` on.
  unfoldable pub create_modes : Bytes → ℕ → ℕ → List Et4000 → Modes → Exec Cards
  unfolding create_nvdivga_mode
  create_modes buf at i [] t = ok (record { table = []; modes = t })
  create_modes buf at i (e ∷ es) t = word_at buf (at + vga_planes) >>= λ planes.
      let hit = create_nvdivga_mode buf at i e t >>= λ t'.
      create_modes buf at (suc i) es t' >>= λ c. ok (record c { table = counted e ∷ c.table }) in
      let miss = create_modes buf at (suc i) es t >>= λ c. ok (record c { table = e ∷ c.table }) in
      if e.planes == planes then hit else miss

-- `(long)mode + (long)field`
abbrev pub address : ℕ → ℕ → ℕ → ℕ
address base at v = (base + at + v) % 2 ^ 32

-- A field that holds an offset is made to hold an address.
unfoldable pub relocate_field : ℕ → ℕ → Bytes → ℕ → Exec Bytes
unfolding long_at put_long
relocate_field base at buf field =
    long_at buf (at + field) >>= λ v. put_long buf (at + field) (address base at v)

unfoldable pub relocate_next : ℕ → ℕ → Bytes → Exec Bytes
unfolding long_at put_long
relocate_next base at buf = long_at buf (at + vga_next) >>= λ v.
    if v == no_mode then ok buf else put_long buf (at + vga_next) (address base at v)

unfoldable pub relocate : ℕ → ℕ → Bytes → Exec Bytes
unfolding relocate_field relocate_next
relocate base at buf = relocate_field base at buf vga_modename >>= λ b1.
    relocate_field base at b1 vga_ts_regs >>= λ b2.
    relocate_field base at b2 vga_crtc_regs >>= λ b3.
    relocate_field base at b3 vga_atc_regs >>= λ b4.
    relocate_field base at b4 vga_gdc_regs >>= λ b5. relocate_next base at b5

-- The `while` loop; `mode` is an address, which the block holds from `base` on.
unfoldable pub mode_loop : Bytes → (Modes → Bool) → ℕ → ℕ → ℕ → Bytes → Cards → Exec Cards
unfolding relocate create_modes
mode_loop virtual memory zero base mode buf c = timeout
mode_loop virtual memory (suc fuel) base mode buf c =
    let at = mode - base in
    let rest = relocate base at buf >>= λ buf'.
    create_modes virtual memory buf' at 0 c.table c.modes >>= λ c'.
    long_at buf' (at + vga_next) >>= λ next. mode_loop virtual memory fuel base next buf' c' in
    if mode == no_mode then ok c else (if leb base mode then rest else fault)
