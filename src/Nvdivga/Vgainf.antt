-- ===== src/Nvdivga/Vgainf.antt =====
-- The structures of vgainf.h: their sizes, and the offsets of the fields that are used, on the 68000, where
-- a `short` has two bytes, a pointer four, and no field is moved.
use chgres.Base.{ℕ}

abbrev pub sizeof_vgainf : ℕ
sizeof_vgainf = 68

abbrev pub vgainf_nummodes : ℕ
vgainf_nummodes = 34

abbrev pub vgainf_defmode : ℕ
vgainf_defmode = 38

abbrev pub vga_next : ℕ
vga_next = 0

abbrev pub vga_modename : ℕ
vga_modename = 6

abbrev pub vga_xres : ℕ
vga_xres = 10

abbrev pub vga_yres : ℕ
vga_yres = 12

abbrev pub vga_visible_xres : ℕ
vga_visible_xres = 14

abbrev pub vga_visible_yres : ℕ
vga_visible_yres = 16

abbrev pub vga_planes : ℕ
vga_planes = 22

abbrev pub vga_vfreq : ℕ
vga_vfreq = 44

abbrev pub vga_ts_regs : ℕ
vga_ts_regs = 84

abbrev pub vga_crtc_regs : ℕ
vga_crtc_regs = 88

abbrev pub vga_atc_regs : ℕ
vga_atc_regs = 92

abbrev pub vga_gdc_regs : ℕ
vga_gdc_regs = 96
