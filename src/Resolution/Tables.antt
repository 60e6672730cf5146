-- ===== src/Resolution/Tables.antt =====
-- The tables of res.c: the modes that `initres_st`, `initres_tt`, `initres_falc` and `initres_saga` ask
-- `create_mode` for, in the order of the calls. A mode word is written as the number that its flags
-- (VERTFLAG 0x100, STMODES 0x80, OVERSCAN 0x40, VGA 0x10, COL80 0x08, BPS1 to BPS16 0 to 4, TV 0) make.
use chgres.Base.{ℕ, Option, none, some, List, [], ◌∷◌, Bytes}
use chgres.Base.Int.{pos}
use chgres.CLib.{codes}
use chgres.Mode.{Request}

abbrev pub request : ℕ → ℕ → ℕ → ℕ → ℕ → ℕ → Option Bytes → Request
request idx width height depth driver word note = record {
  idx = idx;
  width = pos width;
  height = pos height;
  depth = pos depth;
  driver = pos driver;
  word = pos word;
  note = note;
}

-- `initres_st`
unfoldable pub st_requests : List Request
st_requests =
    request 0 640 400 1 4 0x000 (some (codes "ST Hoch"))
    ∷ request 1 640 200 2 3 0x000 (some (codes "ST Mittel"))
    ∷ request 2 320 200 4 2 0x000 (some (codes "ST Niedrig"))
    ∷ []

-- `initres_tt` on a monochrome monitor
unfoldable pub tt_mono_requests : List Request
tt_mono_requests = request 0 1280 960 1 8 0x000 (some (codes "TT Hoch")) ∷ []

-- `initres_tt` on a colour monitor
unfoldable pub tt_color_requests : List Request
tt_color_requests =
    request 2 640 480 4 6 0x000 (some (codes "TT Mittel"))
    ∷ request 3 320 480 8 9 0x000 (some (codes "TT Niedrig"))
    ∷ request 0 640 400 1 4 0x000 (some (codes "ST Hoch"))
    ∷ request 1 640 200 2 3 0x000 (some (codes "ST Mittel"))
    ∷ request 2 320 200 4 2 0x000 (some (codes "ST Niedrig"))
    ∷ []

-- `initres_falc` on a monochrome monitor
unfoldable pub falc_mono_requests : List Request
falc_mono_requests = request 0 640 400 1 5 0x088 (some (codes "ST Hoch")) ∷ []

-- `initres_falc` on a VGA monitor
unfoldable pub falc_vga_requests : List Request
falc_vga_requests =
    request 0 640 240 1 5 0x118 none
    ∷ request 0 640 400 1 5 0x098 (some (codes "ST Hoch"))
    ∷ request 0 640 240 1 5 0x118 none
    ∷ request 1 320 240 2 5 0x111 none
    ∷ request 1 320 480 2 5 0x011 none
    ∷ request 1 640 200 2 5 0x199 (some (codes "ST Mittel"))
    ∷ request 1 640 240 2 5 0x119 none
    ∷ request 1 640 480 2 5 0x019 none
    ∷ request 2 320 200 4 5 0x192 (some (codes "ST Niedrig"))
    ∷ request 2 320 240 4 5 0x112 none
    ∷ request 2 320 480 4 5 0x012 none
    ∷ request 2 640 240 4 5 0x11a none
    ∷ request 2 640 480 4 5 0x01a none
    ∷ request 3 320 240 8 5 0x113 none
    ∷ request 3 320 480 8 5 0x013 none
    ∷ request 3 640 240 8 5 0x11b none
    ∷ request 3 640 480 8 5 0x01b none
    ∷ request 4 320 240 16 5 0x114 none
    ∷ request 4 320 480 16 5 0x014 none
    ∷ []

-- `initres_falc` on a colour monitor or a television
unfoldable pub falc_tv_requests : List Request
falc_tv_requests =
    request 0 640 240 1 5 0x008 none
    ∷ request 0 640 400 1 5 0x188 (some (codes "ST Hoch"))
    ∷ request 0 768 240 1 5 0x048 none
    ∷ request 0 768 480 1 5 0x148 none
    ∷ request 1 320 200 2 5 0x001 none
    ∷ request 1 320 400 2 5 0x101 (some (codes "interlaced"))
    ∷ request 1 320 240 2 5 0x041 none
    ∷ request 1 320 480 2 5 0x141 (some (codes "interlaced"))
    ∷ request 1 640 200 2 5 0x089 (some (codes "ST Mittel"))
    ∷ request 1 640 400 2 5 0x109 (some (codes "interlaced"))
    ∷ request 1 768 240 2 5 0x049 none
    ∷ request 1 768 480 2 5 0x149 (some (codes "interlaced"))
    ∷ request 2 320 200 4 5 0x082 (some (codes "ST Niedrig"))
    ∷ request 2 320 400 4 5 0x102 (some (codes "interlaced"))
    ∷ request 2 384 240 4 5 0x042 none
    ∷ request 2 384 480 4 5 0x142 (some (codes "interlaced"))
    ∷ request 2 640 200 4 5 0x00a none
    ∷ request 2 640 400 4 5 0x10a (some (codes "interlaced"))
    ∷ request 2 768 240 4 5 0x04a none
    ∷ request 2 768 480 4 5 0x14a (some (codes "interlaced"))
    ∷ request 3 320 200 8 5 0x003 none
    ∷ request 3 320 400 8 5 0x103 (some (codes "interlaced"))
    ∷ request 3 384 240 8 5 0x043 none
    ∷ request 3 384 480 8 5 0x143 (some (codes "interlaced"))
    ∷ request 3 640 200 8 5 0x00b none
    ∷ request 3 640 400 8 5 0x10b (some (codes "interlaced"))
    ∷ request 3 768 240 8 5 0x04b none
    ∷ request 3 768 480 8 5 0x14b (some (codes "interlaced"))
    ∷ request 4 320 200 16 5 0x004 none
    ∷ request 4 320 400 16 5 0x104 (some (codes "interlaced"))
    ∷ request 4 384 240 16 5 0x044 none
    ∷ request 4 384 480 16 5 0x144 (some (codes "interlaced"))
    ∷ request 4 640 200 16 5 0x00c none
    ∷ request 4 640 400 16 5 0x10c (some (codes "interlaced"))
    ∷ request 4 768 240 16 5 0x04c none
    ∷ request 4 768 480 16 5 0x14c (some (codes "interlaced"))
    ∷ []

-- the modes of `initres_saga` that the Falcon's drivers know
unfoldable pub saga_atari_requests : List Request
saga_atari_requests =
    request 2 640 480 4 5 0x01a (some (codes "TT Mittel"))
    ∷ request 0 640 400 1 5 0x098 (some (codes "ST Hoch"))
    ∷ request 1 640 200 2 5 0x199 (some (codes "ST Mittel"))
    ∷ request 2 320 200 4 5 0x192 (some (codes "ST Niedrig"))
    ∷ []
