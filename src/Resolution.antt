-- ===== src/Resolution.antt =====
-- The routines of res.c that fill the table of modes for the hardware found. The answers of the
-- hardware (`Getrez`, the monitor, `VsetMode`) are arguments; `memory` says of each table whether
-- `malloc` has room for one more mode then.
pub mod Tables
pub mod Saga
pub mod Placed
use chgres.Base.{
  ℕ, zero, suc, ◌+◌, ◌-◌, ◌*◌, ◌/◌, ◌%◌, ◌^◌, ◌≤◌, ◌<◌, min, ◌≡◌, refl, sym, ap, ◌∙◌, ◌≢◌, ◌↔◌, ◌⊎◌,
  inl, inr, Bool, true, false, not, ◌&&◌, ◌||◌, Option, none, some, List, [], ◌∷◌, ◌++◌, map, arith,
  ltb, leb, ◌==◌, if◌then◌else◌, ltb→lt, lt→ltb, leb→le, ==_iff, Bool-cases, Option-cases, Bytes,
  length, get_elem?, set, get_or, take, drop, replicate, length-append, length-set,
  get_elem?-set_self, get_elem?-set_ne, take-append-drop, length-take, length-drop,
  length-replicate, length-map, tests,
}
use chgres.Base.Int.{ℤ, pos, negsuc}
use chgres.Machine.{has_bit}
use chgres.Mode.{Res, Modes, Request, find_mode, create_mode}
use chgres.Resolution.Tables.{
  request, st_requests, tt_mono_requests, tt_color_requests, falc_mono_requests, falc_vga_requests,
  falc_tv_requests, saga_atari_requests,
}

-- The table, `*outrez` and `*outmode`.
pub record Init : Type 0 where
  pub modes : Modes
  pub outrez : ℤ
  pub outmode : ℤ

abbrev pub rez_falcon : ℤ
rez_falcon = pos 5

-- What `initres_tt` finds in the shift mode register, and `VgetMonitor`.
pub data Monitor : Type 0 where
  mono color vga tv : Monitor

-- `shiftmod & 7` is the high resolution of the TT.
unfoldable pub get_tt_monitor : ℕ → Monitor
get_tt_monitor shiftmod = if shiftmod % 8 + 2 == 8 then mono else color

-- One of the SAGA's resolutions, or one of its depths: 0 for a depth that is not used.
pub record SagaRes : Type 0 where
  pub reg : ℕ
  pub width : ℕ
  pub height : ℕ

pub record SagaDepth : Type 0 where
  pub reg : ℕ
  pub bpp : ℕ

abbrev sagares : ℕ → ℕ → ℕ → SagaRes
sagares r w h = record { reg = r; width = w; height = h }

abbrev sagabpp : ℕ → ℕ → SagaDepth
sagabpp r b = record { reg = r; bpp = b }

unfoldable pub saga_resolutions : List SagaRes
saga_resolutions =
    sagares 0x01 320 200
    ∷ sagares 0x02 320 240
    ∷ sagares 0x03 320 256
    ∷ sagares 0x04 640 400
    ∷ sagares 0x05 640 480
    ∷ sagares 0x06 640 512
    ∷ sagares 0x07 960 540
    ∷ sagares 0x08 480 270
    ∷ sagares 0x09 304 224
    ∷ sagares 0x0a 1280 720
    ∷ sagares 0x0b 640 360
    ∷ sagares 0x0c 800 600
    ∷ sagares 0x0d 1024 768
    ∷ sagares 0x0e 720 576
    ∷ sagares 0x0f 848 480
    ∷ sagares 0x10 640 200
    ∷ []

abbrev low : Bool → ℕ → ℕ → SagaDepth
low fvdi r b = if fvdi then sagabpp 0 0 else sagabpp r b

-- `saga_depths` behind the assignments: no 15 and 24 planes, and none below 16 for fVDI.
unfoldable pub saga_depths : Bool → List SagaDepth
saga_depths fvdi =
    low fvdi 0x08 1
    ∷ low fvdi 0x09 2
    ∷ low fvdi 0x0a 4
    ∷ low fvdi 0x01 8
    ∷ sagabpp 0 0
    ∷ sagabpp 0x02 16
    ∷ sagabpp 0 0
    ∷ sagabpp 0x05 32
    ∷ []

-- `0x4000 | (reg << 8) | reg`; the registers are below 64 and 256, so the bits do not meet.
unfoldable pub saga_word : ℕ → ℕ → ℕ
saga_word res_reg depth_reg = 0x4000 + res_reg * 256 + depth_reg

abbrev is_none : Option Res → Bool
is_none none = true
is_none (some r) = false

-- `Getrez() + 2`
abbrev plus_two : ℤ → ℤ
plus_two (pos n) = pos (n + 2)
plus_two (negsuc zero) = pos 1
plus_two (negsuc (suc zero)) = pos 0
plus_two (negsuc (suc (suc n))) = negsuc n

-- `mode & ~PAL`, where PAL is 0x20.
abbrev clear_pal : ℕ → ℕ
clear_pal n = if has_bit n 5 then n - 32 else n

abbrev without_pal : ℤ → ℤ
without_pal (pos n) = pos (clear_pal n)
without_pal (negsuc n) = negsuc (if has_bit n 5 then n else n + 32)

unfoldable pub tt_requests : Monitor → List Request
tt_requests mono = tt_mono_requests
tt_requests _ = tt_color_requests

unfoldable pub falc_requests : Monitor → List Request
falc_requests mono = falc_mono_requests
falc_requests vga = falc_vga_requests
falc_requests _ = falc_tv_requests

module _ (virtual : Bytes) (memory : Modes → Bool) where
  unfoldable pub create_all : Modes → List Request → Modes
  create_all t [] = t
  create_all t (q ∷ qs) = create_all (create_mode virtual (memory t) t q) qs

  unfoldable pub initres_st : ℤ → Modes → Init
  unfolding create_all
  initres_st getrez t = record {
    modes = create_all t st_requests;
    outrez = plus_two getrez;
    outmode = pos 0;
  }

  unfoldable pub initres_tt : Monitor → ℤ → Modes → Init
  unfolding create_all
  initres_tt monitor getrez t = record {
    modes = create_all t (tt_requests monitor);
    outrez = plus_two getrez;
    outmode = pos 0;
  }

  unfoldable pub initres_falc : Monitor → ℤ → Modes → Init
  unfolding create_all
  initres_falc monitor vsetmode t = record {
    modes = create_all t (falc_requests monitor);
    outrez = rez_falcon;
    outmode = without_pal vsetmode;
  }

  -- The inner loop of `initres_saga`, for the depth at `i`.
  unfoldable pub saga_row : ℕ → SagaDepth → List SagaRes → Modes → Modes
  saga_row i d [] t = t
  saga_row i d (s ∷ ss) t =
      let q = request i s.width s.height d.bpp 5 (saga_word s.reg d.reg) none in
      let absent = is_none (find_mode t i (pos s.width) (pos s.height) (pos d.bpp)) in
      saga_row i d ss (if absent then create_mode virtual (memory t) t q else t)

  -- The outer loop, from the index `i` on.
  unfoldable pub saga_loop : ℕ → List SagaDepth → Modes → Modes
  unfolding saga_row
  saga_loop i [] t = t
  saga_loop i (d ∷ ds) t =
      saga_loop (suc i) ds (if ltb 0 d.bpp then saga_row i d saga_resolutions t else t)

  unfoldable pub initres_saga : ℕ → ℤ → Modes → Init
  unfolding create_all saga_loop
  initres_saga sys_vdi vsetmode t =
      let fvdi = has_bit sys_vdi 3 in
      let t' = if fvdi then t else create_all t saga_atari_requests in
      record {
        modes = saga_loop 0 (saga_depths fvdi) t';
        outrez = rez_falcon;
        outmode = without_pal vsetmode;
      }
