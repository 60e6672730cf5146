-- ===== src/Init/Detect.antt =====
-- `init_res` from the start: the drivers, the modes of the video hardware and of NVDIVGA, and the choice.
-- `place` is where `malloc` put the nodes of the lists.
use chgres.Base.{ℕ, ◌≡◌, Bool, ◌||◌, List, [], ◌∷◌, ◌++◌, if◌then◌else◌, Bytes}
use chgres.Base.Int.{ℤ, pos}
use chgres.Base.Exec.{Exec, ok, and_then}
use chgres.Gemdos.{Gemdos, Io, ◌>>=◌, lift}
use chgres.Mode.{eq_ℤ, Modes, no_modes, modes_at}
use chgres.Mode.Sort.{Qsort}
use chgres.Resolution.{Init, Monitor, initres_st, initres_tt, initres_falc, initres_saga}
use chgres.Drivers.{Drivers, read_assign_sys}
use chgres.Nodes.{Heap, Cell}
use chgres.Nodes.Chain.{Chain}
use chgres.Nodes.Walk.{contents}
use chgres.Nvdivga.{Et4000, Cards}
use chgres.Nvdivga.Load.{initres_nvdivga}
use chgres.Init.{Setting, head_at, choose_mode}
use chgres.Init.Depths.{AreDisjoint}

-- What the hardware answers: `Getrez`, `VsetMode(-1)`, and the monitor of a TT or a Falcon.
pub record Answers : Type 0 where
  pub vdo : ℤ
  pub getrez : ℤ
  pub vsetmode : ℤ
  pub monitor : Monitor

-- The `switch` over the video hardware; `currez` and `vmode` are 0 before.
unfoldable pub detected : Bytes → (Modes → Bool) → ℕ → Answers → Modes → Init
unfolding initres_st initres_tt initres_falc initres_saga
detected virtual memory sys_vdi a t =
    if eq_ℤ a.vdo (pos 0) || eq_ℤ a.vdo (pos 1)
    then initres_st virtual memory a.getrez t
    else (if eq_ℤ a.vdo (pos 2)
        then initres_tt virtual memory a.monitor a.getrez t
        else (if eq_ℤ a.vdo (pos 3)
            then initres_falc virtual memory a.monitor a.vsetmode t
            else (if eq_ℤ a.vdo (pos 6)
                then initres_saga virtual memory sys_vdi a.vsetmode t
                else record { modes = t; outrez = pos 0; outmode = pos 0 })))

-- `sys_vdi`, the table of the NVDIVGA driver, and the setting of the dialog.
pub record Started : Type 0 where
  pub sys_vdi : ℕ
  pub table : List Et4000
  pub setting : Setting

module _ (os : Gemdos) (virtual : Bytes) (memory : Modes → Bool) (base rounds : ℕ)
    (place : Modes → List ℕ × Heap) (q : Qsort Cell) (room : ℕ → Bool) (fuel : ℕ) where
  -- The end of `init_res`, with the result of `initres_nvdivga`.
  abbrev started : Init → ℕ × Cards → Exec Started
  started found r =
      and_then
        (choose_mode q room fuel found.outrez found.outmode (place r.1.modes).0 (place r.1.modes).1)
        λ s. ok (record { sys_vdi = r.0; table = r.1.table; setting = s })

  -- `behind` is what stands behind `gdos_drivers`.
  unfoldable pub init_res : ℕ → Answers → Drivers → Bytes → List Et4000 → Io Started
  unfolding read_assign_sys detected initres_nvdivga choose_mode
  init_res sys_vdi a drivers behind table = do
    drivers' ← read_assign_sys os drivers
    let found = detected virtual memory sys_vdi a no_modes
    result ←
        initres_nvdivga os virtual memory base rounds sys_vdi (drivers' ++ behind ∷ [])
          (record { table = table; modes = found.modes })
    lift (started found result)

-- The nodes of `heads` and `h` hold the modes of `t`, in the cells of `css`.
pub record IsPlaced (t : Modes) (css : ℕ → List Cell) (heads : List ℕ) (h : Heap) : Type 0 where
  pub chains : (i : ℕ) → Chain h (head_at heads i) (css i)
  pub holds : (i : ℕ) → contents (css i) ≡ modes_at t i
  pub disjoint : AreDisjoint css
