-- ===== src/System/Save/Laws.antt =====
-- `save` on the system that `setup` found.
use chgres.Base.{ℕ, ◌≡◌, refl, Bool, true, false, List, ◌∷◌, ◌++◌, ◌==◌, if◌then◌else◌, Bytes}
use chgres.Base.Int.{ℤ, pos}
use chgres.Base.Exec.{ok}
use chgres.CLib.{codes}
use chgres.Gemdos.{Gemdos, Call, ◌>>=◌, positive}
use chgres.Gemdos.Load.{Loads}
use chgres.Machine.{f_system_magic, f_vdi_fvdi}
use chgres.Mode.{Res}
use chgres.Save.Magx.Laws.{magx_calls, save_magx_inf_behind}
use chgres.Save.Magx.Steps.{magx_inf, dev}
use chgres.System.Cookies.{Boot, has_cookie, detect_aes, with_new_aes, detect_vdi, setup}
use chgres.System.Save.{save}
use chgres.Text.Lines.{IsBody, TextLine, render, AreLines}
use chgres.Text.Find.{matches, NoMatch}
use chgres.Text.Whole.{around}

module _ (os : Gemdos) (b : Boot) (no_fvdi : has_cookie b (codes "fVDI") ≡ false) where
  setup_no_fvdi : ((setup os b).sys_vdi == f_vdi_fvdi) ≡ false
  unfolding setup detect_vdi
  setup_no_fvdi = rw no_fvdi (one_of (has_cookie b (codes "NVDI")))
    where
      one_of : (n : Bool) → ((if n then 2 else 1) == f_vdi_fvdi) ≡ false
      one_of true = refl
      one_of false = refl

  pub setup_magic :
      has_cookie b (codes "Gnva") ≡ false
      → has_cookie b (codes "MiNT") ≡ false
      → has_cookie b (codes "MagX") ≡ true
      → (setup os b).sys_aes ≡ f_system_magic
  unfolding setup detect_aes with_new_aes
  setup_magic g m x = rw (g, m, x) refl

  -- On a machine with the cookie of MagiC, and without those of Geneva, MiNT and fVDI, `save` behind
  -- `setup` gives 1 and replaces the first line of MAGX.INF that begins with "#_DEV" by that of the
  -- mode, if that line is not the last, and the file can be read and created.
  pub save-magx :
      (sn : ℤ) (r : Res) (before : List TextLine) (l : TextLine) (c : ℕ) (rest : Bytes)
      (old : List Call)
      → has_cookie b (codes "Gnva") ≡ false
      → has_cookie b (codes "MiNT") ≡ false
      → has_cookie b (codes "MagX") ≡ true
      → AreLines before
      → NoMatch dev before
      → IsBody l.body
      → matches dev l ≡ true
      → Loads os magx_inf (around (render before) l (c ∷ rest))
      → positive (os.fcreate magx_inf) ≡ true
      → save os (setup os b).sys_vdi (setup os b).sys_aes sn r old
        ≡ ok (pos 1, old ++ magx_calls os r (render before) (c ∷ rest))
  unfolding save
  save-magx sn r before l c rest old g m x bs ns body hit loads opens =
      rw (setup_no_fvdi, setup_magic g m x)
        (rw (save_magx_inf_behind os r before l c rest old bs ns body hit loads opens, ◌>>=◌) refl)
