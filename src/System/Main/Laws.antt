-- ===== src/System/Main/Laws.antt =====
-- The program from the end of the dialog to the shutdown, on MagiC.
use chgres.Base.{
  ℕ, ◌≡◌, refl, Bool, true, false, Option, none, some, List, [], ◌∷◌, ◌++◌, arith, if◌then◌else◌,
  Bytes,
}
use chgres.Base.Int.{ℤ, pos}
use chgres.Base.Exec.{ok}
use chgres.CLib.{codes}
use chgres.Gemdos.{Gemdos, ◌>>=◌, positive, Call}
use chgres.Gemdos.Load.{Loads}
use chgres.Machine.{has_bit}
use chgres.Mode.{Res, Modes}
use chgres.Save.Magx.Laws.{magx_calls}
use chgres.Save.Magx.Steps.{magx_inf, dev}
use chgres.System.Cookies.{Boot, has_cookie, detect_vdi, setup}
use chgres.System.Save.{save}
use chgres.System.Save.Laws.{setup_magic, save-magx}
use chgres.System.Apply.{Round, apply, run_shutdown, returned, shutdown_tail}
use chgres.System.Main.{Run, applied, rsrc_free, appl_exit, change, main}
use chgres.Text.Lines.{IsBody, TextLine, render, AreLines}
use chgres.Text.Find.{matches, NoMatch}
use chgres.Text.Whole.{around}
use chgres.Dialog.Events.{Button, Choice}
use chgres.Dialog.Events.Laws.{some_mode, has_info_of}
use chgres.Dialog.Session.{Event, opening, select_res}
use chgres.Dialog.Session.Laws.{AllLegal, select_res-IsSafe}

-- The mode that `cur_res` points to.
mode_of : (o : Option Res) → some_mode o ≡ true → (r : Res) × (o ≡ some r)
mode_of none e = absurd (ground arith)
mode_of (some r) e = (r, refl)

-- SHUTDOWN.PRG is started, and the program ends with 0.
abbrev pub shut_down_with : Res → Run
shut_down_with r = record {
  deeds = applied (run_shutdown (shutdown_tail r) ∷ []) ∷ rsrc_free ∷ appl_exit ∷ [];
  ending = returned (pos 0);
}

module _ (os : Gemdos) (b : Boot) (no_fvdi : has_cookie b (codes "fVDI") ≡ false)
    (g : has_cookie b (codes "Gnva") ≡ false) (m : has_cookie b (codes "MiNT") ≡ false)
    (x : has_cookie b (codes "MagX") ≡ true) where
  no_fvdi_bit : has_bit (setup os b).sys_vdi 3 ≡ false
  unfolding setup detect_vdi
  no_fvdi_bit = rw no_fvdi (one_of (has_cookie b (codes "NVDI")))
    where
      one_of : (n : Bool) → has_bit (if n then 2 else 1) 3 ≡ false
      one_of true = refl
      one_of false = refl

  change-magx :
      (sn : ℤ) (fuel : ℕ) (rounds : ℕ → Round) (r : Res) (old calls : List Call)
      → save os (setup os b).sys_vdi (setup os b).sys_aes sn r old ≡ ok (pos 1, calls)
      → change os (setup os b).sys_vdi (setup os b).sys_aes sn fuel rounds (some r) old
        ≡ ok (shut_down_with r, calls)
  unfolding change apply
  change-magx sn fuel rounds r old calls saved =
      rw (saved, ◌>>=◌) (rw (no_fvdi_bit, setup_magic os b no_fvdi g m x) refl)

  -- On a machine with the cookie of MagiC, and without those of Geneva, MiNT and fVDI, where MAGX.INF
  -- has a line for the mode that is not its last and can be read and created: if a dialog of legal
  -- events, opened on a mode with an info or on none, returns with a shutdown, then there is a mode
  -- that is chosen, `main` writes its line in the place of the old one, starts SHUTDOWN.PRG with its
  -- codes and ends with 0.
  pub main-magx :
      (sn : ℤ) (fuel : ℕ) (rounds : ℕ → Round) (before : List TextLine) (l : TextLine) (c : ℕ)
      (rest : Bytes) (made : Bool) (t : Modes) (shown : List Res) (i : ℕ) (cur : Option Res)
      (ok_button info_button : Button) (es : List Event) (d : Choice) (old : List Call)
      → AreLines before
      → NoMatch dev before
      → IsBody l.body
      → matches dev l ≡ true
      → Loads os magx_inf (around (render before) l (c ∷ rest))
      → positive (os.fcreate magx_inf) ≡ true
      → has_info_of cur ≡ some_mode cur
      → AllLegal (opening t shown i cur ok_button info_button) es
      → select_res made (opening t shown i cur ok_button info_button) es ≡ some d
      → d.must_shutdown ≡ true
      → (r : Res) × (d.cur_res ≡ some r)
        × (main os
              (setup os b).sys_vdi
              (setup os b).sys_aes
              sn
              fuel
              rounds
              true
              true
              (select_res made (opening t shown i cur ok_button info_button) es)
              old
            ≡ ok (shut_down_with r, old ++ magx_calls os r (render before) (c ∷ rest)))
  unfolding main
  main-magx sn fuel rounds before l c rest made t shown i cur ok_button info_button es d old bs ns
        body hit loads opens has legal ends shuts =
      let safe =
        (select_res-IsSafe made t shown i cur ok_button info_button es d has legal ends).1 in
      let (r, chosen) = mode_of d.cur_res (safe shuts) in
      let saved =
        save-magx os b no_fvdi sn r before l c rest old g m x bs ns body hit loads opens in
      (r, chosen, rw (ends, shuts, chosen) (change-magx sn fuel rounds r old _ saved))
