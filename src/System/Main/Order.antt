-- ===== src/System/Main/Order.antt =====
-- What `main` does in which order, on every system.
use chgres.Base.{ℕ, ◌≡◌, ◌⊎◌, Bool, true, false, ◌||◌, Option, some, List, [], ◌∷◌, ◌++◌}
use chgres.Base.Int.{ℤ, pos, ltb_ℤ}
use chgres.Base.Exec.{Exec, ok, fault, timeout}
use chgres.Gemdos.{Gemdos, Call}
use chgres.Mode.{Res}
use chgres.System.Save.{save}
use chgres.System.Apply.{returned, rebooted, unfinished, Round}
use chgres.System.Main.{Deed, applied, rsrc_free, appl_exit, Run}
use chgres.Dialog.Events.{Choice}

abbrev is_applied : Deed → Bool
is_applied (applied acts) = true
is_applied _ = false

-- Whether a run came to `apply`.
abbrev pub applies : List Deed → Bool
applies [] = false
applies (d ∷ ds) = is_applied d || applies ds

abbrev result : Run × List Call → Exec (Run × List Call) → Run × List Call
result a (ok b) = b
result a fault = a
result a timeout = a

abbrev final : List Deed
final = rsrc_free ∷ appl_exit ∷ []

-- A run that returns gives 0, and frees the resource and leaves the AES at its end.
pub data Closes (run : Run) : Type 0 where
  reboots : run.ending ≡ rebooted → Closes run
  goes_on : run.ending ≡ unfinished → Closes run
  ends :
      (front : List Deed) → run.ending ≡ returned (pos 0) → run.deeds ≡ front ++ final → Closes run

module _ (os : Gemdos) (sys_vdi sys_aes : ℕ) (sn : ℤ) (fuel : ℕ) (rounds : ℕ → Round)
    (old : List Call) where
  -- `save` was called for the mode that is chosen, and gave no result below 0. A mode that should have been
  -- saved, but need not be, gives 0; one that must be saved and was not gives -1.
  abbrev pub NotRefused : Option Choice → List Call → Type 0
  NotRefused dialog calls =
      (d : Choice) × (r : Res) × (z : ℤ) × (dialog ≡ some d)
      × (d.must_shutdown ≡ true)
      × (d.cur_res ≡ some r)
      × (save os sys_vdi sys_aes sn r old ≡ ok (z, calls))
      × (ltb_ℤ z (pos 0) ≡ false)

  Ordered : Option Choice → Run → List Call → Type 0
  Ordered dialog run calls = ((applies run.deeds ≡ false) ⊎ NotRefused dialog calls) × Closes run
