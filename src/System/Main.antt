-- ===== src/System/Main.antt =====
-- `main` of chgres.c: the dialog, and what is done with its choice. `save` and `apply` are those of the
-- other modules, and so is the dialog; what the AES answers is an argument.
pub mod Laws
pub mod Order
use chgres.Base.{
  ℕ, zero, suc, ◌+◌, ◌-◌, ◌*◌, ◌/◌, ◌%◌, ◌^◌, ◌≤◌, ◌<◌, min, ◌≡◌, refl, sym, ap, ◌∙◌, ◌≢◌, ◌↔◌, ◌⊎◌,
  inl, inr, Bool, true, false, not, ◌&&◌, ◌||◌, Option, none, some, List, [], ◌∷◌, ◌++◌, map, arith,
  ltb, leb, ◌==◌, if◌then◌else◌, ltb→lt, lt→ltb, leb→le, ==_iff, Bool-cases, Option-cases, Bytes,
  length, get_elem?, set, get_or, take, drop, replicate, length-append, length-set,
  get_elem?-set_self, get_elem?-set_ne, take-append-drop, length-take, length-drop,
  length-replicate, length-map, tests,
}
use chgres.Base.Int.{ℤ, pos, negsuc, ltb_ℤ}
use chgres.Base.Exec.{Exec, ok, fault, timeout}
use chgres.Gemdos.{Gemdos, Io, Call, ◌>>=◌, return, lift}
use chgres.Mode.{Res}
use chgres.Dialog.Events.{Choice}
use chgres.System.Save.{save}
use chgres.System.Apply.{Act, Ending, returned, rebooted, unfinished, Round, apply}

-- What `main` shows and does outside the other modules, in order.
pub data Deed : Type 0 where
  save_failed : Deed
  apply_failed : Deed
  applied : List Act → Deed
  rsrc_free : Deed
  appl_exit : Deed

-- The deeds, and how `main` ends; `returned` has the value of `ret`.
pub record Run : Type 0 where
  pub deeds : List Deed
  pub ending : Ending

abbrev closing : List Deed → Run
closing deeds = record { deeds = deeds ++ rsrc_free ∷ appl_exit ∷ []; ending = returned (pos 0) }

-- What comes behind `apply`.
unfoldable pub after_apply : List Act × Ending → Run
after_apply (acts, returned z) =
    closing (applied acts ∷ (if ltb_ℤ z (pos 0) then apply_failed ∷ [] else []))
after_apply (acts, rebooted) = record { deeds = applied acts ∷ []; ending = rebooted }
after_apply (acts, unfinished) = record { deeds = applied acts ∷ []; ending = unfinished }

module _ (os : Gemdos) (sys_vdi sys_aes : ℕ) (sn : ℤ) (fuel : ℕ) (rounds : ℕ → Round) where
  -- The mode that `cur_res` points to is saved and applied: both read it, through NULL if there is none.
  unfoldable pub change : Option Res → Io Run
  unfolding save apply after_apply
  change none = lift fault
  change (some r) = do
    saved ← save os sys_vdi sys_aes sn r
    return (
        if ltb_ℤ saved (pos 0)
        then closing (save_failed ∷ [])
        else after_apply (apply fuel sys_vdi sys_aes rounds r))

  -- The dialog's end; `none` is a dialog that is still open.
  unfoldable pub after_dialog : Option Choice → Io Run
  unfolding change
  after_dialog none = return (record { deeds = []; ending = unfinished })
  after_dialog (some d) = if d.must_shutdown then change d.cur_res else return (closing [])

  -- `registered` is that `appl_init` did not fail, and `loaded` the result of `rsrc_load`.
  unfoldable pub main : Bool → Bool → Option Choice → Io Run
  unfolding after_dialog
  main registered loaded dialog =
      if registered
      then (if loaded
          then after_dialog dialog
          else return (record { deeds = appl_exit ∷ []; ending = returned (negsuc 0) }))
      else return (record { deeds = []; ending = returned (negsuc 0) })
