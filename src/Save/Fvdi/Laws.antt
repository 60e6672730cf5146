-- ===== src/Save/Fvdi/Laws.antt =====
-- What `save_fvdi_inf` writes to FVDI.SYS.
use chgres.Base.{
  ◌+◌, ◌<◌, ◌≡◌, refl, true, false, none, some, List, [], ◌∷◌, ◌++◌, Bytes, length, drop,
  length-append,
}
use mathlib.Core.List.{append_assoc, append-nil}
use native.Mathlib.Nat.{add-sub_cancel_left}
use chgres.Base.Int.{pos, negsuc}
use chgres.Base.Exec.{ok}
use chgres.CLib.{codes}
use chgres.Gemdos.{◌>>=◌, Gemdos, Call, created, written, closed, positive}
use chgres.Gemdos.Copy.{take_of, drop_of}
use chgres.Gemdos.Load.{Loads, load_calls, load_file-Loads}
use chgres.Mode.{Res}
use chgres.Save.Fvdi.{
  driver_tag, driver_id, mode_line, write_fvdi, replace_mode, fvdi_path, is_tag, save_fvdi_inf,
}
use chgres.Text.{Found, find_line, remove_line}
use chgres.Text.Lines.{IsBody, TextLine, render, AreLines}
use chgres.Text.Find.{matches, NoMatch, file_size}
use chgres.Text.Remove.{remove_line-nonempty}
use chgres.Text.Whole.{remove_line-Nowhere, Nowhere-Unseen, around, length-around, Nowhere}

abbrev pub mode_key : Bytes
mode_key = codes "01r "

-- The driver of the mode's depth is named in the file.
pub record Names (r : Res) (text driver : Bytes) : Type 0 where
  pub found : Found
  pub found_is : find_line text (driver_tag r) (length text) ≡ ok found
  pub driver_is : driver_id text (driver_tag r) found ≡ ok driver
  pub not_tag : is_tag driver ≡ false

write_fvdi_lem :
    (os : Gemdos) (path : Bytes) (r : Res) (driver front back more : Bytes) (calls : List Call)
    → positive (os.fcreate path) ≡ true
    → write_fvdi os path r driver
        (record {
          offset = length front;
          newsize = length front + length back;
          buffer = front ++ (back ++ more);
        })
        calls
      ≡ ok (
        pos 1,
        calls
            ++ created path ∷ []
            ++ written (os.fcreate path) front ∷ []
            ++ written (os.fcreate path) (mode_line driver r) ∷ []
            ++ written (os.fcreate path) back ∷ []
            ++ closed (os.fcreate path) ∷ [],
      )
unfolding write_fvdi
write_fvdi_lem os path r driver front back more calls opens =
    rw
      (
        opens,
        take_of (length front) front (back ++ more) refl,
        drop_of (length front) front (back ++ more) refl,
        add-sub_cancel_left,
        take_of (length back) back more refl,
      )
      refl

-- The bytes behind the new end of the file.
abbrev behind : List TextLine → TextLine → Bytes → Bytes
behind before l back = drop (file_size before + length back) (around (render before) l back)

remove_whole :
    (before : List TextLine) (l : TextLine) (back : Bytes)
    → 0 < length back
    → AreLines before
    → NoMatch mode_key before
    → IsBody l.body
    → matches mode_key l ≡ true
    → remove_line (around (render before) l back) mode_key (length (around (render before) l back))
      ≡ ok (
          some (record {
            offset = file_size before;
            newsize = file_size before + length back;
            buffer = render before ++ (back ++ behind before l back);
          }))
remove_whole before l back h bs ns b m =
    rw length-around (rw append-nil at (remove_line-nonempty before l back [] mode_key h bs ns b m))

second_none :
    (front back more : Bytes)
    → Nowhere mode_key (front ++ back)
    → remove_line (front ++ (back ++ more)) mode_key (length front + length back) ≡ ok none
second_none front back more w =
    rw (append_assoc, length-append) at (remove_line-Nowhere mode_key (front ++ back) more w)

module _ (os : Gemdos) (r : Res) (driver : Bytes) (before : List TextLine) (l : TextLine) where
  replace_mode_lem :
      (back : Bytes) (calls : List Call)
      → 0 < length back
      → AreLines before
      → NoMatch mode_key before
      → IsBody l.body
      → matches mode_key l ≡ true
      → Nowhere mode_key (render before ++ back)
      → positive (os.fcreate fvdi_path) ≡ true
      → replace_mode os fvdi_path r driver (around (render before) l back) calls
        ≡ ok (
          pos 1,
          calls
              ++ created fvdi_path ∷ []
              ++ written (os.fcreate fvdi_path) (render before) ∷ []
              ++ written (os.fcreate fvdi_path) (mode_line driver r) ∷ []
              ++ written (os.fcreate fvdi_path) back ∷ []
              ++ closed (os.fcreate fvdi_path) ∷ [],
        )
  unfolding replace_mode
  replace_mode_lem back calls h bs ns b m none_left opens =
      rw (remove_whole before l back h bs ns b m, ◌>>=◌)
        (rw (second_none (render before) back (behind before l back) none_left, ◌>>=◌)
          (write_fvdi_lem os fvdi_path r driver (render before) back (behind before l back) calls
            opens))

  -- If FVDI.SYS names the driver of the mode's depth, just one line of it begins with "01r ", which is
  -- not the last, and the file can be read and created, then that line is replaced by one with the
  -- driver and the mode, and all else is written as it was.
  pub save_fvdi_inf-replaced :
      (back : Bytes)
      → 0 < length back
      → AreLines before
      → NoMatch mode_key before
      → IsBody l.body
      → matches mode_key l ≡ true
      → Nowhere mode_key (render before ++ back)
      → Loads os fvdi_path (around (render before) l back)
      → Names r (around (render before) l back) driver
      → positive (os.fcreate fvdi_path) ≡ true
      → save_fvdi_inf os r []
        ≡ ok (
          pos 1,
          load_calls os fvdi_path
              ++ (created fvdi_path
                  ∷ written (os.fcreate fvdi_path) (render before)
                  ∷ written (os.fcreate fvdi_path) (mode_line driver r)
                  ∷ written (os.fcreate fvdi_path) back
                  ∷ closed (os.fcreate fvdi_path)
                  ∷ []),
        )
  unfolding save_fvdi_inf
  save_fvdi_inf-replaced back h bs ns b m none_left loads named opens =
      rw (load_file-Loads os fvdi_path (around (render before) l back) loads, ◌>>=◌)
        (rw (named.found_is, ◌>>=◌)
          (rw (named.driver_is, ◌>>=◌, named.not_tag)
            (replace_mode_lem back (load_calls os fvdi_path) h bs ns b m none_left opens)))

-- If FVDI.SYS can be read and no line of it begins with the tag of the mode's depth, the result is -1
-- and no file is created.
save_fvdi_inf_unnamed :
    (os : Gemdos) (r : Res) (text : Bytes)
    → Nowhere (driver_tag r) text
    → Loads os fvdi_path text
    → save_fvdi_inf os r [] ≡ ok (negsuc 0, load_calls os fvdi_path)
unfolding save_fvdi_inf driver_id driver_tag
save_fvdi_inf_unnamed os r text w loads =
    let (o, k, e) = Nowhere-Unseen (driver_tag r) text w in
    rw (load_file-Loads os fvdi_path text loads, ◌>>=◌) (rw (e, ◌>>=◌) refl)
