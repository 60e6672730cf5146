-- ===== src/Save/Desk/Laws.antt =====
-- What `save_desk_inf_base` writes, and when it writes nothing.
use chgres.Base.{
  ℕ, zero, suc, ◌+◌, ◌≤◌, ◌≡◌, refl, sym, ap, ◌∙◌, true, false, List, [], ◌∷◌, ◌++◌, arith, Bytes,
  length, take,
}
use chgres.Base.Int.{ℤ, pos}
use chgres.Base.Exec.{ok}
use chgres.Gemdos.{◌>>=◌, Gemdos, Call, created, written, closed}
use chgres.Gemdos.Load.{Loads, load_calls, load_file-Loads}
use chgres.Gemdos.Copy.{Patched, spliced, spliced-Patched}
use chgres.Save.Desk.{is_zero, write_desk, save_desk_inf_base}
use chgres.Text.Lines.{IsBody, TextLine, line_bytes, render, AreLines}
use chgres.Text.Find.{matches, NoMatch, file_size}
use chgres.Text.Whole.{
  around, length-around, find_line-around, Nowhere, Nowhere-Unseen, Unseen, last-Unseen,
}
use chgres.Save.Desk.Fields.{e_line, patch-Field, Field_fits, positive-suc, Field}

write_desk_lem :
    (os : Gemdos) (filename : Bytes) (size : ℕ) (b : Bytes) (calls : List Call)
    → is_zero (os.fcreate filename) ≡ false
    → write_desk os filename size b calls
      ≡ ok (
        pos 1,
        calls
            ++ created filename ∷ []
            ++ written (os.fcreate filename) (take size b) ∷ []
            ++ closed (os.fcreate filename) ∷ [],
      )
unfolding write_desk
write_desk_lem os filename size b calls h = rw h

take_all : (xs : Bytes) (n : ℕ) → n ≡ length xs → take n xs ≡ xs
take_all [] zero h = refl
take_all [] (suc n) h = refl
take_all (x ∷ xs) zero h = absurd (omega arith)
take_all (x ∷ xs) (suc n) h = ap (λ s. x ∷ s) (take_all xs n (omega arith))

module _ (os : Gemdos) (sys : ℕ) (rez vmode : ℤ) (filename : Bytes) (eoffset : ℕ)
    (fallback : Bytes) where
  -- If a line of the desktop file begins with "#E " and is not the last, and the mode has a field in
  -- it, and the file could be created anew or `Fcreate` gave an error below 0, then the bytes of the
  -- file are written with the mode in its field of the first such line, and no other byte changed.
  pub save_desk_inf_base-Patched :
      {at : ℕ} {new : Bytes} (before : List TextLine) (l : TextLine) (c : ℕ) (rest : Bytes)
      → AreLines before
      → NoMatch e_line before
      → IsBody l.body
      → matches e_line l ≡ true
      → Field sys rez vmode eoffset (length (line_bytes l)) at new
      → Loads os filename (around (render before) l (c ∷ rest))
      → is_zero (os.fcreate filename) ≡ false
      → (q : Bytes) × (save_desk_inf_base os sys rez vmode filename eoffset fallback []
          ≡ ok (
            pos 1,
            load_calls os filename
                ++ (created filename
                    ∷ written (os.fcreate filename) q
                    ∷ closed (os.fcreate filename)
                    ∷ []),
          ))
        × Patched (around (render before) l (c ∷ rest)) (file_size before + at) new q
  unfolding save_desk_inf_base
  save_desk_inf_base-Patched {at} {new} before l c rest bs ns b m f loads opens =
      let text = around (render before) l (c ∷ rest) in
      let q = spliced text (file_size before + at) new in
      let fits : file_size before + length (line_bytes l) ≤ length text =
        omega (arith, length-around (render before) l (c ∷ rest)) in
      let patched =
        spliced-Patched text (file_size before + at) new (omega (arith, Field_fits f)) in
      (
        q,
        rw (load_file-Loads os filename text loads, ◌>>=◌)
            (rw (find_line-around before l (c ∷ rest) e_line bs ns b m, ◌>>=◌, positive-suc)
              (rw (patch-Field text (file_size before) f fits, ◌>>=◌)
                (write_desk_lem os filename (length text) q (load_calls os filename) opens
                  ∙ rw (take_all q (length text) (sym patched.same_length)) refl))),
        patched,
      )

  save_desk_inf_base-Unseen :
      (text : Bytes)
      → Unseen e_line text
      → Loads os filename text
      → save_desk_inf_base os sys rez vmode filename eoffset fallback []
        ≡ ok (pos 0, load_calls os filename)
  unfolding save_desk_inf_base
  save_desk_inf_base-Unseen text (o, k, e) loads =
      rw (load_file-Loads os filename text loads, ◌>>=◌) (rw (e, ◌>>=◌) refl)

  -- If the desktop file can be read and no line of it begins with "#E ", the result is 0, and no file
  -- is created.
  save_desk_inf_base-Nowhere :
      (text : Bytes)
      → Nowhere e_line text
      → Loads os filename text
      → save_desk_inf_base os sys rez vmode filename eoffset fallback []
        ≡ ok (pos 0, load_calls os filename)
  save_desk_inf_base-Nowhere text w = save_desk_inf_base-Unseen text (Nowhere-Unseen e_line text w)

  -- If the desktop file can be read and its first line that begins with "#E " is its last, the result
  -- is 0, and no file is created.
  pub save_desk_inf_base_last :
      (before : List TextLine) (l : TextLine)
      → AreLines before
      → NoMatch e_line before
      → IsBody l.body
      → matches e_line l ≡ true
      → Loads os filename (around (render before) l [])
      → save_desk_inf_base os sys rez vmode filename eoffset fallback []
        ≡ ok (pos 0, load_calls os filename)
  save_desk_inf_base_last before l bs ns b m =
      save_desk_inf_base-Unseen _ (last-Unseen before l e_line bs ns b m)
