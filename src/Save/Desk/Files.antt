-- ===== src/Save/Desk/Files.antt =====
-- The desktop file behind a run of `save_desk_inf_base`.
use chgres.Base.{ℕ, ◌+◌, ◌≡◌, true, false, some, List, [], ◌∷◌, arith, Bytes, length}
use mathlib.Core.List.{append-nil}
use chgres.Base.Int.{ℤ, pos}
use chgres.Base.Exec.{ok}
use chgres.Gemdos.{Gemdos, Call, positive}
use chgres.Gemdos.Copy.{Patched}
use chgres.Save.Desk.{is_zero, save_desk_inf_base}
use chgres.Save.Desk.Laws.{save_desk_inf_base-Patched}
use chgres.Save.Desk.Fields.{e_line, Field}
use chgres.Text.Lines.{IsBody, TextLine, line_bytes, render, AreLines}
use chgres.Text.Find.{matches, NoMatch, file_size}
use chgres.Text.Whole.{around}
use chgres.Volume.{Volume, IsLawful, run, Serves, HasBecome}
use chgres.Volume.Rewrite.{created-HasBecome}

positive-not_zero : (z : ℤ) → positive z ≡ true → is_zero z ≡ false
positive-not_zero z p = ground arith

module _ {S : Type 0} {v : Volume S} (lawful : IsLawful v) where
  -- On a volume that obeys the laws: if the desktop file holds a line that begins with "#E " and is
  -- not the last, the mode has a field in it, and the file can be read and created, then behind
  -- `save_desk_inf_base` it holds the mode in its field of the first such line, and else what it
  -- held; no other file has changed.
  pub save_desk_inf_base-HasBecome :
      (os : Gemdos) (s : S) (sys : ℕ) (rez vmode : ℤ) (filename : Bytes) (eoffset : ℕ)
      (fallback : Bytes) {at : ℕ} {new : Bytes} (before : List TextLine) (l : TextLine) (c : ℕ)
      (rest : Bytes)
      → AreLines before
      → NoMatch e_line before
      → IsBody l.body
      → matches e_line l ≡ true
      → Field sys rez vmode eoffset (length (line_bytes l)) at new
      → v.content s filename ≡ some (around (render before) l (c ∷ rest))
      → Serves v os s filename
      → positive (os.fcreate filename) ≡ true
      → (q : Bytes) × (calls : List Call) × (save_desk_inf_base os sys rez vmode filename eoffset
            fallback []
          ≡ ok (pos 1, calls))
        × HasBecome v s (run v os s calls) filename q
        × Patched (around (render before) l (c ∷ rest)) (file_size before + at) new q
  save_desk_inf_base-HasBecome os s sys rez vmode filename eoffset fallback before l c rest bs ns
        body hit field holds serves opens =
      let text = around (render before) l (c ∷ rest) in
      let (q, done, patched) =
        save_desk_inf_base-Patched os sys rez vmode filename eoffset fallback before l c rest bs ns
          body hit field (serves text holds) (positive-not_zero _ opens) in
      let become = created-HasBecome lawful os s filename (q ∷ []) opens in
      (q, _, done, rw (append-nil q) at become, patched)
