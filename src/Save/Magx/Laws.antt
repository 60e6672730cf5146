-- ===== src/Save/Magx/Laws.antt =====
-- What `save_magx_inf` writes to MAGX.INF.
use chgres.Base.{ℕ, ◌≡◌, refl, true, List, [], ◌∷◌, ◌++◌, arith, Bytes, length}
use mathlib.Core.List.{append_assoc}
use chgres.Base.Int.{ℤ, pos}
use chgres.Base.Exec.{ok}
use chgres.CLib.{codes, print_d}
use chgres.CLib.Digits.{IsBody-append, print_d-IsBody}
use chgres.Gemdos.{◌>>=◌, Gemdos, Call, created, written, closed, positive}
use chgres.Gemdos.Load.{Loads, load_calls, load_file-Loads, load_file_behind}
use chgres.Mode.{Res}
use chgres.Save.Magx.{mode_line, save_magx_inf}
use chgres.Text.{find_str}
use chgres.Text.Lines.{IsBody, TextLine, crlf, line_bytes, render, AreLines}
use chgres.Text.Find.{matches, NoMatch}
use chgres.Text.Whole.{around, Nowhere, Nowhere-Unseen, last-Unseen, Unseen}
use chgres.Save.Magx.Steps.{
  magx_inf, dev, aes, find_place-dev, find_place-aes, find_place_none, write_magx_inside,
  write_magx_behind, write_magx_front,
}

module _ (os : Gemdos) (r : Res) where
  abbrev fd : ℤ
  fd = os.fcreate magx_inf

  -- The calls of a run that writes three pieces.
  abbrev pub magx_calls : Bytes → Bytes → List Call
  magx_calls front back =
      load_calls os magx_inf
      ++ (created magx_inf
          ∷ written fd front
          ∷ written fd (mode_line r)
          ∷ written fd back
          ∷ closed fd
          ∷ [])

  -- If the first line that begins with "#_DEV" is not the last of the file, and MAGX.INF can be read
  -- and created, that line is replaced by the new one and all else is written as it was, behind the
  -- calls that were made before.
  pub save_magx_inf_behind :
      (before : List TextLine) (l : TextLine) (c : ℕ) (rest : Bytes) (old : List Call)
      → AreLines before
      → NoMatch dev before
      → IsBody l.body
      → matches dev l ≡ true
      → Loads os magx_inf (around (render before) l (c ∷ rest))
      → positive fd ≡ true
      → save_magx_inf os r old ≡ ok (pos 1, old ++ magx_calls (render before) (c ∷ rest))
  unfolding save_magx_inf
  save_magx_inf_behind before l c rest old bs ns b m loads opens =
      let text = around (render before) l (c ∷ rest) in
      let loaded = old ++ load_calls os magx_inf in
      rw (load_file_behind os magx_inf text old loads, ◌>>=◌)
        (rw
          (
            find_place-dev before l c rest loaded bs ns b m,
            ◌>>=◌,
            opens,
            write_magx_inside fd (render before) (c ∷ rest) l (mode_line r) (length rest)
                (loaded ++ created magx_inf ∷ []),
          )
          (simp append_assoc))

  pub save_magx_inf-replaced :
      (before : List TextLine) (l : TextLine) (c : ℕ) (rest : Bytes)
      → AreLines before
      → NoMatch dev before
      → IsBody l.body
      → matches dev l ≡ true
      → Loads os magx_inf (around (render before) l (c ∷ rest))
      → positive fd ≡ true
      → save_magx_inf os r [] ≡ ok (pos 1, magx_calls (render before) (c ∷ rest))
  save_magx_inf-replaced before l c rest bs ns b m loads opens =
      save_magx_inf_behind before l c rest [] bs ns b m loads opens

  -- If no line begins with "#_DEV", and the first line that begins with "#[aes]" is not the last of
  -- the file, and MAGX.INF can be read and created, the new line is put behind that line and all else
  -- is written as it was.
  pub save_magx_inf_added :
      (before : List TextLine) (l : TextLine) (c : ℕ) (rest : Bytes)
      → Nowhere dev (around (render before) l (c ∷ rest))
      → AreLines before
      → NoMatch aes before
      → IsBody l.body
      → matches aes l ≡ true
      → Loads os magx_inf (around (render before) l (c ∷ rest))
      → positive fd ≡ true
      → save_magx_inf os r [] ≡ ok (pos 1, magx_calls (render before ++ line_bytes l) (c ∷ rest))
  unfolding save_magx_inf
  save_magx_inf_added before l c rest absent bs ns b m loads opens =
      rw (load_file-Loads os magx_inf (around (render before) l (c ∷ rest)) loads, ◌>>=◌)
        (rw
          (
            find_place-aes before l c rest (load_calls os magx_inf) (Nowhere-Unseen dev _ absent) bs
                ns b m,
            ◌>>=◌,
            opens,
          )
          (write_magx_behind fd (render before) (c ∷ rest) l (mode_line r) (length rest)
            (load_calls os magx_inf ++ created magx_inf ∷ [])))

  -- The calls of a run that writes the mode line in front of the old file.
  abbrev pub front_calls : Bytes → List Call
  front_calls text =
      load_calls os magx_inf
      ++ (created magx_inf ∷ written fd (mode_line r) ∷ written fd text ∷ closed fd ∷ [])

  save_magx_inf_front :
      (text : Bytes)
      → Unseen dev text
      → Unseen aes text
      → Loads os magx_inf text
      → positive fd ≡ true
      → save_magx_inf os r [] ≡ ok (pos 1, front_calls text)
  unfolding save_magx_inf
  save_magx_inf_front text d a loads opens =
      let (place, e, z) = find_place_none text (load_calls os magx_inf) d a in
      rw (load_file-Loads os magx_inf text loads, ◌>>=◌)
        (rw (e, ◌>>=◌, opens)
          (write_magx_front fd text (mode_line r) place
            (load_calls os magx_inf ++ created magx_inf ∷ []) z))

  -- If no line begins with "#_DEV" and none with "#[aes]", and MAGX.INF can be read and created, the
  -- new line is put in front of the file.
  save_magx_inf_no_section :
      (text : Bytes)
      → Nowhere dev text
      → Nowhere aes text
      → Loads os magx_inf text
      → positive fd ≡ true
      → save_magx_inf os r [] ≡ ok (pos 1, front_calls text)
  save_magx_inf_no_section text d a =
      save_magx_inf_front text (Nowhere-Unseen dev text d) (Nowhere-Unseen aes text a)

  -- If the first line that begins with "#_DEV" is the last of the file, no line begins with "#[aes]",
  -- and MAGX.INF can be read and created, then the new line is put in front of the whole file, and the
  -- old line stays.
  pub save_magx_inf_last :
      (before : List TextLine) (l : TextLine)
      → AreLines before
      → NoMatch dev before
      → IsBody l.body
      → matches dev l ≡ true
      → Nowhere aes (around (render before) l [])
      → Loads os magx_inf (around (render before) l [])
      → positive fd ≡ true
      → save_magx_inf os r [] ≡ ok (pos 1, front_calls (around (render before) l []))
  save_magx_inf_last before l bs ns b m a =
      save_magx_inf_front _ (last-Unseen before l dev bs ns b m) (Nowhere-Unseen aes _ a)

-- The line that is written, without its end.
abbrev pub mode_text : Res → TextLine
mode_text r = record {
  body = codes "#_DEV " ++ (print_d r.rez ++ b' ' ∷ print_d r.vmode);
  eol = crlf;
}

mode_text-IsBody : (r : Res) → IsBody (mode_text r).body
mode_text-IsBody r = IsBody-append (codes "#_DEV ") _ (omega arith) (
    IsBody-append (print_d r.rez) _ (print_d-IsBody r.rez)
      (omega arith, omega arith, print_d-IsBody r.vmode))

mode_line-around :
    (r : Res) (front back : Bytes)
    → front ++ (mode_line r ++ back) ≡ around front (mode_text r) back
unfolding mode_line
mode_line-around r front back = simp append_assoc

-- The line that one run writes is found by the next: if MAGX.INF holds lines of which none begins
-- with "#_DEV", then the mode line of `r` and more text, and it can be read and created, then saving a
-- mode `q` puts the line of `q` in the place of that of `r`, and all else is written as it was.
pub save_magx_inf_again :
    (os : Gemdos) (r q : Res) (before : List TextLine) (c : ℕ) (rest : Bytes)
    → AreLines before
    → NoMatch dev before
    → Loads os magx_inf (render before ++ (mode_line r ++ c ∷ rest))
    → positive (os.fcreate magx_inf) ≡ true
    → save_magx_inf os q [] ≡ ok (pos 1, magx_calls os q (render before) (c ∷ rest))
unfolding find_str
save_magx_inf_again os r q before c rest bs ns loads opens =
    save_magx_inf-replaced os q before (mode_text r) c rest bs ns (mode_text-IsBody r) refl
      (rw mode_line-around at loads) opens
