-- ===== src/Save/Config/Laws.antt =====
-- What the routines for xaaes.cnf and myaes.cnf write.
use chgres.Base.{
  ℕ, zero, suc, ◌+◌, ◌<◌, ◌≡◌, refl, ◌∙◌, true, false, List, [], ◌∷◌, ◌++◌, arith, leb, Bytes,
  length, length-append,
}
use mathlib.Core.List.{append_assoc}
use chgres.Base.Int.{ℤ, pos, negsuc, ◌-ℤ◌}
use chgres.Base.Exec.{ok, fault}
use chgres.Gemdos.{◌>>=◌, Gemdos, Call, opened, written, closed, positive}
use chgres.Gemdos.Load.{Loads, load_calls, load_file-Loads}
use chgres.Gemdos.Copy.{take_of, drop_of}
use chgres.Save.Config.{
  Cut, cut_line, cut_lines, front_write, back_write, write_config, save_config,
}
use chgres.Text.Lines.{TextLine, render, AreLines}
use chgres.Text.Find.{file_size}
use chgres.Text.Whole.{remove_line-Unseen, Nowhere, Nowhere-Unseen}
use chgres.Save.Config.Settings.{
  keys_of, AreSet, cut_at, stacked, cut_lines_step, cut_lines_lem, uncut_start, newsize-place,
  Setting,
}

back_write_lem :
    (fd : ℤ) (before : List TextLine) (c : ℕ) (rest more : Bytes)
    → back_write fd (cut_at before (c ∷ rest) more) (pos (suc (length rest)))
      ≡ ok (written fd (c ∷ rest) ∷ [])
back_write_lem fd before c rest more =
    rw
      (
        fits,
        drop_of (file_size before) (render before) (c ∷ rest ++ more) refl,
        take_of (length rest) rest more refl,
      )
      refl
  where
    fits :
        leb (file_size before + suc (length rest)) (length (render before ++ c ∷ (rest ++ more)))
        ≡ true
    fits =
        ground (arith, length-append (render before) (c ∷ (rest ++ more)), length-append rest more)

write_config_lem :
    (fd : ℤ) (settings : Bytes) (before : List TextLine) (c : ℕ) (rest more : Bytes)
    (calls : List Call)
    → write_config fd settings (cut_at before (c ∷ rest) more) calls
      ≡ ok (
        pos 1,
        calls
            ++ front_write fd (render before)
            ++ written fd settings ∷ []
            ++ written fd (c ∷ rest) ∷ []
            ++ closed fd ∷ [],
      )
unfolding write_config
write_config_lem fd settings before c rest more calls =
    rw
      (
        take_of (file_size before) (render before) (c ∷ rest ++ more) refl,
        newsize-place (file_size before) (length rest),
        back_write_lem fd before c rest more,
      )
      refl

abbrev pub AllNowhere : List Bytes → Bytes → Type 0
AllNowhere [] text = Unit
AllNowhere (key ∷ keys) text = Nowhere key text × AllNowhere keys text

-- What the routines start with.
abbrev whole : Bytes → ℤ → Cut
whole text sn = record { buffer = text; place = 0; size = length text; newsize = sn }

cut_lines_unset :
    (keys : List Bytes) (text : Bytes) (sn : ℤ)
    → AllNowhere keys text
    → cut_lines (whole text sn) keys ≡ ok (whole text sn)
cut_lines_unset [] text sn h = unfold cut_lines in refl
cut_lines_unset (key ∷ keys) text sn h =
    cut_lines_step (whole text sn) key keys (none_cut h.0) ∙ cut_lines_unset keys text sn h.1
  where
    none_cut : Nowhere key text → cut_line (whole text sn) key ≡ ok (whole text sn)
    none_cut w =
        unfold cut_line in rw (remove_line-Unseen key text (Nowhere-Unseen key text w)) refl

module _ (os : Gemdos) (sn : ℤ) (path : Bytes) (settings : Bytes) where
  -- If the keys are set by lines that follow one another, with more text behind them, and no line
  -- before them sets a key, and the file can be read and opened for writing, then the new settings are
  -- written in the place of these lines: first the text before them, if there is any, then the
  -- settings, then the text behind them.
  pub save_config-AreSet :
      (before : List TextLine) (s : Setting) (ss : List Setting) (c : ℕ) (rest : Bytes)
      → AreLines before
      → AreSet before (s ∷ ss)
      → Loads os path (render before ++ stacked (s ∷ ss) (c ∷ rest))
      → positive (os.fopen path 1) ≡ true
      → save_config os sn path (keys_of (s ∷ ss)) settings []
        ≡ ok (
          pos 1,
          load_calls os path
              ++ (opened path 1 ∷ front_write (os.fopen path 1) (render before)
                  ++ (written (os.fopen path 1) settings
                      ∷ written (os.fopen path 1) (c ∷ rest)
                      ∷ closed (os.fopen path 1)
                      ∷ [])),
        )
  unfolding save_config
  save_config-AreSet before s ss c rest bs are loads opens =
      let (more, e) = cut_lines_lem ss s before (c ∷ rest) [] 0 sn (omega arith) bs are in
      rw
        (load_file-Loads os path (render before ++ stacked (s ∷ ss) (c ∷ rest)) loads, ◌>>=◌, opens)
        (rw (uncut_start before (s ∷ ss) (c ∷ rest) sn, e, ◌>>=◌)
          (write_config_lem (os.fopen path 1) settings before c rest more
              (load_calls os path ++ opened path 1 ∷ [])
            ∙ simp append_assoc))

sub_zero : (z : ℤ) → z -ℤ pos 0 ≡ z
unfolding ◌-ℤ◌
sub_zero z = ground arith

back_write_none : (fd : ℤ) (c : Cut) (z : ℤ) → positive z ≡ false → back_write fd c z ≡ ok []
back_write_none fd c (pos zero) h = refl
back_write_none fd c (pos (suc n)) h = absurd (ground arith)
back_write_none fd c (negsuc n) h = refl

back_write_over :
    (fd : ℤ) (text : Bytes) (n : ℕ)
    → length text < n
    → back_write fd (whole text (pos n)) (pos n) ≡ fault
back_write_over fd text zero h = absurd (omega arith)
back_write_over fd text (suc n) h = ground arith

module _ (os : Gemdos) (path : Bytes) (settings : Bytes) (keys : List Bytes) (text : Bytes) where
  -- If no line sets a key, the file can be read and opened for writing, and the local variable `sn`,
  -- which nothing has set then, happens to hold a value not above 0, then the settings alone are
  -- written to the file opened.
  save_config_unset :
      (sn : ℤ)
      → AllNowhere keys text
      → Loads os path text
      → positive (os.fopen path 1) ≡ true
      → positive sn ≡ false
      → save_config os sn path keys settings []
        ≡ ok (
          pos 1,
          load_calls os path
              ++ (opened path 1
                  ∷ written (os.fopen path 1) settings
                  ∷ closed (os.fopen path 1)
                  ∷ []),
        )
  unfolding save_config write_config
  save_config_unset sn unset loads opens low =
      rw (load_file-Loads os path text loads, ◌>>=◌, opens)
        (rw (cut_lines_unset keys text sn unset, ◌>>=◌)
          (rw (sub_zero sn, back_write_none (os.fopen path 1) (whole text sn) sn low) refl))

  -- If no line sets a key, the file can be read and opened for writing, and `sn` happens to hold a
  -- value above the size of the file, then the write behind the settings reads beyond the block of the
  -- file.
  pub save_config_overrun :
      (n : ℕ)
      → AllNowhere keys text
      → Loads os path text
      → positive (os.fopen path 1) ≡ true
      → length text < n
      → save_config os (pos n) path keys settings [] ≡ fault
  unfolding save_config write_config
  save_config_overrun n unset loads opens over =
      rw (load_file-Loads os path text loads, ◌>>=◌, opens)
        (rw (cut_lines_unset keys text (pos n) unset, ◌>>=◌)
          (rw (sub_zero (pos n), back_write_over (os.fopen path 1) text n over) refl))
