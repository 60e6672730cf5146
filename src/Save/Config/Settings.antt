-- ===== src/Save/Config/Settings.antt =====
-- The lines that set the keys, and what is left when they are cut out.
use chgres.Base.{
  ℕ, suc, ◌+◌, ◌≤◌, ◌<◌, ◌≡◌, refl, sym, ◌∙◌, true, List, [], ◌∷◌, ◌++◌, arith, Bytes, length,
  length-append,
}
use mathlib.Core.List.{append_assoc, append-nil}
use chgres.Base.Int.{ℤ, pos, ◌-ℤ◌}
use chgres.Base.Exec.{ok}
use chgres.Save.Config.{Cut, cut_line, cut_lines}
use chgres.Text.Lines.{IsBody, TextLine, eol_bytes, line_bytes, render, AreLines}
use chgres.Text.Find.{matches, NoMatch, file_size}
use chgres.Text.Remove.{leftover, remove_line-nonempty}
use chgres.Text.Whole.{around}

-- A key, and the line of the file that sets it.
pub record Setting : Type 0 where
  pub key : Bytes
  pub line : TextLine

abbrev pub keys_of : List Setting → List Bytes
keys_of [] = []
keys_of (s ∷ ss) = s.key ∷ keys_of ss

abbrev pub lines_of : List Setting → List TextLine
lines_of [] = []
lines_of (s ∷ ss) = s.line ∷ lines_of ss

-- Every line sets its key, and no line before them sets one of the keys.
abbrev pub AreSet : List TextLine → List Setting → Type 0
AreSet before [] = Unit
AreSet before (s ∷ ss) =
    NoMatch s.key before × IsBody s.line.body × (matches s.key s.line ≡ true) × AreSet before ss

-- The cut when the settings are gone, with the bytes behind the new end of the file.
abbrev pub cut_at : List TextLine → Bytes → Bytes → Cut
cut_at before back beyond = record {
  buffer = render before ++ (back ++ beyond);
  place = file_size before;
  size = file_size before + length back;
  newsize = pos (file_size before + length back);
}

-- One setting, wherever the last cut was.
cut_line_lem :
    (before : List TextLine) (s : Setting) (back beyond : Bytes) (place : ℕ) (newsize : ℤ)
    → 0 < length back
    → AreLines before
    → NoMatch s.key before
    → IsBody s.line.body
    → matches s.key s.line ≡ true
    → cut_line
        (record {
          buffer = around (render before) s.line (back ++ beyond);
          place = place;
          size = file_size before + length (line_bytes s.line) + length back;
          newsize = newsize;
        })
        s.key
      ≡ ok (cut_at before back (leftover (render before) s.line back beyond))
unfolding cut_line
cut_line_lem before s back beyond place newsize h bs ns b m =
    rw (remove_line-nonempty before s.line back beyond s.key h bs ns b m) refl

-- The text from the first of the settings on, with `back` behind them.
abbrev pub stacked : List Setting → Bytes → Bytes
stacked [] back = back
stacked (s ∷ ss) back = s.line.body ++ (eol_bytes s.line.eol ++ stacked ss back)

stacked-append :
    (ss : List Setting) (back beyond : Bytes)
    → stacked ss (back ++ beyond) ≡ stacked ss back ++ beyond
stacked-append [] back beyond = refl
stacked-append (s ∷ ss) back beyond = simp (stacked-append ss back beyond, append_assoc)

length-stacked_cons :
    (s : Setting) (ss : List Setting) (back : Bytes)
    → length (stacked (s ∷ ss) back) ≡ length (line_bytes s.line) + length (stacked ss back)
length-stacked_cons s ss back = omega (
  arith,
  length-append s.line.body (eol_bytes s.line.eol ++ stacked ss back),
  length-append (eol_bytes s.line.eol) (stacked ss back),
  length-append s.line.body (eol_bytes s.line.eol),
)

length-le-stacked : (ss : List Setting) (back : Bytes) → length back ≤ length (stacked ss back)
length-le-stacked [] back = omega arith
length-le-stacked (s ∷ ss) back =
    omega (arith, length-stacked_cons s ss back, length-le-stacked ss back)

-- The cut before the settings are gone.
abbrev uncut : List TextLine → List Setting → Bytes → Bytes → ℕ → ℤ → Cut
uncut before ss back beyond place newsize = record {
  buffer = render before ++ stacked ss (back ++ beyond);
  place = place;
  size = file_size before + length (stacked ss back);
  newsize = newsize;
}

uncut_eq :
    (before : List TextLine) (s : Setting) (ss : List Setting) (back beyond : Bytes) (place : ℕ)
    (newsize : ℤ)
    → uncut before (s ∷ ss) back beyond place newsize ≡ record {
      buffer = around (render before) s.line (stacked ss back ++ beyond);
      place = place;
      size = file_size before + length (line_bytes s.line) + length (stacked ss back);
      newsize = newsize;
    }
uncut_eq before s ss back beyond place newsize = λ i. record {
  buffer = around (render before) s.line (stacked-append ss back beyond i);
  place = place;
  size = sizes i;
  newsize = newsize;
}
  where
    sizes :
        file_size before + length (stacked (s ∷ ss) back)
        ≡ file_size before + length (line_bytes s.line) + length (stacked ss back)
    sizes = omega (arith, length-stacked_cons s ss back)

pub cut_lines_step :
    (c : Cut) (key : Bytes) (keys : List Bytes) {c' : Cut}
    → cut_line c key ≡ ok c'
    → cut_lines c (key ∷ keys) ≡ cut_lines c' keys
unfolding cut_lines
cut_lines_step c key keys e = rw (e, cut_lines) refl

pub cut_lines_lem :
    (ss : List Setting) (s : Setting) (before : List TextLine) (back beyond : Bytes) (place : ℕ)
    (newsize : ℤ)
    → 0 < length back
    → AreLines before
    → AreSet before (s ∷ ss)
    → (more : Bytes) × (cut_lines
          (uncut before (s ∷ ss) back beyond place newsize)
          (keys_of (s ∷ ss))
        ≡ ok (cut_at before back more))
cut_lines_lem [] s before back beyond place newsize h bs (n, b, m, _) = (
  leftover (render before) s.line back beyond,
  rw uncut_eq (
      cut_lines_step _ s.key [] (cut_line_lem before s back beyond place newsize h bs n b m)
      ∙ unfold cut_lines in refl),
)
cut_lines_lem (t ∷ ss) s before back beyond place newsize h bs (n, b, m, others) =
    let rest = stacked (t ∷ ss) back in
    let behind = leftover (render before) s.line rest beyond in
    let (more, e) =
      cut_lines_lem ss t before back behind (file_size before)
        (pos (file_size before + length rest)) h bs others in
    (
      more,
      rw uncut_eq (
          cut_lines_step _ s.key (keys_of (t ∷ ss)) (
            cut_line_lem before s rest beyond place newsize
              (omega (arith, length-le-stacked (t ∷ ss) back)) bs n b m)
          ∙ rw (← stacked-append (t ∷ ss) back behind) e),
    )

pub uncut_start :
    (before : List TextLine) (ss : List Setting) (back : Bytes) (newsize : ℤ)
    → ◌≡◌ {A = Cut}
        (record {
          buffer = render before ++ stacked ss back;
          place = 0;
          size = length (render before ++ stacked ss back);
          newsize = newsize;
        })
        (uncut before ss back [] 0 newsize)
uncut_start before ss back newsize = λ i. record {
  buffer = render before ++ stacked ss (sym (append-nil back) i);
  place = 0;
  size = length-append (render before) (stacked ss back) i;
  newsize = newsize;
}

pub newsize-place : (a n : ℕ) → pos (a + suc n) -ℤ pos a ≡ pos (suc n)
unfolding ◌-ℤ◌
newsize-place a n = ground arith
