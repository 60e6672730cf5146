-- ===== src/Nvdivga/Load/Edited.antt =====
-- The words of nvdivga.inf behind the two writes of `save_nvdivga_inf`.
use chgres.Base.{
  ℕ, suc, ◌+◌, ◌*◌, ◌/◌, ◌%◌, ◌≤◌, ◌<◌, ◌≡◌, refl, sym, ap, ◌∙◌, ◌≢◌, ◌⊎◌, inl, inr, some, List, [],
  ◌∷◌, ◌++◌, arith, Bytes, length, get_elem?,
}
use chgres.Base.Exec.{Exec, ok, fault, timeout}
use chgres.Gemdos.Copy.{spliced}
use chgres.Gemdos.Spliced.{get_elem?-spliced_inside, get_elem?-spliced_outside}
use chgres.Nvdivga.{Fields, fields_at}
use chgres.Nvdivga.Vgainf.{
  sizeof_vgainf, vgainf_defmode, vga_xres, vga_yres, vga_visible_xres, vga_visible_yres, vga_vfreq,
}
use chgres.Nvdivga.Block.{word_at, word_at-Agree, word_at-inside}
use chgres.Nvdivga.Load.{word_bytes}
use chgres.Volume.Edit.{edited, AllFit, length-spliced}

-- A word of a copy, and one beside it.
word_at-spliced :
    (p : Bytes) (at : ℕ) (s : Bytes) (j a b : ℕ)
    → at + length s ≤ length p
    → suc j < length s
    → get_elem? s j ≡ some a
    → get_elem? s (suc j) ≡ some b
    → word_at (spliced p at s) (at + j) ≡ ok (a * 256 + b)
unfolding word_at
word_at-spliced p at s j a b h l e f =
    let next : at + j + 1 ≡ at + suc j = omega arith in
    rw
      (
        next,
        get_elem?-spliced_inside p at s j h (omega arith) ∙ e,
        get_elem?-spliced_inside p at s (suc j) h l ∙ f,
      )
      refl

word_at-spliced_ne :
    (p : Bytes) (at : ℕ) (s : Bytes) (i : ℕ)
    → at + length s ≤ length p
    → (i + 2 ≤ at) ⊎ (at + length s ≤ i)
    → word_at (spliced p at s) i ≡ word_at p i
word_at-spliced_ne p at s i h o =
    word_at-Agree (spliced p at s) p i
      (λ j m m'. get_elem?-spliced_outside p at s j h (ground arith))

abbrev ok_or : Exec Fields → Fields → Fields
ok_or (ok a) b = a
ok_or fault b = b
ok_or timeout b = b

-- The words that `fields_at` reads.
abbrev AreFields : Bytes → ℕ → ℕ → Fields → Type 0
AreFields p at i f =
    (word_at p (at + vga_xres) ≡ ok f.xres)
    × (word_at p (at + vga_yres) ≡ ok f.yres)
    × (word_at p (at + vga_visible_xres) ≡ ok f.visible_xres)
    × (word_at p (at + vga_visible_yres) ≡ ok f.visible_yres)
    × (word_at p (at + vga_vfreq) ≡ ok f.vfreq)
    × (word_at p (vgainf_defmode + 2 * i) ≡ ok f.defmode)

fields_at-AreFields :
    (p : Bytes) (at i : ℕ) (f : Fields) → AreFields p at i f → fields_at p at i ≡ ok f
unfolding fields_at
fields_at-AreFields p at i f (x, y, vx, vy, q, d) = rw (x, y, vx, vy, q, d) refl

AreFields-fields_at :
    (p : Bytes) (at i : ℕ) (f : Fields)
    → at + 100 ≤ length p
    → vgainf_defmode + 2 * i + 2 ≤ length p
    → fields_at p at i ≡ ok f
    → AreFields p at i f
AreFields-fields_at p at i f l m e =
    let (x, ex) = word_at-inside p (at + vga_xres) (omega arith) in
    let (y, ey) = word_at-inside p (at + vga_yres) (omega arith) in
    let (vx, evx) = word_at-inside p (at + vga_visible_xres) (omega arith) in
    let (vy, evy) = word_at-inside p (at + vga_visible_yres) (omega arith) in
    let (q, eq) = word_at-inside p (at + vga_vfreq) (omega arith) in
    let (d, ed) = word_at-inside p (vgainf_defmode + 2 * i) m in
    let g : Fields = record {
      xres = x;
      yres = y;
      visible_xres = vx;
      visible_yres = vy;
      vfreq = q;
      defmode = d;
    } in
    let same : g ≡ f =
      ap (λ z. ok_or z f) (sym (fields_at-AreFields p at i g (ex, ey, evx, evy, eq, ed)) ∙ e) in
    rw (← same) (ex, ey, evx, evy, eq, ed)

-- The default mode of entry `i` and the size of the mode at `at`.
abbrev pub file_edits : ℕ → ℕ → ℕ → ℕ → ℕ → List (ℕ × Bytes)
file_edits i d at x y =
    (vgainf_defmode + 2 * i, word_bytes d) ∷ (vga_xres + at, word_bytes x ++ word_bytes y) ∷ []

word_value : (n : ℕ) → n < 65536 → n / 256 % 256 * 256 + n % 256 ≡ n
word_value n l = omega arith

module _ (old : Bytes) (i d at x y : ℕ) (few : i ≤ 14) (behind : sizeof_vgainf ≤ at)
    (size : at + 100 ≤ length old) where
  pub file_edits-AllFit : AllFit (file_edits i d at x y) (length old)
  file_edits-AllFit = (omega arith, (omega arith, tt))

  abbrev header_edited : Bytes
  header_edited = spliced old (vgainf_defmode + 2 * i) (word_bytes d)

  length-header_edited : length header_edited ≡ length old
  length-header_edited = length-spliced old (vgainf_defmode + 2 * i) (word_bytes d) (omega arith)

  pub length-edited : length (edited (file_edits i d at x y) old) ≡ length old
  length-edited =
      length-spliced header_edited (vga_xres + at) (word_bytes x ++ word_bytes y)
        (omega (arith, length-header_edited))
      ∙ length-header_edited

  -- A word that is neither is read as before.
  word_at-edited :
      (k : ℕ)
      → (k + 2 ≤ vgainf_defmode + 2 * i) ⊎ (vgainf_defmode + 2 * i + 2 ≤ k)
      → (k + 2 ≤ vga_xres + at) ⊎ (vga_xres + at + 4 ≤ k)
      → word_at (edited (file_edits i d at x y) old) k ≡ word_at old k
  word_at-edited k a b =
      word_at-spliced_ne header_edited (vga_xres + at) (word_bytes x ++ word_bytes y) k
        (omega (arith, length-header_edited)) b
      ∙ word_at-spliced_ne old (vgainf_defmode + 2 * i) (word_bytes d) k (omega arith) a

  -- The words that are written.
  word_at-size :
      (j n : ℕ)
      → (j ≡ 0) × (n ≡ x) ⊎ (j ≡ 2) × (n ≡ y)
      → n < 65536
      → word_at (edited (file_edits i d at x y) old) (vga_xres + at + j) ≡ ok n
  word_at-size j n o l =
      let fits : vga_xres + at + 4 ≤ length header_edited = omega (arith, length-header_edited) in
      let bytes = word_bytes x ++ word_bytes y in
      elim o [
        | inl (e, same) ↦
            rw (e, same)
              (word_at-spliced header_edited (vga_xres + at) bytes 0 _ _ fits (omega arith) refl
                  refl
                ∙ ap ok (word_value x (rw same at l)))
        | inr (e, same) ↦
            rw (e, same)
              (word_at-spliced header_edited (vga_xres + at) bytes 2 _ _ fits (omega arith) refl
                  refl
                ∙ ap ok (word_value y (rw same at l)))
      ]

  word_at-defmode :
      d < 65536 → word_at (edited (file_edits i d at x y) old) (vgainf_defmode + 2 * i) ≡ ok d
  word_at-defmode l =
      let fits : vga_xres + at + 4 ≤ length header_edited = omega (arith, length-header_edited) in
      let first : vgainf_defmode + 2 * i ≡ vgainf_defmode + 2 * i + 0 = omega arith in
      word_at-spliced_ne header_edited (vga_xres + at) (word_bytes x ++ word_bytes y)
        (vgainf_defmode + 2 * i) fits (inl (omega arith))
      ∙ ap (word_at header_edited) first
      ∙ word_at-spliced old (vgainf_defmode + 2 * i) (word_bytes d) 0 _ _ (omega arith)
          (omega arith) refl refl
      ∙ ap ok (word_value d l)

  -- The fields of the mode behind the edit.
  pub fields_at-edited :
      (f : Fields)
      → d < 65536
      → x < 65536
      → y < 65536
      → fields_at old at i ≡ ok f
      → fields_at (edited (file_edits i d at x y) old) at i
        ≡ ok (record f { xres = x; yres = y; defmode = d })
  fields_at-edited f ld lx ly e =
      let new = edited (file_edits i d at x y) old in
      let (_, _, evx, evy, eq, _) = AreFields-fields_at old at i f size (omega arith) e in
      let here : at + vga_xres ≡ vga_xres + at + 0 = omega arith in
      let below : at + vga_yres ≡ vga_xres + at + 2 = omega arith in
      fields_at-AreFields new at i (record f { xres = x; yres = y; defmode = d })
        (
          ap (word_at new) here ∙ word_at-size 0 x (inl (refl, refl)) lx,
          ap (word_at new) below ∙ word_at-size 2 y (inr (refl, refl)) ly,
          word_at-edited (at + vga_visible_xres) (inr (omega arith)) (inr (omega arith)) ∙ evx,
          word_at-edited (at + vga_visible_yres) (inr (omega arith)) (inr (omega arith)) ∙ evy,
          word_at-edited (at + vga_vfreq) (inr (omega arith)) (inr (omega arith)) ∙ eq,
          word_at-defmode ld,
        )

  -- A mode apart from it, of another depth, is read as before.
  pub fields_at-edited_ne :
      (at' k : ℕ)
      → sizeof_vgainf ≤ at'
      → k ≤ 14
      → k ≢ i
      → (at' + 100 ≤ at) ⊎ (at + 100 ≤ at')
      → fields_at (edited (file_edits i d at x y) old) at' k ≡ fields_at old at' k
  unfolding fields_at
  fields_at-edited_ne at' k m n ne apart =
      rw
        (
          word_at-edited (at' + vga_xres) (inr (omega arith)) (omega arith),
          word_at-edited (at' + vga_yres) (inr (omega arith)) (omega arith),
          word_at-edited (at' + vga_visible_xres) (inr (omega arith)) (omega arith),
          word_at-edited (at' + vga_visible_yres) (inr (omega arith)) (omega arith),
          word_at-edited (at' + vga_vfreq) (inr (omega arith)) (omega arith),
          word_at-edited (vgainf_defmode + 2 * k) (omega arith) (inl (omega arith)),
        )
        refl
