-- ===== src/Save/Desk/Fields.antt =====
-- The fields of the mode in the line of the desktop file, and what is written to them.
use chgres.Base.{
  ℕ, suc, ◌+◌, ◌/◌, ◌%◌, ◌^◌, ◌≤◌, ◌<◌, ◌≡◌, refl, ap, ◌∙◌, true, false, some, [], ◌∷◌, ◌++◌, arith,
  leb, ◌==◌, lt→ltb, Bytes, length,
}
use chgres.Base.Int.{ℤ, pos}
use chgres.Base.Exec.{ok}
use chgres.CLib.{codes, print_x, strupr}
use chgres.CLib.Hex.{
  hex, hex_pair, strupr-print_x_digit, strupr-print_x_pair, strupr-append, length-strupr,
  add-sub_two,
}
use chgres.Gemdos.{positive}
use chgres.Gemdos.Copy.{spliced, overwrite_lem}
use chgres.Machine.{f_system_emutos}
use chgres.Save.Desk.{is_zero, modestr, rez_digit, mode_bytes, copy_modestr, patch}

abbrev pub e_line : Bytes
e_line = codes "#E "

-- The conditions under which the digit of the resolution is written, and the mode.
abbrev pub UsesDigit : ℕ → ℤ → ℕ → Type 0
UsesDigit sys vmode linesize =
    (is_zero vmode ≡ true) × ((sys == f_system_emutos) ≡ false) × (8 ≤ linesize)

length-digit : (k : ℕ) → k < 16 → length (print_x 1 (pos k)) ≡ 1
length-digit k h =
    omega (arith, length-strupr (print_x 1 (pos k)), ap length (strupr-print_x_digit k h))

length-print_pair : (n : ℕ) → n < 256 → length (print_x 2 (pos n)) ≡ 2
length-print_pair n h =
    omega (arith, length-strupr (print_x 2 (pos n)), ap length (strupr-print_x_pair n h))

le→leb : (a b : ℕ) → a ≤ b → leb a b ≡ true
le→leb a b h = ground arith

modestr_lem : (s : Bytes) → length s < 6 → modestr s ≡ ok (strupr s)
modestr_lem s h = rw (lt→ltb _ _ h)

patch_digit :
    (sys k : ℕ) (vmode : ℤ) (eoffset : ℕ) (buf : Bytes) (offset linesize : ℕ)
    → UsesDigit sys vmode linesize
    → k < 16
    → offset + linesize ≤ length buf
    → patch sys (pos (k + 2)) vmode eoffset buf offset linesize
      ≡ ok (some (spliced buf (offset + 7) (hex k ∷ [])))
unfolding patch copy_modestr rez_digit
patch_digit sys k vmode eoffset buf offset linesize (z, e, w) h n =
    rw (z, e, le→leb 8 linesize w, add-sub_two)
      (rw
        (
          modestr_lem (print_x 1 (pos k)) (omega (arith, length-digit k h)),
          strupr-print_x_digit k h,
        )
        (rw (overwrite_lem buf (offset + 7) (hex k ∷ []) (omega arith)) refl))

mode_bytes_pairs :
    (sys : ℕ) (rez : ℤ) (v : ℕ)
    → suc v < 2 ^ 15
    → strupr (mode_bytes sys rez (pos (suc v)))
      ≡ hex_pair (suc v / 256) ++ b' ' ∷ hex_pair (suc v % 256)
unfolding mode_bytes strupr
mode_bytes_pairs sys rez v k =
    strupr-append (print_x 2 (pos (suc v / 256))) (b' ' ∷ print_x 2 (pos (suc v % 256)))
    ∙ rw
        (
          strupr-print_x_pair (suc v / 256) (omega arith),
          strupr-print_x_pair (suc v % 256) (omega arith),
        )
        refl

mode_bytes_emutos :
    (k : ℕ)
    → k < 256
    → strupr (mode_bytes f_system_emutos (pos (k + 2)) (pos 0)) ≡ codes "FF " ++ hex_pair k
unfolding mode_bytes strupr
mode_bytes_emutos k h = rw (add-sub_two, strupr-print_x_pair k h) refl

-- The mode of a line of `linesize` bytes: where in the line it stands, and its bytes.
pub data Field (sys : ℕ) (rez vmode : ℤ) (eoffset linesize : ℕ) : ℕ → Bytes → Type 0 where
  -- an ST mode, except on EmuTOS: the number of the resolution
  digit :
      (k : ℕ)
      → rez ≡ pos (k + 2)
      → k < 16
      → vmode ≡ pos 0
      → (sys == f_system_emutos) ≡ false
      → 8 ≤ linesize
      → Field sys rez vmode eoffset linesize 7 (hex k ∷ [])
  -- an ST mode on EmuTOS: "FF" and the number
  emutos :
      (k : ℕ)
      → rez ≡ pos (k + 2)
      → k < 256
      → vmode ≡ pos 0
      → sys ≡ f_system_emutos
      → eoffset + 5 ≤ linesize
      → Field sys rez vmode eoffset linesize eoffset (codes "FF " ++ hex_pair k)
  -- a mode word, as two bytes
  word :
      (v : ℕ)
      → vmode ≡ pos (suc v)
      → suc v < 2 ^ 15
      → eoffset + 5 ≤ linesize
      → Field sys rez vmode eoffset linesize eoffset
          (hex_pair (suc v / 256) ++ b' ' ∷ hex_pair (suc v % 256))

pub patch-Field :
    {sys : ℕ} {rez vmode : ℤ} {eoffset linesize at : ℕ} {new : Bytes} (buf : Bytes) (offset : ℕ)
    → Field sys rez vmode eoffset linesize at new
    → offset + linesize ≤ length buf
    → patch sys rez vmode eoffset buf offset linesize ≡ ok (some (spliced buf (offset + at) new))
unfolding patch copy_modestr
patch-Field {sys} {eoffset} {linesize} buf offset (digit k r h z e w) n =
    rw (r, z) (patch_digit sys k (pos 0) eoffset buf offset linesize (refl, e, w) h n)
patch-Field {eoffset} {linesize} buf offset (emutos k r h z e w) n =
    rw (r, z, e, le→leb (eoffset + 5) linesize w)
      (rw
        (
          modestr_lem (mode_bytes 3 (pos (k + 2)) (pos 0)) (
              omega (
                arith,
                length-strupr (mode_bytes 3 (pos (k + 2)) (pos 0)),
                ap length (mode_bytes_emutos k h),
              )),
          mode_bytes_emutos k h,
        )
        (rw (overwrite_lem buf (offset + eoffset) (codes "FF " ++ hex_pair k) (omega arith)) refl))
patch-Field {sys} {rez} {eoffset} {linesize} buf offset (word v z h w) n =
    rw (z, le→leb (eoffset + 5) linesize w)
      (rw
        (
          modestr_lem (mode_bytes sys rez (pos (suc v))) (
              omega (
                arith,
                length-strupr (mode_bytes sys rez (pos (suc v))),
                ap length (mode_bytes_pairs sys rez v h),
              )),
          mode_bytes_pairs sys rez v h,
        )
        (rw
          (overwrite_lem buf (offset + eoffset)
            (hex_pair (suc v / 256) ++ b' ' ∷ hex_pair (suc v % 256)) (omega arith))
          refl))

pub Field_fits :
    {sys : ℕ} {rez vmode : ℤ} {eoffset linesize at : ℕ} {new : Bytes}
    → Field sys rez vmode eoffset linesize at new
    → at + length new ≤ linesize
Field_fits (digit k r h z e w) = omega arith
Field_fits (emutos k r h z e w) = w
Field_fits (word v z h w) = w

pub positive-suc : (n : ℕ) → positive (pos (suc n)) ≡ true
positive-suc n = ground arith
