-- ===== src/Save/Fvdi/Driver.antt =====
-- The name of the driver that `save_fvdi_inf` of save.c takes from the line of the depth in FVDI.SYS.
use chgres.Base.{
  ℕ, zero, suc, ◌+◌, ◌-◌, ◌<◌, ◌≡◌, refl, sym, ap, ◌∙◌, ◌⊎◌, inl, inr, true, false, List, [], ◌∷◌,
  ◌++◌, map, arith, ◌==◌, lt→ltb, Bytes, length, drop, replicate, length-append, length-replicate,
}
use mathlib.Core.List.{append_assoc}
use chgres.Base.Int.{pos, sub_ℕ}
use chgres.Base.Exec.{ok}
use chgres.Gemdos.{positive}
use chgres.Gemdos.Copy.{take_of, drop_of}
use chgres.Mode.{Res}
use chgres.Save.Fvdi.{driver_tag, name_byte, driver_name, driver_id}
use chgres.Save.Fvdi.Laws.{Names}
use chgres.Save.Process.{c_string}
use chgres.Text.{skip_white}
use chgres.Text.Lines.{eol_bytes, IsBody, TextLine, line_bytes, render, AreLines, drop-length_add}
use chgres.Text.Find.{matches, NoMatch, file_size}
use chgres.Text.Whole.{around, find_line-around}

-- A byte that may stand in a name.
abbrev pub IsPlain : ℕ → Type 0
IsPlain c =
    ((c == 0) ≡ false)
    × ((c == b' ') ≡ false)
    × ((c == b'\t') ≡ false)
    × ((c == 0x0d) ≡ false)
    × ((c == 0x0a) ≡ false)

abbrev pub ArePlain : Bytes → Type 0
ArePlain [] = Unit
ArePlain (c ∷ s) = IsPlain c × ArePlain s

-- A byte that ends a name: a blank or a byte of the line end.
abbrev pub IsStop : ℕ → Type 0
IsStop c = (c ≡ b' ') ⊎ ((c ≡ 0x0d) ⊎ (c ≡ 0x0a))

skip_blanks :
    (b : ℕ) (c : ℕ) (s : Bytes) → IsPlain c → skip_white (replicate b b' ' ++ c ∷ s) ≡ c ∷ s
unfolding skip_white
skip_blanks zero c s (z, bl, tb, cr, lf) = rw (bl, tb) refl
skip_blanks (suc b) c s p = skip_blanks b c s p

plain-name_byte : (c : ℕ) → IsPlain c → name_byte c ≡ c
plain-name_byte c (z, bl, tb, cr, lf) = rw (cr, lf, bl) refl

stop-name_byte : (c : ℕ) → IsStop c → name_byte c ≡ 0
stop-name_byte c (inl e) = rw e refl
stop-name_byte c (inr (inl e)) = rw e refl
stop-name_byte c (inr (inr e)) = rw e refl

-- The copy of a name ends where the name does.
copied_name :
    (n : ℕ) (name : Bytes) (stop : ℕ) (more old : Bytes)
    → ArePlain name
    → IsStop stop
    → length name < n
    → c_string n (map name_byte (name ++ stop ∷ more) ++ old) ≡ name
copied_name zero name stop more old p s l = absurd (omega arith)
copied_name (suc n) [] stop more old p s l = rw (stop-name_byte stop s) refl
copied_name (suc n) (c ∷ name) stop more old (p, ps) s l =
    rw (plain-name_byte c p, p.0)
      (ap (λ t. c ∷ t) (copied_name n name stop more old ps s (omega arith)))

driver_name_lem :
    (tag name : Bytes) (stop : ℕ) (more rest : Bytes) (n : ℕ)
    → ArePlain name
    → IsStop stop
    → length (name ++ stop ∷ more) ≡ suc n
    → suc n < 31
    → driver_name tag ((name ++ stop ∷ more) ++ rest) (pos (suc n)) ≡ name
driver_name_lem tag name stop more rest n p s l k =
    rw (lt→ltb (suc n) 31 k, take_of (suc n) (name ++ stop ∷ more) rest l)
      (copied_name 32 name stop more (drop (suc n) (tag ++ 0 ∷ [])) p s
        (omega (arith, l, length-append name (stop ∷ more))))

-- The line of the driver in a file: the tag of the depth, blanks, and the name of the driver, with what
-- ends it and what follows up to the end of the line.
pub record IsDriverLine (r : Res) (driver : Bytes) (l : TextLine) : Type 0 where
  pub blanks : ℕ
  pub first : ℕ
  pub others : Bytes
  pub stop : ℕ
  pub more : Bytes
  pub driver_is : driver ≡ first ∷ others
  pub line_is : line_bytes l ≡ driver_tag r ++ (replicate blanks b' ' ++ (driver ++ stop ∷ more))
  pub plain : ArePlain driver
  pub stops : IsStop stop
  pub short : length (driver ++ stop ∷ more) < 31
  pub no_tag : (first == b'#') ≡ false

after_tag :
    (front tag x back : Bytes)
    → drop (length front + length tag) (front ++ (tag ++ (x ++ back))) ≡ x ++ back
after_tag front tag x back =
    drop-length_add front (tag ++ (x ++ back)) (length tag)
    ∙ drop_of (length tag) tag (x ++ back) refl

regroup :
    (l : TextLine) (tag x back : Bytes)
    → line_bytes l ≡ tag ++ x
    → l.body ++ (eol_bytes l.eol ++ back) ≡ tag ++ (x ++ back)
regroup l tag x back e =
    sym (append_assoc l.body (eol_bytes l.eol) back)
    ∙ ap (λ t. t ++ back) e
    ∙ append_assoc tag x back

positive_length : (n : ℕ) → 0 < n → positive (pos n) ≡ true
positive_length n h = ground arith

sub_ℕ-add : (k n : ℕ) → sub_ℕ (k + n) k ≡ pos n
sub_ℕ-add k n = ground arith

-- The number of bytes of the line behind the blanks.
size_is :
    (tag y : Bytes) (b n size : ℕ)
    → size ≡ length tag + (b + n)
    → sub_ℕ size (length tag + (length (replicate b b' ' ++ y) - length y)) ≡ pos n
size_is tag y b n size e =
    let gap : length (replicate b b' ' ++ y) - length y ≡ b =
      omega (arith, length-append (replicate b b' ') y, length-replicate {A = ℕ} b b' ') in
    let whole : size ≡ length tag + b + n = omega (arith, e) in
    rw (gap, whole) (sub_ℕ-add (length tag + b) n)

-- `driver_id` behind the line that `find_line` gives.
driver_id-line :
    (r : Res) (front back : Bytes) (l : TextLine) (blanks first : ℕ) (others : Bytes) (stop : ℕ)
    (more : Bytes)
    → 0 < length back
    → line_bytes l ≡ driver_tag r ++ (replicate blanks b' ' ++ (first ∷ others ++ stop ∷ more))
    → ArePlain (first ∷ others)
    → IsStop stop
    → length (first ∷ others ++ stop ∷ more) < 31
    → driver_id (around front l back) (driver_tag r) (record {
      offset = length front;
      remain = pos (length back);
      linesize = length (line_bytes l);
    })
      ≡ ok (first ∷ others)
unfolding driver_id
driver_id-line r front back l blanks first others stop more h e p s k =
    let x = replicate blanks b' ' ++ (first ∷ others ++ stop ∷ more) in
    let y = first ∷ ((others ++ stop ∷ more) ++ back) in
    let m = length (others ++ stop ∷ more) in
    let whole = regroup l (driver_tag r) x back e in
    let spaces : x ++ back ≡ replicate blanks b' ' ++ y =
      append_assoc (replicate blanks b' ') (first ∷ others ++ stop ∷ more) back in
    let size : length (line_bytes l) ≡ length (driver_tag r) + (blanks + suc m) =
      ap length e
      ∙ omega (
        arith,
        length-append (driver_tag r) x,
        length-append (replicate blanks b' ') (first ∷ others ++ stop ∷ more),
        length-replicate {A = ℕ} blanks b' ',
      ) in
    let skipped = skip_blanks blanks first ((others ++ stop ∷ more) ++ back) p.0 in
    let copied = driver_name_lem (driver_tag r) (first ∷ others) stop more back m p s refl k in
    rw
      (
        whole,
        after_tag front (driver_tag r) x back,
        positive_length (length back) h,
        spaces,
        skipped,
        size_is (driver_tag r) y blanks (suc m) (length (line_bytes l)) size,
      )
      (ap ok copied)

-- The name of a line for the driver is the one that `save_fvdi_inf` takes.
driver-Names :
    (r : Res) (driver : Bytes) (before : List TextLine) (l : TextLine) (back : Bytes)
    → 0 < length back
    → AreLines before
    → NoMatch (driver_tag r) before
    → IsBody l.body
    → matches (driver_tag r) l ≡ true
    → IsDriverLine r driver l
    → Names r (around (render before) l back) driver
driver-Names r driver before l back h bs ns body hit w = rw w.driver_is (record {
  found = record {
    offset = file_size before;
    remain = pos (length back);
    linesize = length (line_bytes l);
  };
  found_is = find_line-around before l back (driver_tag r) bs ns body hit;
  driver_is =
      driver_id-line r (render before) back l w.blanks w.first w.others w.stop w.more h
        (rw w.driver_is at w.line_is) (rw w.driver_is at w.plain) w.stops
        (rw w.driver_is at w.short);
  not_tag = w.no_tag;
})

-- The first line of the file with the tag of the depth names the driver, and is not the last line.
pub record HasDriver (r : Res) (text driver : Bytes) : Type 0 where
  pub before : List TextLine
  pub line : TextLine
  pub back : Bytes
  pub text_is : text ≡ around (render before) line back
  pub are_lines : AreLines before
  pub no_match : NoMatch (driver_tag r) before
  pub is_body : IsBody line.body
  pub hit : matches (driver_tag r) line ≡ true
  pub not_last : 0 < length back
  pub names_it : IsDriverLine r driver line

pub HasDriver-Names :
    (r : Res) (text driver : Bytes) → HasDriver r text driver → Names r text driver
HasDriver-Names r text driver w = rw w.text_is (
    driver-Names r driver w.before w.line w.back w.not_last w.are_lines w.no_match w.is_body w.hit
      w.names_it)
