-- ===== src/Text/Find.antt =====
-- `find_line` on a file of lines: it stops at the first line whose text matches.
use chgres.Base.{
  ℕ, zero, suc, ◌+◌, ◌-◌, ◌≤◌, ◌<◌, ◌≡◌, refl, ◌∙◌, inl, inr, Bool, true, false, ◌&&◌, List, [],
  ◌∷◌, ◌++◌, arith, ltb, if◌then◌else◌, Bool-cases, Bytes, length, length-append,
}
use native.Mathlib.Nat.{zero-add, add-zero}
use native.Mathlib.Decide.{dec_lt}
use mathlib.Core.List.{append_assoc}
use chgres.Base.Int.{pos, sub_ℕ, ltb_ℤ}
use chgres.Base.Exec.{Exec, ok}
use chgres.Text.{Found, find_str, find_line_loop, find_line}
use chgres.Text.Lines.{
  Eol, lf, crlf, eol_bytes, IsBody, TextLine, line_bytes, render, AreLines, compared,
  next_line-line_bytes, next_line_tail, line_text-compared, drop-line_bytes, take-before_comment,
}

-- The text of the line, without blanks in front and without comment, begins with `str`.
abbrev pub matches : Bytes → TextLine → Bool
matches str l = find_str (compared l.body) str

abbrev pub NoMatch : Bytes → List TextLine → Type 0
NoMatch str [] = Unit
NoMatch str (l ∷ ls) = (matches str l ≡ false) × NoMatch str ls

abbrev pub file_size : List TextLine → ℕ
file_size ls = length (render ls)

pub body-lt-line : (l : TextLine) → length l.body < length (line_bytes l)
body-lt-line l = rw length-append (pos_eol l.eol)
  where
    pos_eol : (e : Eol) → length l.body < length l.body + length (eol_bytes e)
    pos_eol lf = omega arith
    pos_eol crlf = omega arith

pub length-render_cons :
    (l : TextLine) (ls : List TextLine) → file_size (l ∷ ls) ≡ length (line_bytes l) + file_size ls
length-render_cons l ls = omega (
  arith,
  length-append l.body (eol_bytes l.eol ++ render ls),
  length-append (eol_bytes l.eol) (render ls),
  length-append l.body (eol_bytes l.eol),
)

sub_ℕ_le : (a b : ℕ) → b ≤ a → sub_ℕ a b ≡ pos (a - b)
sub_ℕ_le a b h = ground arith

sub_ℕ_self : (a : ℕ) → sub_ℕ a a ≡ pos 0
sub_ℕ_self a = ground arith

going_on : (a b : ℕ) → b < a → 0 < b → (ltb_ℤ (pos 0) (sub_ℕ a b) && ltb 0 b) ≡ true
going_on a b h k = ground arith

-- One round of the loop, on a line that matches.
find_line_loop_hit :
    (l : TextLine) (rest str : Bytes) (fuel size offset : ℕ)
    → IsBody l.body
    → matches str l ≡ true
    → length (line_bytes l) ≤ size
    → find_line_loop (suc fuel) (l.body ++ (eol_bytes l.eol ++ rest)) str size offset
      ≡ ok (record {
        offset = offset;
        remain = pos (size - length (line_bytes l));
        linesize = length (line_bytes l);
      })
unfolding find_line_loop
find_line_loop_hit l rest str fuel size offset b m h =
    rw (next_line-line_bytes l rest size b (omega (arith, body-lt-line l)), line_text-compared, m)
      (rw (sub_ℕ_le size _ h) refl)

-- One round, on a line that does not match and is not the last.
find_line_loop_miss :
    (l : TextLine) (rest str : Bytes) (fuel size offset : ℕ)
    → IsBody l.body
    → matches str l ≡ false
    → length (line_bytes l) < size
    → find_line_loop (suc fuel) (l.body ++ (eol_bytes l.eol ++ rest)) str size offset
      ≡ find_line_loop fuel rest str (size - length (line_bytes l)) (offset + length (line_bytes l))
unfolding find_line_loop
find_line_loop_miss l rest str fuel size offset b m h =
    rw (next_line-line_bytes l rest size b (omega (arith, body-lt-line l)), line_text-compared, m)
      (rw (going_on size _ h (omega (arith, body-lt-line l)), drop-line_bytes) refl)

same_found :
    {o o' r r' n : ℕ}
    → o ≡ o'
    → r ≡ r'
    → ◌≡◌ {A = Exec Found}
        (ok (record { offset = o; remain = pos r; linesize = n }))
        (ok (record { offset = o'; remain = pos r'; linesize = n }))
same_found {n} p q = λ i. ok (record { offset = p i; remain = pos (q i); linesize = n })

find_line_loop_found :
    (before : List TextLine) (l : TextLine) (rest str : Bytes) (fuel size offset : ℕ)
    → AreLines before
    → NoMatch str before
    → IsBody l.body
    → matches str l ≡ true
    → file_size before + length (line_bytes l) ≤ size
    → file_size before < fuel
    → find_line_loop fuel (render before ++ (l.body ++ (eol_bytes l.eol ++ rest))) str size offset
      ≡ ok (record {
        offset = offset + file_size before;
        remain = pos (size - (file_size before + length (line_bytes l)));
        linesize = length (line_bytes l);
      })
find_line_loop_found before l rest str zero size offset bs ns b m h f = absurd (omega arith)
find_line_loop_found [] l rest str (suc fuel) size offset bs ns b m h f =
    rw (add-zero, zero-add) (find_line_loop_hit l rest str fuel size offset b m (omega arith))
find_line_loop_found (k ∷ before) l rest str (suc fuel) size offset bs ns b m h f =
    rw (append_assoc, append_assoc)
      (find_line_loop_miss k _ str fuel size offset bs.0 ns.0
          (omega (arith, length-render_cons k before, body-lt-line l))
        ∙ find_line_loop_found before l rest str fuel _ _ bs.1 ns.1 b m
            (omega (arith, length-render_cons k before))
            (omega (arith, length-render_cons k before, body-lt-line k))
        ∙ same_found (omega (arith, length-render_cons k before))
            (omega (arith, length-render_cons k before)))

-- If no line before it matches, and a line does, `find_line` gives the offset and the size of that
-- line, and as what remains the bytes of the file behind it.
pub find_line-found :
    (before : List TextLine) (l : TextLine) (rest str : Bytes) (size : ℕ)
    → AreLines before
    → NoMatch str before
    → IsBody l.body
    → matches str l ≡ true
    → file_size before + length (line_bytes l) ≤ size
    → find_line (render before ++ (l.body ++ (eol_bytes l.eol ++ rest))) str size
      ≡ ok (record {
        offset = file_size before;
        remain = pos (size - (file_size before + length (line_bytes l)));
        linesize = length (line_bytes l);
      })
unfolding find_line
find_line-found before l rest str size bs ns b m h =
    find_line_loop_found before l rest str (suc size) size 0 bs ns b m h
      (omega (arith, body-lt-line l))
    ∙ same_found (omega arith) refl

-- The last round, on what follows the last line end.
find_line_loop_tail :
    (tail beyond str : Bytes) (fuel offset : ℕ)
    → IsBody tail
    → (k : ℕ) × (find_line_loop (suc fuel) (tail ++ beyond) str (length tail) offset
        ≡ ok (record {
          offset = if find_str (compared tail) str then offset else offset + length tail;
          remain = pos 0;
          linesize = k;
        }))
unfolding find_line_loop
find_line_loop_tail tail beyond str fuel offset b = (
  length tail,
  rw (next_line_tail tail beyond b, take-before_comment, sub_ℕ_self)
      (elim (Bool-cases (find_str (compared tail) str)) [ inl e ↦ rw e | inr e ↦ rw e ]),
)

-- One round, on a last line that does not match.
find_line_loop_last :
    (l : TextLine) (rest str : Bytes) (fuel size offset : ℕ)
    → IsBody l.body
    → matches str l ≡ false
    → length (line_bytes l) ≡ size
    → find_line_loop (suc fuel) (l.body ++ (eol_bytes l.eol ++ rest)) str size offset
      ≡ ok (record { offset = offset + size; remain = pos 0; linesize = size })
unfolding find_line_loop
find_line_loop_last l rest str fuel size offset b m h =
    rw (next_line-line_bytes l rest size b (omega (arith, body-lt-line l)), line_text-compared, m)
      (rw (h, sub_ℕ_self) refl)

left_over :
    (l : TextLine) (ls : List TextLine) (tail : Bytes)
    → file_size (l ∷ ls) + length tail - length (line_bytes l) ≡ file_size ls + length tail
left_over l ls tail = omega (arith, length-render_cons l ls)

find_line_loop_absent :
    (ls : List TextLine) (tail beyond str : Bytes) (fuel offset : ℕ)
    → AreLines ls
    → NoMatch str ls
    → IsBody tail
    → find_str (compared tail) str ≡ false
    → file_size ls + length tail < fuel
    → (k : ℕ) × (find_line_loop fuel
          (render ls ++ (tail ++ beyond))
          str
          (file_size ls + length tail)
          offset
        ≡ ok (record {
          offset = offset + (file_size ls + length tail);
          remain = pos 0;
          linesize = k;
        }))
find_line_loop_absent ls tail beyond str zero offset bs ns b m f = absurd (omega arith)
find_line_loop_absent [] tail beyond str (suc fuel) offset bs ns b m f =
    let (k, e) = find_line_loop_tail tail beyond str fuel offset b in (k, rw zero-add (rw m at e))
find_line_loop_absent (l ∷ ls) tail beyond str (suc fuel) offset bs ns b m f =
    elim (dec_lt 0 (file_size ls + length tail)) [
      | yes more ↦
          let (k, e) =
            find_line_loop_absent ls tail beyond str fuel (offset + length (line_bytes l)) bs.1 ns.1
              b m (omega (arith, length-render_cons l ls, body-lt-line l)) in
          (
            k,
            rw (append_assoc, append_assoc)
                (find_line_loop_miss l _ str fuel _ offset bs.0 ns.0
                    (omega (arith, length-render_cons l ls))
                  ∙ rw (left_over l ls tail)
                      (e ∙ same_found (omega (arith, length-render_cons l ls)) refl)),
          )
      | no none_left ↦ (
        file_size (l ∷ ls) + length tail,
        rw (append_assoc, append_assoc)
            (find_line_loop_last l _ str fuel _ offset bs.0 ns.0
              (omega (arith, length-render_cons l ls))),
      )
    ]

-- If no line of the file matches, a last line without an end included, then `find_line` gives the end
-- of the file, where nothing remains, whatever bytes stand behind it.
pub find_line_absent :
    (ls : List TextLine) (tail beyond str : Bytes)
    → AreLines ls
    → NoMatch str ls
    → IsBody tail
    → find_str (compared tail) str ≡ false
    → (k : ℕ) × (find_line (render ls ++ (tail ++ beyond)) str (file_size ls + length tail)
        ≡ ok (record { offset = file_size ls + length tail; remain = pos 0; linesize = k }))
unfolding find_line
find_line_absent ls tail beyond str bs ns b m =
    let (k, e) =
      find_line_loop_absent ls tail beyond str (suc (file_size ls + length tail)) 0 bs ns b m
        (omega arith) in
    (k, e ∙ same_found (omega arith) refl)
