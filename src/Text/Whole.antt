-- ===== src/Text/Whole.antt =====
-- The line scanner on a block that holds a file and nothing else, as `load_file` returns it.
use chgres.Base.{
  ℕ, ◌+◌, ◌≡◌, refl, sym, ap, ◌∙◌, true, false, none, List, [], ◌++◌, arith, Bytes, length, take,
  drop, length-append,
}
use mathlib.Core.List.{append-nil, append_assoc}
use chgres.Text.Remove.{remove_line-none, take-length_append}
use chgres.Base.Int.{pos}
use chgres.Base.Exec.{Exec, ok, ◌>>=◌}
use chgres.Text.{remove_line, Found, find_str, find_line}
use chgres.Text.Lines.{
  eol_bytes, IsBody, TextLine, line_bytes, render, AreLines, compared, drop-line_bytes,
  drop-length_add,
}
use chgres.Text.Find.{matches, NoMatch, file_size, find_line-found, find_line_absent}

-- A file with the line `l` in it, as the text before it, the line, and the text behind it.
abbrev pub around : Bytes → TextLine → Bytes → Bytes
around front l back = front ++ (l.body ++ (eol_bytes l.eol ++ back))

pub length-around :
    (front : Bytes) (l : TextLine) (back : Bytes)
    → length (around front l back) ≡ length front + length (line_bytes l) + length back
length-around front l back = omega (
  arith,
  length-append front (l.body ++ (eol_bytes l.eol ++ back)),
  length-append l.body (eol_bytes l.eol ++ back),
  length-append (eol_bytes l.eol) back,
  length-append l.body (eol_bytes l.eol),
)

-- The bytes behind the line.
pub drop-around :
    (front : Bytes) (l : TextLine) (back : Bytes)
    → drop (length front + length (line_bytes l)) (around front l back) ≡ back
drop-around front l back = rw (drop-length_add front, drop-line_bytes) refl

around_regroup :
    (front : Bytes) (l : TextLine) (back : Bytes)
    → around front l back ≡ (front ++ line_bytes l) ++ back
around_regroup front l back = simp append_assoc

-- The bytes up to the end of the line.
pub take-around :
    (front : Bytes) (l : TextLine) (back : Bytes)
    → take (length front + length (line_bytes l)) (around front l back) ≡ front ++ line_bytes l
take-around front l back =
    ap (take (length front + length (line_bytes l))) (around_regroup front l back)
    ∙ ap (λ n. take n ((front ++ line_bytes l) ++ back)) (sym (length-append front (line_bytes l)))
    ∙ take-length_append (front ++ line_bytes l) back

found_cong :
    {o r r' n : ℕ}
    → r ≡ r'
    → ◌≡◌ {A = Exec Found}
        (ok (record { offset = o; remain = pos r; linesize = n }))
        (ok (record { offset = o; remain = pos r'; linesize = n }))
found_cong {o} {n} q = λ i. ok (record { offset = o; remain = pos (q i); linesize = n })

-- `find_line` on a whole file gives the first matching line, and the length of what follows it.
pub find_line-around :
    (before : List TextLine) (l : TextLine) (back str : Bytes)
    → AreLines before
    → NoMatch str before
    → IsBody l.body
    → matches str l ≡ true
    → find_line (around (render before) l back) str (length (around (render before) l back))
      ≡ ok (record {
        offset = file_size before;
        remain = pos (length back);
        linesize = length (line_bytes l);
      })
find_line-around before l back str bs ns b m =
    find_line-found before l back str (length (around (render before) l back)) bs ns b m
      (omega (arith, length-around (render before) l back))
    ∙ found_cong (omega (arith, length-around (render before) l back))

-- A file of lines, the last of which may have no end, where no line matches.
pub record Nowhere (str text : Bytes) : Type 0 where
  pub ls : List TextLine
  pub tail : Bytes
  pub text_is : text ≡ render ls ++ tail
  pub are_lines : AreLines ls
  pub no_match : NoMatch str ls
  pub is_body : IsBody tail
  pub no_match_tail : find_str (compared tail) str ≡ false

-- `find_line` says that nothing remains.
abbrev pub Unseen : Bytes → Bytes → Type 0
Unseen str text =
    (o : ℕ) × (k : ℕ) × (find_line text str (length text)
      ≡ ok (record { offset = o; remain = pos 0; linesize = k }))

pub Nowhere-Unseen : (str text : Bytes) → Nowhere str text → Unseen str text
Nowhere-Unseen str text w =
    let (k, e) =
      find_line_absent w.ls w.tail [] str w.are_lines w.no_match w.is_body w.no_match_tail in
    (length text, k, rw w.text_is (rw length-append (rw append-nil at e)))

-- So it does for a line that is the last of the file.
pub last-Unseen :
    (before : List TextLine) (l : TextLine) (str : Bytes)
    → AreLines before
    → NoMatch str before
    → IsBody l.body
    → matches str l ≡ true
    → Unseen str (around (render before) l [])
last-Unseen before l str bs ns b m =
    (file_size before, length (line_bytes l), find_line-around before l [] str bs ns b m)

-- Then `remove_line` returns NULL.
pub remove_line-Unseen :
    (str text : Bytes) → Unseen str text → remove_line text str (length text) ≡ ok none
unfolding remove_line
remove_line-Unseen str text (o, k, e) = rw (e, ◌>>=◌) refl

-- The same in a larger block.
pub remove_line-Nowhere :
    (str text beyond : Bytes)
    → Nowhere str text
    → remove_line (text ++ beyond) str (length text) ≡ ok none
remove_line-Nowhere str text beyond w = rw w.text_is (
    rw (append_assoc, length-append)
      (remove_line-none w.ls w.tail beyond str w.are_lines w.no_match w.is_body w.no_match_tail))
