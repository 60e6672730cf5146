-- ===== src/Text/Remove.antt =====
-- `remove_line` on a file of lines.
use chgres.Base.{
  ℕ, suc, ◌+◌, ◌-◌, ◌<◌, ◌≡◌, refl, ap, true, false, Option, none, some, List, [], ◌∷◌, ◌++◌, arith,
  Bytes, length, take, drop,
}
use native.Mathlib.Nat.{sub_self, le-add_right}
use chgres.Base.Int.{ℤ, pos}
use chgres.Base.Exec.{Exec, ok}
use chgres.Text.{Removed, moved, find_str, remove_found, remove_line}
use chgres.Text.Lines.{
  eol_bytes, IsBody, TextLine, line_bytes, render, AreLines, compared, drop-line_bytes,
  drop-length_add,
}
use chgres.Text.Find.{matches, NoMatch, file_size, find_line-found, find_line_absent}

pub take-length_append : (xs ys : Bytes) → take (length xs) (xs ++ ys) ≡ xs
take-length_append [] ys = refl
take-length_append (x ∷ xs) ys = ap (λ s. x ∷ s) (take-length_append xs ys)

-- The bytes behind the new end of the file, which `memmove` leaves as they were.
abbrev pub leftover : Bytes → TextLine → Bytes → Bytes → Bytes
leftover front l rest beyond =
    drop (length front + length rest) (front ++ (l.body ++ (eol_bytes l.eol ++ (rest ++ beyond))))

moved_lem :
    (front : Bytes) (l : TextLine) (rest beyond : Bytes) (r : ℤ)
    → moved
        (front ++ (l.body ++ (eol_bytes l.eol ++ (rest ++ beyond))))
        (record { offset = length front; remain = r; linesize = length (line_bytes l) })
        (length rest)
      ≡ front ++ (rest ++ leftover front l rest beyond)
moved_lem front l rest beyond r = rw (
  take-length_append,
  drop-length_add front _ (length (line_bytes l)),
  drop-line_bytes,
  take-length_append,
)

same_removed :
    {o n n' : ℕ} {b b' : Bytes}
    → n ≡ n'
    → b ≡ b'
    → ◌≡◌ {A = Exec (Option Removed)}
        (ok (some (record { offset = o; newsize = n; buffer = b })))
        (ok (some (record { offset = o; newsize = n'; buffer = b' })))
same_removed {o} p q = λ i. ok (some (record { offset = o; newsize = p i; buffer = q i }))

behind : (a n : ℕ) → a + suc n - a ≡ suc n
behind a n = omega arith

without : (a k n : ℕ) → a + k + n - k ≡ a + n
without a k n = omega arith

-- In a file where a line matches that is not the last, `remove_line` takes out the first such line
-- and nothing else: it returns its offset, the new size, and a buffer that begins with the rest of
-- the file.
pub remove_line-found :
    (before : List TextLine) (l : TextLine) (c : ℕ) (rest beyond str : Bytes)
    → AreLines before
    → NoMatch str before
    → IsBody l.body
    → matches str l ≡ true
    → remove_line
        (render before ++ (l.body ++ (eol_bytes l.eol ++ (c ∷ rest ++ beyond))))
        str
        (file_size before + length (line_bytes l) + length (c ∷ rest))
      ≡ ok (
          some (record {
            offset = file_size before;
            newsize = file_size before + length (c ∷ rest);
            buffer = render before ++ (c ∷ rest ++ leftover (render before) l (c ∷ rest) beyond);
          }))
unfolding remove_line
remove_line-found before l c rest beyond str bs ns b m =
    rw
      (find_line-found before l (c ∷ rest ++ beyond) str
        (file_size before + length (line_bytes l) + length (c ∷ rest)) bs ns b m (le-add_right _ _))
      (rw (behind (file_size before + length (line_bytes l)) (length rest), remove_found)
        (same_removed (without (file_size before) (length (line_bytes l)) (suc (length rest)))
          (moved_lem (render before) l (c ∷ rest) beyond (pos 0))))

-- If no line of the file matches, a last line without an end included, `remove_line` returns NULL.
pub remove_line-none :
    (ls : List TextLine) (tail beyond str : Bytes)
    → AreLines ls
    → NoMatch str ls
    → IsBody tail
    → find_str (compared tail) str ≡ false
    → remove_line (render ls ++ (tail ++ beyond)) str (file_size ls + length tail) ≡ ok none
unfolding remove_line
remove_line-none ls tail beyond str bs ns b m =
    rw ((find_line_absent ls tail beyond str bs ns b m).1)

-- If the last line of the file has an end and matches, and no line before it does, `remove_line`
-- returns NULL and the line stays.
pub remove_line_last :
    (before : List TextLine) (l : TextLine) (beyond str : Bytes)
    → AreLines before
    → NoMatch str before
    → IsBody l.body
    → matches str l ≡ true
    → remove_line
        (render before ++ (l.body ++ (eol_bytes l.eol ++ beyond)))
        str
        (file_size before + length (line_bytes l))
      ≡ ok none
unfolding remove_line
remove_line_last before l beyond str bs ns b m = rw (
  find_line-found before l beyond str (file_size before + length (line_bytes l)) bs ns b m
      (omega arith),
  sub_self,
)

-- The same, where what follows the line is known not to be empty.
pub remove_line-nonempty :
    (before : List TextLine) (l : TextLine) (back beyond str : Bytes)
    → 0 < length back
    → AreLines before
    → NoMatch str before
    → IsBody l.body
    → matches str l ≡ true
    → remove_line
        (render before ++ (l.body ++ (eol_bytes l.eol ++ (back ++ beyond))))
        str
        (file_size before + length (line_bytes l) + length back)
      ≡ ok (
          some (record {
            offset = file_size before;
            newsize = file_size before + length back;
            buffer = render before ++ (back ++ leftover (render before) l back beyond);
          }))
remove_line-nonempty before l [] beyond str h = absurd (omega arith)
remove_line-nonempty before l (c ∷ back) beyond str h = remove_line-found before l c back beyond str
