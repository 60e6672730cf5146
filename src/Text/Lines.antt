-- ===== src/Text/Lines.antt =====
-- Files as lists of lines, and `next_line` on one line of such a file.
use chgres.Base.{
  ℕ, zero, suc, ◌+◌, ◌<◌, min, ◌≡◌, refl, ap, ◌≢◌, inl, inr, Bool, true, false, ◌||◌, List, [], ◌∷◌,
  ◌++◌, arith, ◌==◌, if◌then◌else◌, Bool-cases, Bytes, length, take, drop, length-append,
}
use native.Mathlib.Nat.{zero-min, min-zero, suc-min-suc, zero-add, suc-add}
use chgres.Base.Exec.{ok}
use chgres.Text.{next_line_loop, next_line, line_text}

pub data Eol : Type 0 where
  lf crlf : Eol

abbrev pub eol_bytes : Eol → Bytes
eol_bytes lf = 0x0a ∷ []
eol_bytes crlf = 0x0d ∷ 0x0a ∷ []

-- No line end in it.
abbrev pub IsBody : Bytes → Type 0
IsBody [] = Unit
IsBody (c ∷ s) = (c ≢ 0x0d) × (c ≢ 0x0a) × IsBody s

-- What stands before the first `;` or `*`.
abbrev pub before_comment : Bytes → Bytes
before_comment [] = []
before_comment (c ∷ s) = if c == b';' || c == b'*' then [] else c ∷ before_comment s

pub record TextLine : Type 0 where
  pub body : Bytes
  pub eol : Eol

abbrev pub line_bytes : TextLine → Bytes
line_bytes l = l.body ++ eol_bytes l.eol

abbrev pub render : List TextLine → Bytes
render [] = []
render (l ∷ ls) = l.body ++ (eol_bytes l.eol ++ render ls)

abbrev pub AreLines : List TextLine → Type 0
AreLines [] = Unit
AreLines (l ∷ ls) = IsBody l.body × AreLines ls

-- The text of a line that `find_line` compares: at most 511 bytes, without comment.
abbrev pub compared : Bytes → Bytes
compared body = take 511 (before_comment body)

abbrev pub loop_valid : Bool → Bytes → ℕ
loop_valid comment body = if comment then 0 else length (before_comment body)

pub next_line_loop-body :
    (body : Bytes) (e : Eol) (rest : Bytes) (n : ℕ) (comment : Bool)
    → IsBody body
    → length body < n
    → next_line_loop (body ++ (eol_bytes e ++ rest)) n comment
      ≡ ok (record { len = length body + length (eol_bytes e); valid = loop_valid comment body })
unfolding next_line_loop
next_line_loop-body body e rest zero comment b h = absurd (omega arith)
next_line_loop-body [] lf rest (suc n) true b h = refl
next_line_loop-body [] lf rest (suc n) false b h = refl
next_line_loop-body [] crlf rest (suc n) true b h = refl
next_line_loop-body [] crlf rest (suc n) false b h = refl
next_line_loop-body (c ∷ body) e rest (suc n) comment b h = ground (
  arith,
  next_line_loop-body body e rest n true b.2 (omega arith),
  next_line_loop-body body e rest n false b.2 (omega arith),
)

-- The last line of a file, without its end: no byte behind it is read.
next_line_loop-tail :
    (body rest : Bytes) (comment : Bool)
    → IsBody body
    → next_line_loop (body ++ rest) (length body) comment
      ≡ ok (record { len = length body; valid = loop_valid comment body })
unfolding next_line_loop
next_line_loop-tail [] rest true b = refl
next_line_loop-tail [] rest false b = refl
next_line_loop-tail (c ∷ body) rest comment b =
    ground (arith, next_line_loop-tail body rest true b.2, next_line_loop-tail body rest false b.2)

-- On a line of any length that holds no other line end, with at least the first byte of its end
-- within `maxlen`, `next_line` gives the line's length with its end, and the number of bytes before
-- the first comment character; what follows the line does not matter.
pub next_line-line_bytes :
    (l : TextLine) (rest : Bytes) (maxlen : ℕ)
    → IsBody l.body
    → length l.body < maxlen
    → next_line (l.body ++ (eol_bytes l.eol ++ rest)) maxlen
      ≡ ok (record { len = length (line_bytes l); valid = length (before_comment l.body) })
unfolding next_line
next_line-line_bytes l rest maxlen b h =
    rw length-append (next_line_loop-body l.body l.eol rest maxlen false b h)

pub next_line_tail :
    (body rest : Bytes)
    → IsBody body
    → next_line (body ++ rest) (length body)
      ≡ ok (record { len = length body; valid = length (before_comment body) })
unfolding next_line
next_line_tail body rest b = next_line_loop-tail body rest false b

take_none : (k : ℕ) → ◌≡◌ {A = Bytes} [] (take k [])
take_none zero = refl
take_none (suc k) = refl

pub take-before_comment :
    (k : ℕ) (body rest : Bytes)
    → take (min (length (before_comment body)) k) (body ++ rest) ≡ take k (before_comment body)
take-before_comment k [] rest = rw zero-min (take_none k)
take-before_comment zero (c ∷ body) rest = rw min-zero refl
take-before_comment (suc k) (c ∷ body) rest = elim (Bool-cases (c == b';' || c == b'*')) [
  | inl comment ↦ rw (comment, zero-min) refl
  | inr code ↦ rw (code, suc-min-suc) (ap (λ s. c ∷ s) (take-before_comment k body rest))
]

pub drop-length_add : (xs ys : Bytes) (n : ℕ) → drop (length xs + n) (xs ++ ys) ≡ drop n ys
drop-length_add [] ys n = rw zero-add refl
drop-length_add (x ∷ xs) ys n = rw suc-add (drop-length_add xs ys n)

-- What the loop of `find_line` does with a line: it compares `compared` and goes on behind the end.
pub line_text-compared :
    (l : TextLine) (rest : Bytes) (k : ℕ)
    → line_text (l.body ++ rest) (record { len = k; valid = length (before_comment l.body) })
      ≡ compared l.body
line_text-compared l rest k = take-before_comment 511 l.body rest

pub drop-line_bytes :
    (l : TextLine) (rest : Bytes)
    → drop (length (line_bytes l)) (l.body ++ (eol_bytes l.eol ++ rest)) ≡ rest
drop-line_bytes l rest = rw (length-append, drop-length_add) (drop_eol l.eol)
  where
    drop_eol : (e : Eol) → drop (length (eol_bytes e)) (eol_bytes e ++ rest) ≡ rest
    drop_eol lf = refl
    drop_eol crlf = refl
