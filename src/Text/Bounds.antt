-- ===== src/Text/Bounds.antt =====
-- Where the line scanner reads, and that its loop ends.
use chgres.Base.{
  ℕ, zero, suc, ◌+◌, ◌-◌, ◌≤◌, ◌<◌, min, ◌≡◌, refl, inl, inr, Bool, true, false, not, ◌&&◌, ◌||◌,
  [], ◌∷◌, ◌++◌, arith, ltb, ◌==◌, if◌then◌else◌, Bool-cases, Bytes, length, drop, length-drop,
}
use chgres.Base.Int.{pos, sub_ℕ, ltb_ℤ}
use chgres.Base.Exec.{Exec, ok, fault, ◌>>=◌}
use chgres.Text.Lines.{IsBody}
use chgres.Text.{
  Line, Found, find_str, line_text, counted, next_line_loop, next_line, find_line_loop, find_line,
}

-- The last byte that may be read is no carriage return.
abbrev pub no_final_cr : Bytes → Bool
no_final_cr [] = true
no_final_cr (c ∷ []) = not (c == 0x0d)
no_final_cr (c ∷ d ∷ s) = no_final_cr (d ∷ s)

-- What `next_line` promises of the result on `maxlen` bytes of a memory of `n` bytes.
pub record Fits (n maxlen : ℕ) (l : Line) : Type 0 where
  pub inside : l.len ≤ n
  pub one_over : l.len ≤ maxlen + 1
  pub progress : min maxlen 1 ≤ l.len
  pub valid-le : l.valid ≤ l.len

counted-Fits :
    {n m : ℕ} (comment : Bool) (r : Exec Line)
    → ((l : Line) × (r ≡ ok l) × Fits n m l)
    → (l : Line) × ((r >>= counted comment) ≡ ok l) × Fits (suc n) (suc m) l
counted-Fits comment r (l, e, f) = (
  record { len = suc l.len; valid = if comment then l.valid else suc l.valid },
  rw e refl,
  ground arith,
)

next_line_loop-Fits :
    (p : Bytes) (maxlen : ℕ) (comment : Bool)
    → maxlen ≤ length p
    → no_final_cr p ≡ true
    → (l : Line) × (next_line_loop p maxlen comment ≡ ok l) × Fits (length p) maxlen l
unfolding next_line_loop
next_line_loop-Fits p zero comment h e = (record { len = 0; valid = 0 }, refl, omega arith)
next_line_loop-Fits [] (suc maxlen) comment h e = absurd (omega arith)
next_line_loop-Fits (c ∷ []) (suc maxlen) comment h e =
    let comment' = comment || (c == b';' || c == b'*') in
    elim (Bool-cases (c == 0x0d)) [
      | inl cr ↦ absurd (ground arith)
      | inr other ↦ elim (Bool-cases (c == 0x0a)) [
        | inl end ↦ (record { len = 1; valid = 0 }, rw (other, end) refl, omega arith)
        | inr go ↦
            rw (other, go)
              (counted-Fits comment' _ (next_line_loop-Fits [] maxlen comment' (omega arith) refl))
      ]
    ]
next_line_loop-Fits (c ∷ d ∷ p) (suc maxlen) comment h e =
    let comment' = comment || (c == b';' || c == b'*') in
    elim (Bool-cases (c == 0x0d)) [
      | inl cr ↦ (record { len = if d == 0x0a then 2 else 1; valid = 0 }, rw cr refl, ground arith)
      | inr other ↦ elim (Bool-cases (c == 0x0a)) [
        | inl end ↦ (record { len = 1; valid = 0 }, rw (other, end) refl, omega arith)
        | inr go ↦
            rw (other, go)
              (counted-Fits comment' _
                (next_line_loop-Fits (d ∷ p) maxlen comment' (omega arith) e))
      ]
    ]

-- In a memory of at least `maxlen` bytes that does not end in a carriage return, `next_line` reads
-- only inside: it takes at most one byte more than `maxlen`, at least one if `maxlen` is not 0, and
-- counts no more bytes as valid than it takes.
pub next_line-Fits :
    (p : Bytes) (maxlen : ℕ)
    → maxlen ≤ length p
    → no_final_cr p ≡ true
    → (l : Line) × (next_line p maxlen ≡ ok l) × Fits (length p) maxlen l
unfolding next_line
next_line-Fits p maxlen h e = next_line_loop-Fits p maxlen false h e

drop_none : (n : ℕ) → ◌≡◌ {A = Bytes} (drop n []) []
drop_none zero = refl
drop_none (suc n) = refl

final_cr :
    (body : Bytes) (comment : Bool)
    → IsBody body
    → next_line_loop (body ++ 0x0d ∷ []) (suc (length body)) comment ≡ fault
unfolding next_line_loop
final_cr [] comment b = refl
final_cr (c ∷ body) comment b = ground (arith, final_cr body true b.2, final_cr body false b.2)

-- On a memory that holds one line, which has no line end but a carriage return as its last byte,
-- `next_line` reads the byte behind the memory.
pub next_line_final_cr :
    (body : Bytes) → IsBody body → next_line (body ++ 0x0d ∷ []) (suc (length body)) ≡ fault
unfolding next_line
next_line_final_cr body b = final_cr body false b

pub no_final_cr-drop : (n : ℕ) (p : Bytes) → no_final_cr p ≡ true → no_final_cr (drop n p) ≡ true
no_final_cr-drop zero p e = e
no_final_cr-drop (suc n) [] e = refl
no_final_cr-drop (suc n) (c ∷ []) e = rw drop_none refl
no_final_cr-drop (suc n) (c ∷ d ∷ p) e = no_final_cr-drop n (d ∷ p) e

find_line_loop_total :
    (fuel : ℕ) (p str : Bytes) (size offset : ℕ)
    → size ≤ length p
    → no_final_cr p ≡ true
    → size < fuel
    → (f : Found) × (find_line_loop fuel p str size offset ≡ ok f) × (f.offset ≤ offset + length p)
unfolding find_line_loop
find_line_loop_total zero p str size offset h e k = absurd (omega arith)
find_line_loop_total (suc fuel) p str size offset h e k =
    let (l, taken, f) = next_line-Fits p size h e in
    elim (Bool-cases (find_str (line_text p l) str)) [
      | inl hit ↦ (
        record { offset = offset; remain = sub_ℕ size l.len; linesize = l.len },
        rw (taken, hit) refl,
        omega arith,
      )
      | inr miss ↦ elim (Bool-cases (ltb_ℤ (pos 0) (sub_ℕ size l.len) && ltb 0 l.len)) [
        | inl more ↦
            let (r, e', o) =
              find_line_loop_total fuel (drop l.len p) str (size - l.len) (offset + l.len)
                (omega (arith, length-drop l.len p)) (no_final_cr-drop l.len p e) (ground arith) in
            (r, rw (taken, miss, more) e', omega (arith, length-drop l.len p, f.inside))
        | inr last ↦ (
          record { offset = offset + l.len; remain = sub_ℕ size l.len; linesize = l.len },
          rw (taken, miss, last) refl,
          omega (arith, f.inside),
        )
      ]
    ]

-- On a memory of at least `size` bytes that does not end in a carriage return, `find_line` ends, and
-- returns a pointer into that memory or to its end.
pub find_line_total :
    (p str : Bytes) (size : ℕ)
    → size ≤ length p
    → no_final_cr p ≡ true
    → (f : Found) × (find_line p str size ≡ ok f) × (f.offset ≤ length p)
unfolding find_line
find_line_total p str size h e =
    let (f, r, o) = find_line_loop_total (suc size) p str size 0 h e (omega arith) in
    (f, r, omega arith)
