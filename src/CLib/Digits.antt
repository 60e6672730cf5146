-- ===== src/CLib/Digits.antt =====
-- Printed numbers hold no line end.
use chgres.Base.{
  ℕ, zero, suc, ◌/◌, ◌%◌, ◌≢◌, inl, inr, [], ◌∷◌, ◌++◌, arith, ltb, Bool-cases, Bytes, replicate,
}
use chgres.Base.Int.{ℤ, pos, negsuc}
use chgres.CLib.{print_x, pad, unsigned, to_unsigned, digit, digits_onto, print_d}
use chgres.Text.Lines.{IsBody}

pub IsBody-append : (xs ys : Bytes) → IsBody xs → IsBody ys → IsBody (xs ++ ys)
IsBody-append [] ys h k = k
IsBody-append (x ∷ xs) ys h k = (h.0, h.1, IsBody-append xs ys h.2 k)

digit-plain : (d : ℕ) → (digit d ≢ 0x0d) × (digit d ≢ 0x0a)
digit-plain d = ground arith

digits_onto-IsBody :
    (base fuel n : ℕ) (acc : Bytes) → IsBody acc → IsBody (digits_onto base fuel n acc)
unfolding digits_onto
digits_onto-IsBody base zero n acc h = h
digits_onto-IsBody base (suc fuel) n acc h = elim (Bool-cases (ltb n base)) [
  | inl last ↦ rw last ((digit-plain n).0, (digit-plain n).1, h)
  | inr more ↦ rw more (
      digits_onto-IsBody base fuel (n / base) _
        ((digit-plain (n % base)).0, (digit-plain (n % base)).1, h))
]

pub print_d-IsBody : (z : ℤ) → IsBody (print_d z)
unfolding print_d
print_d-IsBody (pos n) = digits_onto-IsBody 10 (suc n) n [] tt
print_d-IsBody (negsuc n) =
    (omega arith, omega arith, digits_onto-IsBody 10 (suc (suc n)) (suc n) [] tt)

pad-IsBody : (n : ℕ) (s : Bytes) → IsBody s → IsBody (replicate n b'0' ++ s)
pad-IsBody zero s h = h
pad-IsBody (suc n) s h = (omega arith, omega arith, pad-IsBody n s h)

pub print_x-IsBody : (width : ℕ) (z : ℤ) → IsBody (print_x width z)
unfolding print_x pad unsigned
print_x-IsBody width z =
    pad-IsBody _ (unsigned 16 (to_unsigned z))
      (digits_onto-IsBody 16 (suc (to_unsigned z)) (to_unsigned z) [] tt)
