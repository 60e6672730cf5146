-- ===== src/CLib/Hex.antt =====
-- Hexadecimal digits as `sprintf` and `strupr` print them, read off tables of the small numbers.
use chgres.Base.{
  ℕ, zero, suc, ◌+◌, ◌/◌, ◌%◌, ◌<◌, ◌≤◌, ◌≡◌, refl, ap, Bool, true, ◌&&◌, [], ◌∷◌, ◌++◌, arith, ltb,
  if◌then◌else◌, Bytes, length,
}
use chgres.Base.Int.{pos, ◌-ℤ◌}
use native.Mathlib.Decide.{dec_lt}
use chgres.CLib.{print_x, strupr, str_eq, upper}

-- The digit of a number below 16, in upper case.
abbrev pub hex : ℕ → ℕ
hex k = if ltb k 10 then b'0' + k else 55 + k

abbrev pub hex_pair : ℕ → Bytes
hex_pair n = hex (n / 16) ∷ hex (n % 16) ∷ []

-- The test holds of `k` and of every number below it.
table_holds : (ℕ → Bool) → ℕ → Bool
table_holds test zero = test 0
table_holds test (suc k) = table_holds test k && test (suc k)

table-entry : (test : ℕ → Bool) (k n : ℕ) → n ≤ k → table_holds test k ≡ true → test n ≡ true
unfolding table_holds
table-entry test zero n l h = rw (l0 l) h
  where
    l0 : n ≤ 0 → n ≡ 0
    l0 l = omega arith
table-entry test (suc k) n l h = elim (dec_lt n (suc k)) [
  | yes less ↦ table-entry test k n (omega arith) (ground arith)
  | no last ↦ rw (n_is last) (ground arith)
]
  where
    n_is : (n < suc k → ⊥) → n ≡ suc k
    n_is last = omega arith

pub str_eq→≡ : (s t : Bytes) → str_eq s t ≡ true → s ≡ t
unfolding str_eq
str_eq→≡ (c ∷ s) (d ∷ t) h = ground (arith, str_eq→≡ s t)
str_eq→≡ [] [] h = refl
str_eq→≡ [] (d ∷ t) h = cc
str_eq→≡ (c ∷ s) [] h = cc

digit_table : table_holds (λ k. str_eq (strupr (print_x 1 (pos k))) (hex k ∷ [])) 15 ≡ true
unfolding table_holds str_eq strupr print_x
digit_table = refl

pair_table : table_holds (λ n. str_eq (strupr (print_x 2 (pos n))) (hex_pair n)) 255 ≡ true
unfolding table_holds str_eq strupr print_x
pair_table = refl

pub strupr-print_x_digit : (k : ℕ) → k < 16 → strupr (print_x 1 (pos k)) ≡ hex k ∷ []
strupr-print_x_digit k h = str_eq→≡ _ _ (table-entry _ 15 k (omega arith) digit_table)

pub strupr-print_x_pair : (n : ℕ) → n < 256 → strupr (print_x 2 (pos n)) ≡ hex_pair n
strupr-print_x_pair n h = str_eq→≡ _ _ (table-entry _ 255 n (omega arith) pair_table)

pub strupr-append : (s t : Bytes) → strupr (s ++ t) ≡ strupr s ++ strupr t
unfolding strupr
strupr-append [] t = refl
strupr-append (c ∷ s) t = ap (λ u. upper c ∷ u) (strupr-append s t)

pub length-strupr : (s : Bytes) → length (strupr s) ≡ length s
unfolding strupr
length-strupr [] = refl
length-strupr (c ∷ s) = ap suc (length-strupr s)

pub add-sub_two : (k : ℕ) → pos (k + 2) -ℤ pos 2 ≡ pos k
unfolding ◌-ℤ◌
add-sub_two k = ground arith
