-- ===== src/Gemdos/Copy.antt =====
-- `memcpy` into a block: the bytes at the place change and no others.
use chgres.Base.{
  ℕ, zero, suc, ◌+◌, ◌≤◌, ◌≡◌, refl, ap, [], ◌∷◌, ◌++◌, arith, Bytes, length, take, drop,
  length-append, length-take, length-drop,
}
use native.Mathlib.Nat.{zero-add, suc-add}
use chgres.Base.Exec.{ok}
use chgres.Gemdos.{overwrite}

-- `q` is `p` with `s` written at `at`.
pub record Patched (p : Bytes) (at : ℕ) (s q : Bytes) : Type 0 where
  pub same_length : length q ≡ length p
  pub same_front : take at q ≡ take at p
  pub new_bytes : take (length s) (drop at q) ≡ s
  pub same_back : drop (at + length s) q ≡ drop (at + length s) p

-- The block after the copy.
abbrev pub spliced : Bytes → ℕ → Bytes → Bytes
spliced p at s = take at p ++ (s ++ drop (at + length s) p)

pub take_of : (n : ℕ) (xs ys : Bytes) → length xs ≡ n → take n (xs ++ ys) ≡ xs
take_of zero [] ys h = refl
take_of zero (x ∷ xs) ys h = absurd (omega arith)
take_of (suc n) [] ys h = absurd (omega arith)
take_of (suc n) (x ∷ xs) ys h = ap (λ s. x ∷ s) (take_of n xs ys (omega arith))

pub drop_of : (n : ℕ) (xs ys : Bytes) → length xs ≡ n → drop n (xs ++ ys) ≡ ys
drop_of zero [] ys h = refl
drop_of zero (x ∷ xs) ys h = absurd (omega arith)
drop_of (suc n) [] ys h = absurd (omega arith)
drop_of (suc n) (x ∷ xs) ys h = drop_of n xs ys (omega arith)

pub drop-drop : (n k : ℕ) (xs : Bytes) → drop (n + k) xs ≡ drop k (drop n xs)
drop-drop zero k xs = rw zero-add refl
drop-drop (suc n) zero [] = rw suc-add refl
drop-drop (suc n) (suc k) [] = rw suc-add refl
drop-drop (suc n) k (x ∷ xs) = rw suc-add (drop-drop n k xs)

pub spliced-Patched :
    (p : Bytes) (at : ℕ) (s : Bytes) → at + length s ≤ length p → Patched p at s (spliced p at s)
spliced-Patched p at s h =
    let back = drop (at + length s) p in
    let front : length (take at p) ≡ at = omega (arith, length-take at p) in
    record {
      same_length = omega (
        arith,
        length-append (take at p) (s ++ back),
        length-append s back,
        front,
        length-drop (at + length s) p,
      );
      same_front = take_of at (take at p) _ front;
      new_bytes = rw (drop_of at (take at p) (s ++ back) front) (take_of (length s) s back refl);
      same_back =
          rw (drop-drop at (length s), drop_of at (take at p) (s ++ back) front)
            (drop_of (length s) s back refl);
    }

pub overwrite_lem :
    (p : Bytes) (at : ℕ) (s : Bytes)
    → at + length s ≤ length p
    → overwrite p at s ≡ ok (spliced p at s)
unfolding overwrite
overwrite_lem p at s h = ground arith
