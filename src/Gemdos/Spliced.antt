-- ===== src/Gemdos/Spliced.antt =====
-- The bytes of a block behind a copy into it, one by one.
use chgres.Base.{
  ℕ, zero, suc, ◌+◌, ◌-◌, ◌≤◌, ◌<◌, ◌≡◌, refl, sym, ap, ◌∙◌, ◌⊎◌, inl, inr, [], ◌∷◌, ◌++◌, arith,
  Bytes, length, get_elem?, take, drop, length-take,
}
use native.Mathlib.Nat.{zero-add, suc-add}
use chgres.Gemdos.Copy.{spliced}

get_elem?-append_left :
    (xs ys : Bytes) (j : ℕ) → j < length xs → get_elem? (xs ++ ys) j ≡ get_elem? xs j
get_elem?-append_left [] ys j l = absurd (omega arith)
get_elem?-append_left (x ∷ xs) ys zero l = refl
get_elem?-append_left (x ∷ xs) ys (suc j) l = get_elem?-append_left xs ys j (omega arith)

get_elem?-append_right :
    (xs ys : Bytes) (j : ℕ) → get_elem? (xs ++ ys) (length xs + j) ≡ get_elem? ys j
get_elem?-append_right [] ys j = rw zero-add refl
get_elem?-append_right (x ∷ xs) ys j = rw suc-add (get_elem?-append_right xs ys j)

get_elem?-take : (n : ℕ) (xs : Bytes) (j : ℕ) → j < n → get_elem? (take n xs) j ≡ get_elem? xs j
get_elem?-take zero xs j l = absurd (omega arith)
get_elem?-take (suc n) [] j l = refl
get_elem?-take (suc n) (x ∷ xs) zero l = refl
get_elem?-take (suc n) (x ∷ xs) (suc j) l = get_elem?-take n xs j (omega arith)

get_elem?-drop : (n : ℕ) (xs : Bytes) (j : ℕ) → get_elem? (drop n xs) j ≡ get_elem? xs (n + j)
get_elem?-drop zero xs j = rw zero-add refl
get_elem?-drop (suc n) [] j = refl
get_elem?-drop (suc n) (x ∷ xs) j = rw suc-add (get_elem?-drop n xs j)

-- A byte of the copy.
pub get_elem?-spliced_inside :
    (p : Bytes) (at : ℕ) (s : Bytes) (j : ℕ)
    → at + length s ≤ length p
    → j < length s
    → get_elem? (spliced p at s) (at + j) ≡ get_elem? s j
get_elem?-spliced_inside p at s j h l =
    let front : length (take at p) ≡ at = omega (arith, length-take at p) in
    let behind = s ++ drop (at + length s) p in
    ap (λ n. get_elem? (spliced p at s) (n + j)) (sym front)
    ∙ get_elem?-append_right (take at p) behind j
    ∙ get_elem?-append_left s (drop (at + length s) p) j l

-- A byte before the copy or behind it.
pub get_elem?-spliced_outside :
    (p : Bytes) (at : ℕ) (s : Bytes) (j : ℕ)
    → at + length s ≤ length p
    → (j < at) ⊎ (at + length s ≤ j)
    → get_elem? (spliced p at s) j ≡ get_elem? p j
get_elem?-spliced_outside p at s j h (inl l) =
    let front : length (take at p) ≡ at = omega (arith, length-take at p) in
    get_elem?-append_left (take at p) (s ++ drop (at + length s) p) j (omega (arith, front))
    ∙ get_elem?-take at p j l
get_elem?-spliced_outside p at s j h (inr l) =
    let back = drop (at + length s) p in
    let k = j - (at + length s) in
    let front : length (take at p) ≡ at = omega (arith, length-take at p) in
    let here : length (take at p) + (length s + k) ≡ j = omega (arith, front) in
    let there : at + length s + k ≡ j = omega arith in
    ap (get_elem? (spliced p at s)) (sym here)
    ∙ get_elem?-append_right (take at p) (s ++ back) (length s + k)
    ∙ get_elem?-append_right s back k
    ∙ get_elem?-drop (at + length s) p k
    ∙ ap (get_elem? p) there
