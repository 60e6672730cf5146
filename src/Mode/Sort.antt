-- ===== src/Mode/Sort.antt =====
-- The order of the modes in chgres.c, and what is asked of `qsort` of the C library.
use chgres.Base.{
  ◌≡◌, refl, sym, ◌∙◌, ◌⊎◌, inl, inr, Bool, true, false, not, List, [], ◌∷◌, arith, Bool-cases,
}
use mathlib.Core.List.{Permᴰ}
use chgres.Base.Int.{ℤ, pos, ltb_ℤ, ◌≤ℤ◌}
use chgres.Mode.{Res, by, goes_first, cmp_res}
use chgres.Mode.Order.{IsWeakOrder, goes_first-IsWeakOrder}

-- `cmp` says that `a` goes before `b`.
abbrev pub less : {A : Type 0} → (A → A → ℤ) → A → A → Bool
less cmp a b = ltb_ℤ (cmp a b) (pos 0)

module _ {A : Type 0} where
  -- No element goes before one that stands in front of it.
  abbrev pub NotBefore : (A → A → Bool) → A → List A → Type 0
  NotBefore before a [] = Unit
  NotBefore before a (b ∷ bs) = (before b a ≡ false) × NotBefore before a bs

  abbrev pub IsSorted : (A → A → Bool) → List A → Type 0
  IsSorted before [] = Unit
  IsSorted before (a ∷ as') = NotBefore before a as' × IsSorted before as'

module _ {A : Type 0} (cmp : A → A → ℤ) where
  -- The two answers agree: one is below 0 and the other above, or both are 0.
  abbrev pub Answer : A → A → Type 0
  Answer a b =
      ((less cmp a b ≡ true) × (ltb_ℤ (pos 0) (cmp b a) ≡ true))
      ⊎ (((less cmp b a ≡ true) × (ltb_ℤ (pos 0) (cmp a b) ≡ true))
          ⊎ ((cmp a b ≡ pos 0) × (cmp b a ≡ pos 0)))

  abbrev pub AllAnswer : A → List A → Type 0
  AllAnswer a [] = Unit
  AllAnswer a (b ∷ bs) = Answer a b × AllAnswer a bs

  -- The answers for any two elements at different places of the array agree.
  abbrev pub AreAnswered : List A → Type 0
  AreAnswered [] = Unit
  AreAnswered (a ∷ as') = AllAnswer a as' × AreAnswered as'

-- `qsort` of the C library, for a comparison that puts the elements of the array in order: what it says
-- is a weak order, and its answers for two elements of the array agree. Then the array holds the same
-- elements behind it, in an order that agrees with the comparison. For an array with two elements that
-- are each said to go behind the other, which ISO C leaves undefined, nothing is asked.
pub record Qsort (A : Type 0) : Type 0 where
  pub sort : (A → A → ℤ) → List A → List A
  pub permutes :
      (cmp : A → A → ℤ) (rs : List A)
      → IsWeakOrder (less cmp)
      → AreAnswered cmp rs
      → Permᴰ (sort cmp rs) rs
  pub sorts :
      (cmp : A → A → ℤ) (rs : List A)
      → IsWeakOrder (less cmp)
      → AreAnswered cmp rs
      → IsSorted (less cmp) (sort cmp rs)

-- `cmp_res` puts one of the two modes in front of the other.
abbrev pub IsDecided : Res → Res → Type 0
IsDecided r s = goes_first r s ≡ not (goes_first s r)

pub cmp_res-IsDecided : (r s : Res) → IsDecided r s → Answer cmp_res r s
unfolding cmp_res
cmp_res-IsDecided r s d = elim (Bool-cases (goes_first s r)) [
  | inl e ↦ inr (inl (rw e refl, rw (d, e) refl))
  | inr e ↦ inl (rw (d, e) refl, rw e refl)
]

less-cmp_res : (r s : Res) → less cmp_res r s ≡ goes_first r s
unfolding cmp_res
less-cmp_res r s = ground arith

-- `a` shows at least as much as `b`: a wider virtual screen, or one as wide that is not lower.
abbrev pub NotSmaller : Res → Res → Type 0
NotSmaller a b =
    (ltb_ℤ b.virt_hres a.virt_hres ≡ true)
    ⊎ ((a.virt_hres ≡ b.virt_hres) × (b.virt_vres ≤ℤ a.virt_vres))

by-false :
    (x y : ℤ) (more : Bool) → by x y more ≡ false → (ltb_ℤ x y ≡ true) ⊎ ((y ≡ x) × (more ≡ false))
by-false x y more h = ground arith

by-false-le : (x y : ℤ) (more : Bool) → by x y more ≡ false → x ≤ℤ y
by-false-le x y more h = ground arith

not_first-NotSmaller : (a b : Res) → goes_first b a ≡ false → NotSmaller a b
unfolding goes_first
not_first-NotSmaller a b h = elim (by-false b.virt_hres a.virt_hres _ h) [
  | inl wider ↦ inl wider
  | inr (same, rest) ↦ inr (same, by-false-le b.virt_vres a.virt_vres _ rest)
]

abbrev pub AllNotSmaller : Res → List Res → Type 0
AllNotSmaller a [] = Unit
AllNotSmaller a (b ∷ bs) = NotSmaller a b × AllNotSmaller a bs

abbrev pub LargestFirst : List Res → Type 0
LargestFirst [] = Unit
LargestFirst (r ∷ rs) = AllNotSmaller r rs × LargestFirst rs

AllNotSmaller-of : (a : Res) (bs : List Res) → NotBefore (less cmp_res) a bs → AllNotSmaller a bs
AllNotSmaller-of a [] h = tt
AllNotSmaller-of a (b ∷ bs) h =
    (not_first-NotSmaller a b (sym (less-cmp_res b a) ∙ h.0), AllNotSmaller-of a bs h.1)

pub LargestFirst-of : (rs : List Res) → IsSorted (less cmp_res) rs → LargestFirst rs
LargestFirst-of [] h = tt
LargestFirst-of (r ∷ rs) h = (AllNotSmaller-of r rs h.0, LargestFirst-of rs h.1)

pub cmp_res-IsWeakOrder : IsWeakOrder (less cmp_res)
cmp_res-IsWeakOrder = record {
  asym = λ a b e. less-cmp_res b a ∙ goes_first-IsWeakOrder.asym a b (sym (less-cmp_res a b) ∙ e);
  not_trans = λ a b c d e.
      less-cmp_res a c
      ∙ goes_first-IsWeakOrder.not_trans a b c (sym (less-cmp_res a b) ∙ d)
          (sym (less-cmp_res b c) ∙ e);
}
