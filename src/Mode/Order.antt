-- ===== src/Mode/Order.antt =====
-- The test of `cmp_res` as an order of the modes.
use chgres.Base.{◌≡◌, Bool, true, false, not, ◌&&◌, ◌||◌, arith}
use chgres.Base.Int.{ℤ, ltb_ℤ}
use chgres.Mode.{has_info, by, goes_first}

-- What a sort may ask of "goes before": no two modes go before each other, and "does not go before"
-- is transitive.
pub record IsWeakOrder {ℓ} {A : Type ℓ} (before : A → A → Bool) : Type ℓ where
  pub asym : (a b : A) → before a b ≡ true → before b a ≡ false
  pub not_trans : (a b c : A) → before a b ≡ false → before b c ≡ false → before a c ≡ false

-- One level of the comparison keeps both laws.
by-asym : (x y : ℤ) (p q : Bool) → (p ≡ true → q ≡ false) → by x y p ≡ true → by y x q ≡ false
by-asym x y p q h e = ground arith

by-not_trans :
    (x y z : ℤ) (p q r : Bool)
    → (p ≡ false → q ≡ false → r ≡ false)
    → by x y p ≡ false
    → by y z q ≡ false
    → by x z r ≡ false
by-not_trans x y z p q r h d e = ground arith

last-asym :
    (i j : Bool) (f g : ℤ)
    → (i && (not j || ltb_ℤ g f)) ≡ true
    → (j && (not i || ltb_ℤ f g)) ≡ false
last-asym i j f g e = ground arith

last-not_trans :
    (i j k : Bool) (f g h : ℤ)
    → (i && (not j || ltb_ℤ g f)) ≡ false
    → (j && (not k || ltb_ℤ h g)) ≡ false
    → (i && (not k || ltb_ℤ h f)) ≡ false
last-not_trans i j k f g h d e = ground arith

-- "Goes first", the test of `cmp_res`, is a strict weak order on all modes: never do two modes go
-- before each other, and if `r` does not go before `s` nor `s` before `t`, then `r` does not go before
-- `t`.
pub goes_first-IsWeakOrder : IsWeakOrder goes_first
unfolding goes_first
goes_first-IsWeakOrder = record {
  asym = λ r s. by-asym r.virt_hres s.virt_hres _ _ (
      by-asym r.virt_vres s.virt_vres _ _ (
        by-asym r.hres s.hres _ _
          (by-asym r.vres s.vres _ _ (last-asym (has_info r) (has_info s) r.freq s.freq))));
  not_trans = λ r s t. by-not_trans r.virt_hres s.virt_hres t.virt_hres _ _ _ (
      by-not_trans r.virt_vres s.virt_vres t.virt_vres _ _ _ (
        by-not_trans r.hres s.hres t.hres _ _ _ (
          by-not_trans r.vres s.vres t.vres _ _ _
            (last-not_trans (has_info r) (has_info s) (has_info t) r.freq s.freq t.freq))));
}
