-- ===== src/System/Apply/Laws.antt =====
-- When `apply` of chgres.c comes to an end.
use chgres.Base.{
  ℕ, zero, suc, ◌+◌, ◌<◌, ◌≡◌, refl, ◌⊎◌, inl, inr, Bool, true, false, arith, Bool-cases,
}
use chgres.Base.Int.{ℤ, pos, ltb_ℤ, ◌≤ℤ◌}
use chgres.Gemdos.{positive}
use chgres.Machine.{has_bit, is_mint}
use chgres.Mode.{Res}
use chgres.System.Apply.{Round, Ending, unfinished, tries_again, retry_loop, as_asked, apply}

abbrev pub is_end : Ending → Bool
is_end unfinished = false
is_end _ = true

retry_loop-end :
    (n fuel : ℕ) (rounds : ℕ → Round) (k : ℕ) (r : Res)
    → tries_again (rounds (k + n)) ≡ false
    → n < fuel
    → is_end (retry_loop fuel rounds k r).1 ≡ true
unfolding retry_loop
retry_loop-end n zero rounds k r h l = absurd (omega arith)
retry_loop-end zero (suc fuel) rounds k r h l =
    let q : k + 0 ≡ k = omega arith in
    elim (Bool-cases (positive (rounds k).result)) [
      | inl e ↦ rw e refl
      | inr e ↦ rw (e, rw q at h) refl
    ]
retry_loop-end (suc n) (suc fuel) rounds k r h l =
    let q : k + suc n ≡ suc k + n = omega arith in
    elim (Bool-cases (positive (rounds k).result)) [
      | inl e ↦ rw e refl
      | inr e ↦ elim (Bool-cases (tries_again (rounds k))) [
        | inl f ↦ rw (e, f) (retry_loop-end n fuel rounds (suc k) r (rw q at h) (omega arith))
        | inr f ↦ rw (e, f) refl
      ]
    ]

-- In the round the ten seconds are over, or `shel_write` names no application that is in the way.
abbrev pub TimeIsUp : Round → Type 0
TimeIsUp a = (pos 10000 ≤ℤ a.elapsed) ⊎ (a.apid ≤ℤ pos 0)

not_below : (x y : ℤ) → y ≤ℤ x → ltb_ℤ x y ≡ false
not_below x y h = ground arith

not_positive : (z : ℤ) → z ≤ℤ pos 0 → positive z ≡ false
not_positive z h = ground arith

tries_again-TimeIsUp : (a : Round) → TimeIsUp a → tries_again a ≡ false
tries_again-TimeIsUp a (inl over) = rw (not_below a.elapsed (pos 10000) over) refl
tries_again-TimeIsUp a (inr free) = rw (not_positive a.apid free) (ground arith)

as_asked-TimeIsUp :
    (sys_aes : ℕ) (rounds : ℕ → Round) (n : ℕ)
    → TimeIsUp (rounds n)
    → TimeIsUp (as_asked sys_aes rounds n)
as_asked-TimeIsUp sys_aes rounds n h = elim (Bool-cases (has_bit sys_aes 5)) [
  | inl e ↦ rw e h
  | inr e ↦ rw e (inr (ground arith))
]

-- If in some round the ten seconds are over, or no application is in the way, then `apply` ends, on
-- every system: it returns or starts the machine anew. The number of that round bounds the rounds.
pub apply-end :
    (n fuel sys_vdi sys_aes : ℕ) (rounds : ℕ → Round) (r : Res)
    → TimeIsUp (rounds n)
    → n < fuel
    → is_end (apply fuel sys_vdi sys_aes rounds r).1 ≡ true
unfolding apply
apply-end n fuel sys_vdi sys_aes rounds r h l = elim (Bool-cases (has_bit sys_vdi 3)) [
  | inl a ↦ rw a refl
  | inr a ↦ elim (Bool-cases (has_bit sys_aes 3)) [
    | inl b ↦ rw (a, b) refl
    | inr b ↦ elim (Bool-cases (has_bit sys_aes 2)) [
      | inl c ↦ rw (a, b, c) refl
      | inr c ↦ elim (Bool-cases (is_mint sys_aes)) [
        | inl d ↦
            rw (a, b, c, d)
              (retry_loop-end n fuel (as_asked sys_aes rounds) 0 r
                (rw (zero_plus n) (
                  tries_again-TimeIsUp (as_asked sys_aes rounds n)
                    (as_asked-TimeIsUp sys_aes rounds n h)))
                l)
        | inr d ↦ rw (a, b, c, d) refl
      ]
    ]
  ]
]
  where
    zero_plus : (n : ℕ) → 0 + n ≡ n
    zero_plus n = omega arith
