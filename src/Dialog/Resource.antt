-- ===== src/Dialog/Resource.antt =====
-- `fix_rsc` of chgres.c: the arrows, the bar and the slider of the main dialog for an AES without a look
-- in three dimensions. What the loader puts into the objects is an argument.
use chgres.Base.{
  ℕ, ◌≡◌, refl, inl, inr, Bool, false, ◌&&◌, ◌||◌, arith, leb, ◌==◌, if◌then◌else◌, Bool-cases,
}
use chgres.Base.Int.{ℤ, pos, negsuc, ◌+ℤ◌, ◌-ℤ◌, ltb_ℤ, eq_of_parts, int_laws}
use chgres.Machine.{has_bit}

-- The parts of an `OBJECT` that are changed.
pub record Widget : Type 0 where
  pub framesize : ℤ
  pub interiorcol : ℕ
  pub fillpattern : ℕ
  pub x : ℤ
  pub y : ℤ
  pub width : ℤ
  pub height : ℤ

-- The numbers of the objects in the tree of the main dialog.
abbrev pub chgres_up : ℕ
chgres_up = 15

abbrev pub chgres_back : ℕ
chgres_back = 16

abbrev pub chgres_slider : ℕ
chgres_slider = 17

abbrev pub chgres_down : ℕ
chgres_down = 18

abbrev pub framed : Widget → Widget
framed w = record w { framesize = pos 1 }

abbrev pub moved : ℤ → ℤ → Widget → Widget
moved dx dy w = record w { x = w.x +ℤ dx; y = w.y +ℤ dy }

abbrev pub filled_back : Widget → Widget
filled_back w = record w {
  interiorcol = 1;
  fillpattern = 1;
  x = w.x +ℤ pos 2;
  width = w.width -ℤ pos 4;
  y = w.y -ℤ pos 5;
  height = w.height +ℤ pos 10;
}

-- The object at a number is changed by `f`.
abbrev pub changed_at : ℕ → (Widget → Widget) → (ℕ → Widget) → ℕ → Widget
changed_at i f tree j = if j == i then f (tree j) else tree j

-- `aes_ver < 0x399`, or MyAES.
abbrev pub is_flat : ℤ → ℕ → Bool
is_flat aes_ver sys_aes = ltb_ℤ aes_ver (pos 0x399) || has_bit sys_aes 7

unfoldable pub fix_rsc : ℤ → ℕ → (ℕ → Widget) → ℕ → Widget
fix_rsc aes_ver sys_aes tree =
    if is_flat aes_ver sys_aes
    then changed_at chgres_up (λ w. moved (pos 0) (negsuc 1) (framed w))
        (changed_at chgres_down (λ w. moved (pos 0) (pos 2) (framed w))
          (changed_at chgres_slider (λ w. moved (negsuc 1) (pos 0) (framed w))
            (changed_at chgres_back filled_back tree)))
    else tree

-- The two sides of a box, and its top and bottom, as sums: its middle, twice.
abbrev middle : ℤ → ℤ → ℤ
middle at size = at +ℤ at +ℤ size

narrower : (at size : ℤ) → middle (at +ℤ pos 2) (size -ℤ pos 4) ≡ middle at size
narrower at size =
    eq_of_parts (middle (at +ℤ pos 2) (size -ℤ pos 4)) (middle at size) (omega int_laws)

higher : (at size : ℤ) → middle (at -ℤ pos 5) (size +ℤ pos 10) ≡ middle at size
higher at size =
    eq_of_parts (middle (at -ℤ pos 5) (size +ℤ pos 10)) (middle at size) (omega int_laws)

abbrev is_fixed : ℕ → Bool
is_fixed j = leb chgres_up j && leb j chgres_down

-- On any AES the bar keeps its middle, and the objects but for the arrows, the bar and the slider are as
-- they were.
pub fix_rsc_lem :
    (aes_ver : ℤ) (sys_aes : ℕ) (tree : ℕ → Widget)
    → let old : Widget = tree chgres_back in
      let new : Widget = fix_rsc aes_ver sys_aes tree chgres_back in
      (middle new.x new.width ≡ middle old.x old.width)
      × (middle new.y new.height ≡ middle old.y old.height)
      × ((j : ℕ) → is_fixed j ≡ false → fix_rsc aes_ver sys_aes tree j ≡ tree j)
unfolding fix_rsc
fix_rsc_lem aes_ver sys_aes tree =
    let back = tree chgres_back in
    elim (Bool-cases (is_flat aes_ver sys_aes)) [
      | inl flat ↦
          rw flat (narrower back.x back.width, higher back.y back.height, λ j o. ground arith)
      | inr deep ↦ rw deep (refl, refl, λ j o. refl)
    ]
