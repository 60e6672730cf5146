-- ===== src/Mode/Popup.antt =====
-- The colour popup of chgres.c: `init_lbox_names`, `index_to_popup`, `popup_to_index` and the choice of
-- a depth.
use chgres.Base.{
  ℕ, zero, suc, ◌+◌, ◌≡◌, refl, sym, ap, ◌∙◌, inl, inr, Bool, true, false, some, List, [], ◌∷◌,
  arith, if◌then◌else◌, Bool-cases, Bytes, get_elem?, take,
}
use chgres.Base.Int.{ℤ, pos, negsuc, ltb_ℤ, sub_ℕ}
use chgres.CLib.{codes}
use chgres.Mode.{Res, Modes, modes_at}

abbrev pub bpp_tab : List Bytes
bpp_tab =
    codes "    2"
    ∷ codes "    4"
    ∷ codes "   16"
    ∷ codes "  256"
    ∷ codes "  32K"
    ∷ codes "  65K"
    ∷ codes "  16M"
    ∷ codes "  16M"
    ∷ []

-- `possible_resolutions[i] != NULL`
abbrev pub has_modes : List Res → Bool
has_modes [] = false
has_modes (r ∷ rs) = true

-- The filled part of `lbox_names`; its length is `name_count`.
unfoldable pub names_loop : Modes → List Bytes → List Bytes
names_loop [] names = []
names_loop (ms ∷ t) [] = []
names_loop (ms ∷ t) (name ∷ names) =
    let rest = names_loop t names in if has_modes ms then name ∷ rest else rest

unfoldable pub init_lbox_names : Modes → List Bytes
unfolding names_loop
init_lbox_names t = names_loop t bpp_tab

abbrev pub pred_ℤ : ℤ → ℤ
pred_ℤ (pos zero) = negsuc 0
pred_ℤ (pos (suc n)) = pos n
pred_ℤ (negsuc n) = negsuc (suc n)

abbrev pub suc_ℤ : ℤ → ℤ
suc_ℤ (pos n) = pos (suc n)
suc_ℤ (negsuc zero) = pos 0
suc_ℤ (negsuc (suc n)) = negsuc n

-- The loop of `popup_to_index` from `i` on; both arms of its `switch` do the same.
unfoldable pub popup_loop : Modes → ℕ → ℤ → ℤ
popup_loop [] i idx = negsuc 0
popup_loop (ms ∷ t) i idx =
    let left = if has_modes ms then pred_ℤ idx else idx in
    let rest = popup_loop t (suc i) left in if ltb_ℤ left (pos 0) then pos i else rest

unfoldable pub popup_to_index : Modes → ℤ → ℤ
unfolding popup_loop
popup_to_index t idx = popup_loop t 0 idx

unfoldable pub index_loop : Modes → ℤ → ℤ
index_loop [] idx = idx
index_loop (ms ∷ t) idx = index_loop t (if has_modes ms then suc_ℤ idx else idx)

unfoldable pub index_to_popup : Modes → ℕ → ℤ
unfolding index_loop
index_to_popup t bpp = index_loop (take (suc bpp) t) (negsuc 0)

-- The number of depths below `i` that have a mode.
abbrev pub entries_below : Modes → ℕ → ℕ
entries_below t zero = 0
entries_below [] (suc i) = 0
entries_below (ms ∷ t) (suc i) = (if has_modes ms then 1 else 0) + entries_below t i

suc-sub_one : (k : ℕ) → suc_ℤ (sub_ℕ k 1) ≡ pos k
suc-sub_one zero = refl
suc-sub_one (suc k) = ground arith

sub_one-suc : (k : ℕ) → sub_ℕ (suc k) 1 ≡ pos k
sub_one-suc k = ground arith

index_loop_filled :
    (ms : List Res) (t : Modes) (k : ℕ)
    → has_modes ms ≡ true
    → index_loop (ms ∷ t) (sub_ℕ k 1) ≡ index_loop t (sub_ℕ (suc k) 1)
unfolding index_loop
index_loop_filled ms t k h = ap (index_loop t) (rw h (suc-sub_one k ∙ sym (sub_one-suc k)))

index_loop_empty :
    (ms : List Res) (t : Modes) (z : ℤ)
    → has_modes ms ≡ false
    → index_loop (ms ∷ t) z ≡ index_loop t z
unfolding index_loop
index_loop_empty ms t z h = ap (index_loop t) (rw h refl)

index_loop-entries :
    (t : Modes) (i k : ℕ)
    → has_modes (modes_at t i) ≡ true
    → index_loop (take (suc i) t) (sub_ℕ k 1) ≡ pos (k + entries_below t i)
unfolding index_loop
index_loop-entries [] i k h = absurd (ground arith)
index_loop-entries (ms ∷ t) zero k h = rw (h, suc-sub_one) (ground arith)
index_loop-entries (ms ∷ t) (suc i) k h = elim (Bool-cases (has_modes ms)) [
  | inl filled ↦ rw filled (
      index_loop_filled ms (take (suc i) t) k filled
      ∙ index_loop-entries t i (suc k) h
      ∙ ground arith)
  | inr empty ↦ rw empty (
      index_loop_empty ms (take (suc i) t) (sub_ℕ k 1) empty
      ∙ index_loop-entries t i k h
      ∙ ground arith)
]

popup_loop-entries :
    (t : Modes) (i j : ℕ)
    → has_modes (modes_at t i) ≡ true
    → popup_loop t j (pos (entries_below t i)) ≡ pos (j + i)
unfolding popup_loop
popup_loop-entries [] i j h = absurd (ground arith)
popup_loop-entries (ms ∷ t) zero j h = ground arith
popup_loop-entries (ms ∷ t) (suc i) j h = ground (arith, popup_loop-entries t i (suc j))

names_loop-entries :
    (t : Modes) (names : List Bytes) (i : ℕ) (name : Bytes)
    → has_modes (modes_at t i) ≡ true
    → get_elem? names i ≡ some name
    → get_elem? (names_loop t names) (entries_below t i) ≡ some name
unfolding names_loop
names_loop-entries [] names i name h e = absurd (ground arith)
names_loop-entries (ms ∷ t) [] i name h e = absurd (ground arith)
names_loop-entries (ms ∷ t) (n ∷ names) zero name h e = ground arith
names_loop-entries (ms ∷ t) (n ∷ names) (suc i) name h e =
    ground (arith, names_loop-entries t names i name)

-- The popup entry of a depth that has modes: it is the number of such depths below it.
index_to_popup-entries :
    (t : Modes) (i : ℕ)
    → has_modes (modes_at t i) ≡ true
    → index_to_popup t i ≡ pos (entries_below t i)
unfolding index_to_popup
index_to_popup-entries t i h = index_loop-entries t i 0 h ∙ ground arith

pub popup_to_index-entries :
    (t : Modes) (i : ℕ)
    → has_modes (modes_at t i) ≡ true
    → popup_to_index t (pos (entries_below t i)) ≡ pos i
unfolding popup_to_index
popup_to_index-entries t i h = popup_loop-entries t i 0 h ∙ ground arith

pub init_lbox_names-entries :
    (t : Modes) (i : ℕ) (name : Bytes)
    → has_modes (modes_at t i) ≡ true
    → get_elem? bpp_tab i ≡ some name
    → get_elem? (init_lbox_names t) (entries_below t i) ≡ some name
unfolding init_lbox_names
init_lbox_names-entries t i name h e = names_loop-entries t bpp_tab i name h e

-- For a depth that has modes, `popup_to_index` takes the entry that `index_to_popup` gives back to
-- the depth.
popup_to_index-index_to_popup :
    (t : Modes) (i : ℕ)
    → has_modes (modes_at t i) ≡ true
    → popup_to_index t (index_to_popup t i) ≡ pos i
popup_to_index-index_to_popup t i h =
    ap (popup_to_index t) (index_to_popup-entries t i h) ∙ popup_to_index-entries t i h
