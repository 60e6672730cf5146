-- ===== src/Dialog/Menu/Laws.antt =====
-- `simple_popup` of popup.c: the objects of the colour popup, and the depth that each of them gives.
use chgres.Base.{
  ℕ, zero, suc, ◌+◌, ◌*◌, ◌≡◌, refl, ap, ◌⊎◌, inl, inr, true, some, List, [], ◌∷◌, arith, ltb, ◌==◌,
  if◌then◌else◌, Bytes, length, get_elem?, or_else,
}
use native.Mathlib.Nat.{suc-mul}
use chgres.Base.Int.{ℤ, pos, ◌+ℤ◌}
use chgres.Mode.{eq_ℤ, Modes, modes_at}
use chgres.Mode.Popup.{
  has_modes, popup_to_index, init_lbox_names, bpp_tab, entries_below, init_lbox_names-entries,
  popup_to_index-entries,
}
use chgres.Dialog.Menu.{
  Place, Object, entry_box, entry_text, entries_loop, menu_width, menu_tree, entry_of, simple_popup,
  minus,
}

-- The objects of the entry `k` of a menu with `n`: a box in the row of the entry, which leads to the
-- box of the next entry or back to the root, and holds a text with the name, which leads back to the
-- box. The box that is selected is checked, and only the last text is the last object.
pub record IsEntry (tree : List Object) (n hchar : ℕ) (selected : ℤ) (k : ℕ) (name : Bytes)
    : Type 0 where
  pub box_of : Object
  pub text_of : Object
  pub box_at : get_elem? tree (2 * k + 1) ≡ some box_of
  pub text_at : get_elem? tree (2 * k + 2) ≡ some text_of
  pub box_next : box_of.next ≡ (if ltb (suc k) n then pos (2 * k + 3) else pos 0)
  pub box_child : (box_of.head ≡ pos (2 * k + 2)) × (box_of.tail ≡ pos (2 * k + 2))
  pub box_row : (box_of.y ≡ pos (k * hchar)) × (box_of.height ≡ hchar)
  pub box_checked : box_of.checked ≡ eq_ℤ (selected +ℤ pos 1) (pos (suc k))
  pub text_next : text_of.next ≡ pos (2 * k + 1)
  pub text_label : text_of.label ≡ name
  pub text_last : text_of.lastob ≡ (suc k == n)

length-entries_loop :
    (p : Place) (w n : ℕ) (selected : ℤ) (i y : ℕ) (sel_y : ℤ) (names : List Bytes)
    → length (entries_loop p w n selected i y sel_y names).0 ≡ 2 * length names
unfolding entries_loop
length-entries_loop p w n selected i y sel_y [] = omega arith
length-entries_loop p w n selected i y sel_y (name ∷ names) = omega (
  arith,
  length-entries_loop p w n selected (suc i) (y + p.hchar)
      (if eq_ℤ (selected +ℤ pos 1) (pos i) then pos y else sel_y) names,
)

entries_loop-at :
    (p : Place) (w n : ℕ) (selected : ℤ) (i y : ℕ) (sel_y : ℤ) (names : List Bytes) (k : ℕ)
    (name : Bytes)
    → get_elem? names k ≡ some name
    → (get_elem? (entries_loop p w n selected i y sel_y names).0 (2 * k)
        ≡ some (entry_box p w n (i + k) selected (y + k * p.hchar)))
      × (get_elem? (entries_loop p w n selected i y sel_y names).0 (suc (2 * k))
          ≡ some (entry_text p n (i + k) name))
unfolding entries_loop
entries_loop-at p w n selected i y sel_y [] k name e = absurd (ground arith)
entries_loop-at p w n selected i y sel_y (m ∷ names) zero name e =
    let same : m ≡ name = ap (λ o. or_else o m) e in
    let row : y + 0 * p.hchar ≡ y = omega arith in
    let first : i + 0 ≡ i = omega arith in
    rw (first, row) (refl, ap (λ s. some (entry_text p n i s)) same)
entries_loop-at p w n selected i y sel_y (m ∷ names) (suc k) name e =
    let sel_y' = if eq_ℤ (selected +ℤ pos 1) (pos i) then pos y else sel_y in
    let (at_box, at_text) =
      entries_loop-at p w n selected (suc i) (y + p.hchar) sel_y' names k name e in
    let place : 2 * suc k ≡ suc (suc (2 * k)) = omega arith in
    let number : i + suc k ≡ suc i + k = omega arith in
    let row : y + suc k * p.hchar ≡ y + p.hchar + k * p.hchar = omega (arith, suc-mul k p.hchar) in
    rw (place, number, row) (at_box, at_text)

-- On a list of names `simple_popup` makes a tree of one object and two for each name, just as many as
-- it has memory for, and the objects of each name are those of an entry of the menu.
pub menu_tree-IsEntry :
    (p : Place) (at : ℤ × ℤ) (names : List Bytes) (selected : ℤ) (k : ℕ) (name : Bytes)
    → get_elem? names k ≡ some name
    → (length (menu_tree p at names selected) ≡ length names * 2 + 1)
      × IsEntry (menu_tree p at names selected) (length names) p.hchar selected k name
unfolding menu_tree entry_box entry_text
menu_tree-IsEntry p at names selected k name e =
    let w = menu_width p names in
    let n = length names in
    let (at_box, at_text) = entries_loop-at p w n selected 1 0 (minus p.ob_height) names k name e in
    let box_place : 2 * k + 1 ≡ suc (2 * k) = omega arith in
    let text_place : 2 * k + 2 ≡ suc (suc (2 * k)) = omega arith in
    let number : 1 + k ≡ suc k = omega arith in
    let child : pos (suc k * 2) ≡ pos (2 * k + 2) = ap pos (omega arith) in
    (
      omega (arith, length-entries_loop p w n selected 1 0 (minus p.ob_height) names),
      record {
        box_of = entry_box p w n (suc k) selected (0 + k * p.hchar);
        text_of = entry_text p n (suc k) name;
        box_at = rw box_place (rw number at at_box);
        text_at = rw text_place (rw number at at_text);
        box_next = ap (λ (m : ℕ). if ltb (suc k) n then pos m else pos 0) (omega arith);
        box_child = (child, child);
        box_row = (ap pos (omega arith), refl);
        box_checked = refl;
        text_next = ap pos (omega arith);
        text_label = refl;
        text_last = refl;
      },
    )

entry_of_row : (k : ℕ) → entry_of (pos (2 * k + 1)) ≡ pos k
unfolding entry_of
entry_of_row k =
    let place : 2 * k + 1 ≡ suc (2 * k) = omega arith in rw place (ap pos (omega arith))

entry_of_name : (k : ℕ) → entry_of (pos (2 * k + 2)) ≡ pos k
unfolding entry_of
entry_of_name k =
    let place : 2 * k + 2 ≡ suc (2 * k + 1) = omega arith in rw place (ap pos (omega arith))

-- If a depth has modes and a text in `bpp_tab`, then with `k` the number of depths with modes below it,
-- the text of the entry `k` in the tree of the popup is the text of that depth, and the choice of the
-- box or of the text of the entry gives the depth.
pub popup_to_index-simple_popup :
    (p : Place) (at : ℤ × ℤ) (chooses : List Object → ℤ) (t : Modes) (i : ℕ) (selected : ℤ)
    (name : Bytes)
    → has_modes (modes_at t i) ≡ true
    → get_elem? bpp_tab i ≡ some name
    → (chooses (menu_tree p at (init_lbox_names t) selected) ≡ pos (2 * entries_below t i + 1))
      ⊎ (chooses (menu_tree p at (init_lbox_names t) selected) ≡ pos (2 * entries_below t i + 2))
    → (text_of : Object) × (get_elem?
          (menu_tree p at (init_lbox_names t) selected)
          (2 * entries_below t i + 2)
        ≡ some text_of)
      × (text_of.label ≡ name)
      × (popup_to_index t (simple_popup p at true chooses (init_lbox_names t) selected) ≡ pos i)
unfolding simple_popup
popup_to_index-simple_popup p at chooses t i selected name h e c =
    let k = entries_below t i in
    let entry = init_lbox_names-entries t i name h e in
    let objects = (menu_tree-IsEntry p at (init_lbox_names t) selected k name entry).1 in
    let back = popup_to_index-entries t i h in
    let gives : popup_to_index t (simple_popup p at true chooses (init_lbox_names t) selected)
        ≡ pos i =
      elim c [
        | inl box ↦ rw (box, entry_of_row k) back
        | inr text ↦ rw (text, entry_of_name k) back
      ] in
    (objects.text_of, objects.text_at, objects.text_label, gives)
