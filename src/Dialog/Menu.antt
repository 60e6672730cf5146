-- ===== src/Dialog/Menu.antt =====
-- `simple_popup` of popup.c: the object tree of the colour popup, and the entry that is chosen. What
-- `objc_offset` and `form_popup` answer, and the sizes of a character, are arguments.
pub mod Laws
use chgres.Base.{
  ℕ, zero, suc, ◌+◌, ◌-◌, ◌*◌, ◌/◌, ◌%◌, ◌^◌, ◌≤◌, ◌<◌, min, ◌≡◌, refl, sym, ap, ◌∙◌, ◌≢◌, ◌↔◌, ◌⊎◌,
  inl, inr, Bool, true, false, not, ◌&&◌, ◌||◌, Option, none, some, List, [], ◌∷◌, ◌++◌, map, arith,
  ltb, leb, ◌==◌, if◌then◌else◌, ltb→lt, lt→ltb, leb→le, ==_iff, Bool-cases, Option-cases, Bytes,
  length, get_elem?, set, get_or, take, drop, replicate, length-append, length-set,
  get_elem?-set_self, get_elem?-set_ne, take-append-drop, length-take, length-drop,
  length-replicate, length-map, tests,
}
use chgres.Base.Int.{ℤ, pos, negsuc, ◌-ℤ◌, ◌+ℤ◌, ltb_ℤ}
use chgres.Mode.{eq_ℤ}

pub data Kind : Type 0 where
  box : Kind
  ibox : Kind
  text : Kind

-- An OBJECT, with the flags and the states that occur here. `label` is `ob_spec.free_string`.
pub record Object : Type 0 where
  pub next : ℤ
  pub head : ℤ
  pub tail : ℤ
  pub kind : Kind
  pub fl3dbak : Bool
  pub selectable : Bool
  pub lastob : Bool
  pub shadowed : Bool
  pub checked : Bool
  pub label : Bytes
  pub x : ℤ
  pub y : ℤ
  pub width : ℕ
  pub height : ℕ

abbrev pub nil : ℤ
nil = negsuc 0

-- The object below which the popup opens, `gl_wchar` and `gl_hchar`.
pub record Place : Type 0 where
  pub ob_width : ℕ
  pub ob_height : ℕ
  pub wchar : ℕ
  pub hchar : ℕ

-- The length of the longest name, but at least `longest`.
unfoldable pub longest_name : ℕ → List Bytes → ℕ
longest_name longest [] = longest
longest_name longest (name ∷ names) =
    longest_name (if ltb longest (length name) then length name else longest) names

unfoldable pub menu_width : Place → List Bytes → ℕ
unfolding longest_name
menu_width p names =
    let w = (longest_name 0 names + 4) * p.wchar in if ltb w p.ob_width then p.ob_width else w

-- The root, before it is placed.
unfoldable pub root_object : Place → List Bytes → Object
unfolding menu_width
root_object p names =
    let n = length names in
    record {
      next = nil;
      head = if ltb 0 n then pos 1 else nil;
      tail = if ltb 0 n then pos (n * 2 - 1) else nil;
      kind = box;
      fl3dbak = true;
      selectable = false;
      lastob = not (ltb 0 n);
      shadowed = true;
      checked = false;
      label = [];
      x = pos 0;
      y = pos 0;
      width = menu_width p names;
      height = n * p.hchar;
    }

-- The box of entry `i` of `n`, at `y`.
unfoldable pub entry_box : Place → ℕ → ℕ → ℕ → ℤ → ℕ → Object
entry_box p width n i selected y = record {
  next = if ltb i n then pos (i * 2 + 1) else pos 0;
  head = pos (i * 2);
  tail = pos (i * 2);
  kind = ibox;
  fl3dbak = true;
  selectable = true;
  lastob = false;
  shadowed = false;
  checked = eq_ℤ (selected +ℤ pos 1) (pos i);
  label = [];
  x = pos 0;
  y = pos y;
  width = width;
  height = p.hchar;
}

-- The text in it.
unfoldable pub entry_text : Place → ℕ → ℕ → Bytes → Object
entry_text p n i name = record {
  next = pos (i * 2 - 1);
  head = nil;
  tail = nil;
  kind = text;
  fl3dbak = false;
  selectable = false;
  lastob = i == n;
  shadowed = false;
  checked = false;
  label = name;
  x = pos (p.wchar * 2);
  y = pos 0;
  width = 0;
  height = p.hchar;
}

-- The loop from entry `i` on: the objects, and `sel_y` behind it.
unfoldable pub entries_loop : Place → ℕ → ℕ → ℤ → ℕ → ℕ → ℤ → List Bytes → List Object × ℤ
unfolding entry_box entry_text
entries_loop p width n selected i y sel_y [] = ([], sel_y)
entries_loop p width n selected i y sel_y (name ∷ names) =
    let sel_y' = if eq_ℤ (selected +ℤ pos 1) (pos i) then pos y else sel_y in
    let rest = entries_loop p width n selected (suc i) (y + p.hchar) sel_y' names in
    (entry_box p width n i selected y ∷ entry_text p n i name ∷ rest.0, rest.1)

-- `-obj->ob_height`
abbrev pub minus : ℕ → ℤ
minus n = pos 0 -ℤ pos n

-- The tree, with its root at the place that `objc_offset` gives, less `sel_y`.
unfoldable pub menu_tree : Place → ℤ × ℤ → List Bytes → ℤ → List Object
unfolding entries_loop root_object
menu_tree p at names selected =
    let made =
      entries_loop p (menu_width p names) (length names) selected 1 0 (minus p.ob_height) names in
    record (root_object p names) { x = at.0; y = at.1 -ℤ made.1 } ∷ made.0

-- The entry of the object that `form_popup` gives, or -1.
unfoldable pub entry_of : ℤ → ℤ
entry_of (pos zero) = negsuc 0
entry_of (pos (suc n)) = pos (n / 2)
entry_of (negsuc n) = negsuc 0

-- Without memory the entry that was selected is given back.
unfoldable pub simple_popup : Place → ℤ × ℤ → Bool → (List Object → ℤ) → List Bytes → ℤ → ℤ
unfolding menu_tree entry_of
simple_popup p at memory form_popup names selected =
    if memory then entry_of (form_popup (menu_tree p at names selected)) else selected
