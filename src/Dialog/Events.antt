-- ===== src/Dialog/Events.antt =====
-- `select_item` and `hdl_obj` of chgres.c: what an event of the dialog does to the choice that is shown.
-- What the list box and the popup give for the event is part of the event. So is the table of modes where
-- the program reads or leaves it: the list box sets `selected`, `translate_restab` and `show_info` (in
-- Resize) change texts, sizes and the order of a list, and none of that is restricted here: a colour event
-- has the table as it is when the popup is used, an info event the table and the mode as `show_info`
-- leaves them.
pub mod Laws
use chgres.Base.{
  ℕ, zero, suc, ◌+◌, ◌-◌, ◌*◌, ◌/◌, ◌%◌, ◌^◌, ◌≤◌, ◌<◌, min, ◌≡◌, refl, sym, ap, ◌∙◌, ◌≢◌, ◌↔◌, ◌⊎◌,
  inl, inr, Bool, true, false, not, ◌&&◌, ◌||◌, Option, none, some, List, [], ◌∷◌, ◌++◌, map, arith,
  ltb, leb, ◌==◌, if◌then◌else◌, ltb→lt, lt→ltb, leb→le, ==_iff, Bool-cases, Option-cases, Bytes,
  length, get_elem?, set, get_or, take, drop, replicate, length-append, length-set,
  get_elem?-set_self, get_elem?-set_ne, take-append-drop, length-take, length-drop,
  length-replicate, length-map, tests, or_else,
}
use chgres.Base.Int.{ℤ, pos, negsuc, ltb_ℤ}
use chgres.Mode.{Res, Modes, modes_at, has_info, selected_res_index}
use chgres.Mode.Popup.{popup_to_index}
use chgres.Dialog.Info.{entered_size}
use chgres.Dialog.Resize.{resized}

-- `OS_DISABLED`, `OF_SELECTABLE` and `OF_DEFAULT` of an object.
pub record Button : Type 0 where
  pub disabled : Bool
  pub selectable : Bool
  pub default : Bool

-- The globals and the objects that the events change. `res_tab` is the list at `bpp_index`, and `slider`
-- the first line that the list box shows.
pub record Choice : Type 0 where
  pub table : Modes
  pub bpp_index : ℕ
  pub cur_res : Option Res
  pub ok_button : Button
  pub info_button : Button
  pub slider : ℕ
  pub must_shutdown : Bool

abbrev pub enabled : Button → Button
enabled b = record b { disabled = false; selectable = true }

abbrev pub disabled_button : Button → Button
disabled_button b = record b { disabled = true; selectable = false }

abbrev pub made_default : Bool → Button → Button
made_default on b = record b { default = on }

-- CHGRES_INFO for a mode.
abbrev pub info_for : Res → Button → Button
info_for r b = if has_info r then enabled b else disabled_button b

abbrev pub first_choice : Option Res → Button → Button
first_choice none b = made_default true (enabled b)
first_choice (some r) b = b

unfoldable pub select_item : Choice → Option Res → Choice
select_item d none = d
select_item d (some r) = record d {
  ok_button = first_choice d.cur_res d.ok_button;
  info_button = info_for r d.info_button;
  cur_res = some r;
}

-- `lbox_do` calls `select_item` for every item that it selects.
unfoldable pub select_all : Choice → List (Option Res) → Choice
unfolding select_item
select_all d [] = d
select_all d (r ∷ rs) = select_all (select_item d r) rs

-- The part behind `lbox_get_slct_item`.
abbrev pub chosen : Choice → Option Res → Choice
chosen d none = record d {
  cur_res = none;
  ok_button = made_default false (disabled_button d.ok_button);
  info_button = disabled_button d.info_button;
}
chosen d (some r) = record d {
  cur_res = some r;
  ok_button = made_default true (enabled d.ok_button);
  info_button = info_for r d.info_button;
}

abbrev pub slider_for : ℤ → ℕ
slider_for (pos n) = if ltb 9 n then n - 9 else 0
slider_for (negsuc n) = 0

-- The depth at `new`, before a mode of it is chosen.
abbrev pub depth_shown : Choice → ℕ → Choice
depth_shown d new = record d {
  bpp_index = new;
  slider = slider_for (selected_res_index (modes_at d.table new));
}

-- A depth is taken; `selected` is what `lbox_get_slct_item` gives then.
unfoldable pub take_depth : Choice → ℕ → Option Res → Choice
take_depth d new selected = chosen (depth_shown d new) selected

abbrev pub change_depth : Choice → ℤ → Option Res → Choice
change_depth d (pos new) selected = if new == d.bpp_index then d else take_depth d new selected
change_depth d (negsuc n) selected = d

-- The choice in the colour popup; below 0 for none.
unfoldable pub choose_colors : Choice → ℤ → Option Res → Choice
unfolding take_depth
choose_colors d index selected =
    if ltb_ℤ index (pos 0) then d else change_depth d (popup_to_index d.table index) selected

-- What confirms the dialog of `show_info`: the two texts, the text of `rs_string(FS_VIRTUAL)`, and the
-- table of modes behind it, with the list in its new order.
pub record Confirmed : Type 0 where
  pub table : Modes
  pub virtual : Bytes
  pub h_text : Bytes
  pub v_text : Bytes

-- The mode that `show_info` leaves in the place of the one that is chosen.
abbrev pub resized_choice : Confirmed → Option Res → Option Res
resized_choice a none = none
resized_choice a (some r) = some (resized a.virtual r (entered_size r a.h_text a.v_text).0)

abbrev pub shown_info : Confirmed → Choice → Choice
shown_info a d = record d { table = a.table; cur_res = resized_choice a d.cur_res }

-- The object of an event.
pub data Object : Type 0 where
  closed : Object
  other_message : Object
  box_item : Object
  colors : Modes → ℤ → Option Res → Object
  info : Option Confirmed → Object
  ok_object : Object
  cancel : Object
  other_object : Object

-- The result, with 0 for the end of the dialog.
unfoldable pub handle : Choice → Object → Choice × ℕ
unfolding choose_colors
handle d closed = (d, 0)
handle d other_message = (d, 1)
handle d (colors t index selected) = (choose_colors (record d { table = t }) index selected, 1)
handle d (info none) = (d, 1)
handle d (info (some a)) = (shown_info a d, 1)
handle d ok_object = (record d { must_shutdown = true }, 0)
handle d cancel = (record d { must_shutdown = false }, 0)
handle d _ = (d, 1)

-- An event: the list box takes it first, unless it is a message, selects `items`, and may end the
-- dialog, by a double click.
unfoldable pub hdl_obj : Choice → Object → List (Option Res) → Bool → Choice × ℕ
unfolding select_all handle
hdl_obj d closed items ends = handle d closed
hdl_obj d other_message items ends = handle d other_message
hdl_obj d obj items ends = handle (select_all d items) (if ends then ok_object else obj)
