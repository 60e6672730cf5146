-- ===== src/Dialog/Events/Laws.antt =====
-- The buttons and the mode that is chosen, behind an event.
use chgres.Base.{
  ◌≡◌, refl, sym, ◌∙◌, inl, inr, Bool, true, false, not, ◌&&◌, Option, none, some, List, [], ◌∷◌,
  ◌==◌, if◌then◌else◌, Bool-cases,
}
use chgres.Base.Int.{ℤ, pos, negsuc, ltb_ℤ}
use chgres.Mode.{Res, has_info}
use chgres.Dialog.Resize.{resized}
use chgres.Mode.Popup.{popup_to_index}
use chgres.Dialog.Events.{
  Confirmed, resized_choice, Button, Choice, select_item, select_all, info_for, first_choice,
  chosen, depth_shown, take_depth, change_depth, choose_colors, Object, closed, other_message,
  box_item, colors, info, ok_object, cancel, other_object, handle, hdl_obj,
}

abbrev pub is_enabled : Button → Bool
is_enabled b = not b.disabled && b.selectable

abbrev pub some_mode : Option Res → Bool
some_mode none = false
some_mode (some r) = true

abbrev pub has_info_of : Option Res → Bool
has_info_of none = false
has_info_of (some r) = has_info r

-- OK can be chosen just if there is a mode, and is the default then; INFO just if the mode has one.
pub record Agrees (d : Choice) : Type 0 where
  pub ok_is : is_enabled d.ok_button ≡ some_mode d.cur_res
  pub default_is : d.ok_button.default ≡ some_mode d.cur_res
  pub info_is : is_enabled d.info_button ≡ has_info_of d.cur_res

info_for_lem : (r : Res) (b : Button) → is_enabled (info_for r b) ≡ has_info r
info_for_lem r b = elim (Bool-cases (has_info r)) [ inl e ↦ rw e refl | inr e ↦ rw e refl ]

first_enabled :
    (o : Option Res) (b : Button)
    → is_enabled b ≡ some_mode o
    → is_enabled (first_choice o b) ≡ true
first_enabled none b h = refl
first_enabled (some r) b h = h

first_default :
    (o : Option Res) (b : Button) → b.default ≡ some_mode o → (first_choice o b).default ≡ true
first_default none b h = refl
first_default (some r) b h = h

select_item-Agrees : (d : Choice) (o : Option Res) → Agrees d → Agrees (select_item d o)
unfolding select_item
select_item-Agrees d none h = h
select_item-Agrees d (some r) h = record {
  ok_is = first_enabled d.cur_res d.ok_button h.ok_is;
  default_is = first_default d.cur_res d.ok_button h.default_is;
  info_is = info_for_lem r d.info_button;
}

pub select_all-Agrees :
    (d : Choice) (items : List (Option Res)) → Agrees d → Agrees (select_all d items)
unfolding select_all
select_all-Agrees d [] h = h
select_all-Agrees d (r ∷ rs) h = select_all-Agrees (select_item d r) rs (select_item-Agrees d r h)

chosen-Agrees : (d : Choice) (o : Option Res) → Agrees (chosen d o)
chosen-Agrees d none = record { ok_is = refl; default_is = refl; info_is = refl }
chosen-Agrees d (some r) = record {
  ok_is = refl;
  default_is = refl;
  info_is = info_for_lem r d.info_button;
}

change_depth-Agrees : (d : Choice) (z : ℤ) (o : Option Res) → Agrees d → Agrees (change_depth d z o)
unfolding take_depth
change_depth-Agrees d (negsuc n) o h = h
change_depth-Agrees d (pos new) o h = elim (Bool-cases (new == d.bpp_index)) [
  | inl same ↦ rw same h
  | inr other ↦ rw other (chosen-Agrees (depth_shown d new) o)
]

pub some_mode-resized :
    (a : Confirmed) (o : Option Res) → some_mode (resized_choice a o) ≡ some_mode o
some_mode-resized a none = refl
some_mode-resized a (some r) = refl

has_info_of-resized :
    (a : Confirmed) (o : Option Res) → has_info_of (resized_choice a o) ≡ has_info_of o
unfolding resized
has_info_of-resized a none = refl
has_info_of-resized a (some r) = refl

handle-Agrees : (d : Choice) (obj : Object) → Agrees d → Agrees (handle d obj).0
unfolding handle choose_colors
handle-Agrees d closed h = h
handle-Agrees d other_message h = h
handle-Agrees d box_item h = h
handle-Agrees d (colors t index selected) h =
    let seen = record d { table = t } in
    let same : Agrees seen = record {
      ok_is = h.ok_is;
      default_is = h.default_is;
      info_is = h.info_is;
    } in
    elim (Bool-cases (ltb_ℤ index (pos 0))) [
      | inl below ↦ rw below same
      | inr entry ↦ rw entry (change_depth-Agrees seen (popup_to_index t index) selected same)
    ]
handle-Agrees d (info none) h = h
handle-Agrees d (info (some a)) h = record {
  ok_is = h.ok_is ∙ sym (some_mode-resized a d.cur_res);
  default_is = h.default_is ∙ sym (some_mode-resized a d.cur_res);
  info_is = h.info_is ∙ sym (has_info_of-resized a d.cur_res);
}
handle-Agrees d ok_object h = record {
  ok_is = h.ok_is;
  default_is = h.default_is;
  info_is = h.info_is;
}
handle-Agrees d cancel h = record {
  ok_is = h.ok_is;
  default_is = h.default_is;
  info_is = h.info_is;
}
handle-Agrees d other_object h = h

boxed-Agrees :
    (d : Choice) (obj : Object) (items : List (Option Res)) (ends : Bool)
    → Agrees d
    → Agrees (handle (select_all d items) (if ends then ok_object else obj)).0
boxed-Agrees d obj items ends h =
    handle-Agrees (select_all d items) (if ends then ok_object else obj)
      (select_all-Agrees d items h)

-- If OK can be chosen and is the default just when there is a mode, and INFO can be chosen just when
-- that mode has an info, then it is so behind every event that `hdl_obj` handles, whatever the list box
-- selects and the popup gives.
pub hdl_obj-Agrees :
    (d : Choice) (obj : Object) (items : List (Option Res)) (ends : Bool)
    → Agrees d
    → Agrees (hdl_obj d obj items ends).0
unfolding hdl_obj
hdl_obj-Agrees d closed items ends h = handle-Agrees d closed h
hdl_obj-Agrees d other_message items ends h = handle-Agrees d other_message h
hdl_obj-Agrees d box_item items ends h = boxed-Agrees d box_item items ends h
hdl_obj-Agrees d (colors t index selected) items ends h =
    boxed-Agrees d (colors t index selected) items ends h
hdl_obj-Agrees d (info answer) items ends h = boxed-Agrees d (info answer) items ends h
hdl_obj-Agrees d ok_object items ends h = boxed-Agrees d ok_object items ends h
hdl_obj-Agrees d cancel items ends h = boxed-Agrees d cancel items ends h
hdl_obj-Agrees d other_object items ends h = boxed-Agrees d other_object items ends h
