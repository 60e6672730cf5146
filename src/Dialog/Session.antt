-- ===== src/Dialog/Session.antt =====
-- `select_res` of chgres.c: the dialog from its opening until an event ends it. What the AES gives is an
-- argument: whether the dialog and its list box are made and opened, and the events. The texts that it
-- shows are in Fields.
pub mod Laws
use chgres.Base.{
  ℕ, zero, suc, ◌+◌, ◌-◌, ◌*◌, ◌/◌, ◌%◌, ◌^◌, ◌≤◌, ◌<◌, min, ◌≡◌, refl, sym, ap, ◌∙◌, ◌≢◌, ◌↔◌, ◌⊎◌,
  inl, inr, Bool, true, false, not, ◌&&◌, ◌||◌, Option, none, some, List, [], ◌∷◌, ◌++◌, map, arith,
  ltb, leb, ◌==◌, if◌then◌else◌, ltb→lt, lt→ltb, leb→le, ==_iff, Bool-cases, Option-cases, Bytes,
  length, get_elem?, set, get_or, take, drop, replicate, length-append, length-set,
  get_elem?-set_self, get_elem?-set_ne, take-append-drop, length-take, length-drop,
  length-replicate, length-map, tests, or_else,
}
use chgres.Base.Int.{ℤ, pos}
use chgres.Mode.{Res, Modes, modes_at, selected_res_index}
use chgres.Dialog.Events.{
  Button, Choice, Object, slider_for, hdl_obj, enabled, disabled_button, made_default,
}

-- What `hdl_obj` gets: the object, the items that the list box selects, and whether that ends the dialog.
pub record Event : Type 0 where
  pub obj : Object
  pub items : List (Option Res)
  pub ends : Bool

-- The two buttons at first; INFO is enabled for any mode, though it is hidden.
abbrev pub ok_for : Option Res → Button → Button
ok_for none b = made_default false (disabled_button b)
ok_for (some r) b = made_default true (enabled b)

abbrev pub info_at_first : Option Res → Button → Button
info_at_first none b = disabled_button b
info_at_first (some r) b = enabled b

-- The choice that is shown first, for what `init_res` found: the table, the list at `res_tab`, of which the
-- list box is made, the depth and the mode. `translate_restab` changes nothing here but texts, and the
-- events have the tables that are seen later.
unfoldable pub opening : Modes → List Res → ℕ → Option Res → Button → Button → Choice
opening t res_tab bpp_index cur_res ok_button info_button = record {
  table = t;
  bpp_index = bpp_index;
  cur_res = cur_res;
  ok_button = ok_for cur_res ok_button;
  info_button = info_at_first cur_res info_button;
  slider = slider_for (selected_res_index res_tab);
  must_shutdown = false;
}

-- The loop over the events; `none` if the dialog is open behind the last of them.
unfoldable pub event_loop : Choice → List Event → Option Choice
unfolding hdl_obj
event_loop d [] = none
event_loop d (e ∷ es) =
    let result = hdl_obj d e.obj e.items e.ends in
    let rest = event_loop result.0 es in if result.1 == 0 then some result.0 else rest

-- `select_res` returns `must_shutdown`; `made` says whether the dialog is made and opened.
unfoldable pub select_res : Bool → Choice → List Event → Option Choice
unfolding event_loop
select_res made d es = if made then event_loop d es else some d
