-- ===== src/Dialog/Session/Laws.antt =====
-- What `select_res` returns, and the mode that is chosen then.
use chgres.Base.{
  ℕ, ◌≡◌, refl, sym, ap, ◌∙◌, ◌⊎◌, inl, inr, Bool, true, false, Option, none, some, List, [], ◌∷◌,
  arith, ◌==◌, if◌then◌else◌, Bool-cases, or_else,
}
use chgres.Base.Int.{ℤ, pos, negsuc, ltb_ℤ}
use chgres.Mode.{Res, Modes}
use chgres.Mode.Popup.{popup_to_index}
use chgres.Dialog.Events.{
  Button, Choice, Object, closed, other_message, box_item, colors, info, ok_object, cancel,
  other_object, select_item, select_all, chosen, depth_shown, take_depth, change_depth,
  choose_colors, handle, hdl_obj,
}
use chgres.Dialog.Events.Laws.{
  Agrees, is_enabled, some_mode, has_info_of, select_all-Agrees, hdl_obj-Agrees,
}
use chgres.Dialog.Session.{Event, opening, event_loop, select_res}

-- The AES gives OK only if that can be chosen, and the list box ends the dialog only with a mode.
pub record IsLegal (d : Choice) (e : Event) : Type 0 where
  pub ok_enabled : e.obj ≡ ok_object → is_enabled (select_all d e.items).ok_button ≡ true
  pub mode_taken : e.ends ≡ true → some_mode (select_all d e.items).cur_res ≡ true

abbrev pub AllLegal : Choice → List Event → Type 0
AllLegal d [] = Unit
AllLegal d (e ∷ es) = IsLegal d e × AllLegal (hdl_obj d e.obj e.items e.ends).0 es

-- A shutdown is asked for only with a mode.
abbrev pub IsSafe : Choice → Type 0
IsSafe d = d.must_shutdown ≡ true → some_mode d.cur_res ≡ true

opening-Agrees :
    (t : Modes) (shown : List Res) (i : ℕ) (cur : Option Res) (b c : Button)
    → has_info_of cur ≡ some_mode cur
    → Agrees (opening t shown i cur b c) × IsSafe (opening t shown i cur b c)
unfolding opening
opening-Agrees t shown i none b c e =
    (record { ok_is = refl; default_is = refl; info_is = refl }, λ m. absurd (ground arith))
opening-Agrees t shown i (some r) b c e =
    (record { ok_is = refl; default_is = refl; info_is = sym e }, λ m. refl)

opening_off :
    (t : Modes) (shown : List Res) (i : ℕ) (cur : Option Res) (b c : Button)
    → (opening t shown i cur b c).must_shutdown ≡ false
unfolding opening
opening_off t shown i cur b c = refl

select_all_keeps :
    (d : Choice) (items : List (Option Res)) → (select_all d items).must_shutdown ≡ d.must_shutdown
unfolding select_all select_item
select_all_keeps d [] = refl
select_all_keeps d (none ∷ rs) = select_all_keeps d rs
select_all_keeps d (some r ∷ rs) = select_all_keeps (select_item d (some r)) rs

chosen_keeps : (d : Choice) (o : Option Res) → (chosen d o).must_shutdown ≡ d.must_shutdown
chosen_keeps d none = refl
chosen_keeps d (some r) = refl

depth_keeps :
    (d : Choice) (z : ℤ) (o : Option Res) → (change_depth d z o).must_shutdown ≡ d.must_shutdown
unfolding take_depth
depth_keeps d (negsuc n) o = refl
depth_keeps d (pos new) o = elim (Bool-cases (new == d.bpp_index)) [
  | inl same ↦ rw same refl
  | inr other ↦ rw other (chosen_keeps (depth_shown d new) o)
]

choose_colors_keeps :
    (d : Choice) (index : ℤ) (o : Option Res)
    → (choose_colors d index o).must_shutdown ≡ d.must_shutdown
unfolding choose_colors
choose_colors_keeps d index o = elim (Bool-cases (ltb_ℤ index (pos 0))) [
  | inl below ↦ rw below refl
  | inr entry ↦ rw entry (depth_keeps d (popup_to_index d.table index) o)
]

-- What an event leaves: no shutdown, or one with a mode at the end of the dialog.
abbrev pub Outcome : Choice × ℕ → Type 0
Outcome r = (r.0.must_shutdown ≡ false) ⊎ ((r.1 ≡ 0) × (some_mode r.0.cur_res ≡ true))

handle-Outcome :
    (d : Choice) (obj : Object)
    → d.must_shutdown ≡ false
    → (obj ≡ ok_object → some_mode d.cur_res ≡ true)
    → Outcome (handle d obj)
unfolding handle
handle-Outcome d closed m ok = inl m
handle-Outcome d other_message m ok = inl m
handle-Outcome d box_item m ok = inl m
handle-Outcome d (colors t index o) m ok =
    inl (choose_colors_keeps (record d { table = t }) index o ∙ m)
handle-Outcome d (info none) m ok = inl m
handle-Outcome d (info (some a)) m ok = inl m
handle-Outcome d ok_object m ok = inr (refl, ok refl)
handle-Outcome d cancel m ok = inl refl
handle-Outcome d other_object m ok = inl m

boxed-Outcome :
    (d : Choice) (e : Event)
    → d.must_shutdown ≡ false
    → Agrees (select_all d e.items)
    → IsLegal d e
    → Outcome (handle (select_all d e.items) (if e.ends then ok_object else e.obj))
boxed-Outcome d e m a l = elim (Bool-cases e.ends) [
  | inl ends ↦ rw ends (
      handle-Outcome (select_all d e.items) ok_object (select_all_keeps d e.items ∙ m)
        (λ _. l.mode_taken ends))
  | inr goes ↦ rw goes (
      handle-Outcome (select_all d e.items) e.obj (select_all_keeps d e.items ∙ m)
        (λ ok. sym a.ok_is ∙ l.ok_enabled ok))
]

hdl_obj-Outcome :
    (d : Choice) (obj : Object) (items : List (Option Res)) (ends : Bool)
    → d.must_shutdown ≡ false
    → Agrees d
    → IsLegal d (record { obj = obj; items = items; ends = ends })
    → Outcome (hdl_obj d obj items ends)
unfolding hdl_obj
hdl_obj-Outcome d closed items ends m a l = inl m
hdl_obj-Outcome d other_message items ends m a l = inl m
hdl_obj-Outcome d box_item items ends m a l =
    boxed-Outcome d (record { obj = box_item; items = items; ends = ends }) m
      (select_all-Agrees d items a) l
hdl_obj-Outcome d (colors t index o) items ends m a l =
    boxed-Outcome d (record { obj = colors t index o; items = items; ends = ends }) m
      (select_all-Agrees d items a) l
hdl_obj-Outcome d (info answer) items ends m a l =
    boxed-Outcome d (record { obj = info answer; items = items; ends = ends }) m
      (select_all-Agrees d items a) l
hdl_obj-Outcome d ok_object items ends m a l =
    boxed-Outcome d (record { obj = ok_object; items = items; ends = ends }) m
      (select_all-Agrees d items a) l
hdl_obj-Outcome d cancel items ends m a l =
    boxed-Outcome d (record { obj = cancel; items = items; ends = ends }) m
      (select_all-Agrees d items a) l
hdl_obj-Outcome d other_object items ends m a l =
    boxed-Outcome d (record { obj = other_object; items = items; ends = ends }) m
      (select_all-Agrees d items a) l

Outcome-IsSafe : (r : Choice × ℕ) → Outcome r → IsSafe r.0
Outcome-IsSafe r (inl m) t = absurd (ground arith)
Outcome-IsSafe r (inr (z, c)) t = c

-- An event that does not end the dialog leaves no shutdown.
Outcome-open : (r : Choice × ℕ) → Outcome r → (r.1 == 0) ≡ false → r.0.must_shutdown ≡ false
Outcome-open r (inl m) e = m
Outcome-open r (inr (z, c)) e = absurd (ground arith)

event_loop-IsSafe :
    (d d' : Choice) (es : List Event)
    → d.must_shutdown ≡ false
    → Agrees d
    → AllLegal d es
    → event_loop d es ≡ some d'
    → Agrees d' × IsSafe d'
unfolding event_loop
event_loop-IsSafe d d' [] m a l e = absurd (ground arith)
event_loop-IsSafe d d' (v ∷ es) m a (l, ls) e =
    let r = hdl_obj d v.obj v.items v.ends in
    let a' = hdl_obj-Agrees d v.obj v.items v.ends a in
    let out = hdl_obj-Outcome d v.obj v.items v.ends m a l in
    elim (Bool-cases (r.1 == 0)) [
      | inl closes ↦
          let same : r.0 ≡ d' = ap (λ o. or_else o d') (rw closes at e) in
          rw (← same) (a', Outcome-IsSafe r out)
      | inr goes ↦ event_loop-IsSafe r.0 d' es (Outcome-open r out goes) a' ls (rw goes at e)
    ]

-- If the mode that `init_res` chose has an info, as those that the program creates do, and the events
-- are legal, then when `select_res` returns, whether the dialog was made or not, the buttons agree with
-- the mode that is chosen, and TRUE is returned only with a mode.
pub select_res-IsSafe :
    (made : Bool) (t : Modes) (shown : List Res) (i : ℕ) (cur : Option Res) (b c : Button)
    (es : List Event) (d : Choice)
    → has_info_of cur ≡ some_mode cur
    → AllLegal (opening t shown i cur b c) es
    → select_res made (opening t shown i cur b c) es ≡ some d
    → Agrees d × IsSafe d
unfolding select_res
select_res-IsSafe true t shown i cur b c es d h l e =
    event_loop-IsSafe (opening t shown i cur b c) d es (opening_off t shown i cur b c)
      (opening-Agrees t shown i cur b c h).0 l e
select_res-IsSafe false t shown i cur b c es d h l e =
    let same : opening t shown i cur b c ≡ d = ap (λ o. or_else o d) e in
    rw (← same) (opening-Agrees t shown i cur b c h)
