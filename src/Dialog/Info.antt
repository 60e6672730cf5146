-- ===== src/Dialog/Info.antt =====
-- `show_info` of chgres.c: the fields of the info dialog, and the virtual size that is entered there.
use chgres.Base.{
  ◌+◌, ◌-◌, ◌*◌, ◌/◌, ◌%◌, ◌^◌, Bool, not, ◌||◌, List, [], ◌∷◌, ◌++◌, ltb, ◌==◌, if◌then◌else◌,
  Bytes,
}
use chgres.Base.Int.{ℤ, pos, negsuc, ltb_ℤ, ◌*ℤ◌, ◌≤ℤ◌}
use chgres.CLib.{print_width_d, atoi}
use chgres.Mode.{Res, has_info}

-- The error dialogs.
pub data Alert : Type 0 where
  virtual_res : Alert
  res_too_large : Alert

-- The texts of INFO_HRES, INFO_VRES, INFO_FREQ, INFO_VIRT_HRES and INFO_VIRT_VRES.
unfoldable pub info_texts : Res → List Bytes
info_texts r =
    print_width_d 4 r.hres
    ∷ print_width_d 4 r.vres
    ∷ print_width_d 4 (if has_info r then r.freq else pos 0)
    ∷ print_width_d 4 r.virt_hres
    ∷ print_width_d 4 r.virt_vres
    ∷ []

-- The cast of an `int` to `short`.
abbrev pub to_short : ℤ → ℤ
to_short (pos n) = let w = n % 2 ^ 16 in if ltb w (2 ^ 15) then pos w else negsuc (2 ^ 16 - 1 - w)
to_short (negsuc n) =
    let w = n % 2 ^ 16 in if ltb w (2 ^ 15) then negsuc w else pos (2 ^ 16 - 1 - w)

-- `z & -16`, and whether `z & 15` is not 0.
abbrev pub round_16 : ℤ → ℤ
round_16 (pos n) = pos (n / 16 * 16)
round_16 (negsuc n) = negsuc (n / 16 * 16 + 15)

abbrev pub is_uneven : ℤ → Bool
is_uneven (pos n) = not (n % 16 == 0)
is_uneven (negsuc n) = not (n % 16 == 15)

-- `z >> 3`
abbrev pub shift_3 : ℤ → ℤ
shift_3 (pos n) = pos (n / 8)
shift_3 (negsuc n) = negsuc (n / 8)

abbrev pub max_ℤ : ℤ → ℤ → ℤ
max_ℤ a b = if ltb_ℤ a b then b else a

-- The bytes of a line of `width` pixels.
unfoldable pub line_size : ℤ → ℤ → ℤ
line_size planes width =
    if not (ltb_ℤ planes (pos 24))
    then width *ℤ pos 4
    else if not (ltb_ℤ planes (pos 15))
    then width *ℤ pos 2
    else shift_3 (width *ℤ planes)

-- The new virtual size.
pub record Size : Type 0 where
  pub width : ℤ
  pub height : ℤ

abbrev rounded : ℤ → ℤ → ℤ → ℤ
rounded h v z = if is_uneven h || is_uneven v then round_16 z else z

abbrev uneven_alert : ℤ → ℤ → List Alert
uneven_alert h v = if is_uneven h || is_uneven v then virtual_res ∷ [] else []

-- The size that was asked for, rounded and not below the visible size.
unfoldable pub asked_size : Res → ℤ → ℤ → Size
asked_size r h v = record {
  width = max_ℤ (rounded h v h) r.hres;
  height = max_ℤ (rounded h v v) r.vres;
}

unfoldable pub too_large : Res → Size → Bool
unfolding line_size
too_large r s =
    let line = line_size r.planes s.width in
    ltb_ℤ (pos 32700) line || ltb_ℤ (pos 1048576) (line *ℤ s.height)

-- What the dialog leaves when it is confirmed with the texts `h_text` and `v_text`.
unfoldable pub entered_size : Res → Bytes → Bytes → Size × List Alert
unfolding asked_size too_large
entered_size r h_text v_text =
    let h = to_short (atoi h_text) in
    let v = to_short (atoi v_text) in
    let s = asked_size r h v in
    if too_large r s
    then (
      record { width = r.virt_hres; height = r.virt_vres },
      uneven_alert h v ++ res_too_large ∷ [],
    )
    else (s, uneven_alert h v)

-- A size that the mode can have: not below the visible size, with lines of at most 32700 bytes and a
-- screen of at most 1 MiB.
pub record Fits (r : Res) (s : Size) : Type 0 where
  pub wide : r.hres ≤ℤ s.width
  pub high : r.vres ≤ℤ s.height
  pub short_line : line_size r.planes s.width ≤ℤ pos 32700
  pub small_screen : line_size r.planes s.width *ℤ s.height ≤ℤ pos 1048576
