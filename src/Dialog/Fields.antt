-- ===== src/Dialog/Fields.antt =====
-- `set_bpp`, the text of `set_item` and `translate_restab`: a string is copied into the text of an
-- object, which keeps its length. A text is the list of its bytes, of which none is 0, without the terminating 0.
use chgres.Base.{
  ℕ, suc, ◌-◌, ◌≡◌, refl, ap, Option, none, some, List, [], ◌∷◌, ◌++◌, Bytes, length, get_or, take,
  replicate,
}
use native.Mathlib.Nat.{zero-sub, sub-zero, suc-sub-suc}
use chgres.CLib.{codes, strstr}
use chgres.Mode.{Res}
use chgres.Mode.Popup.{bpp_tab}

-- The two loops at the end: `src` as far as it and the text go, and then blanks.
unfoldable pub fill : Bytes → Bytes → Bytes
fill [] src = []
fill (c ∷ text) [] = b' ' ∷ fill text []
fill (c ∷ text) (d ∷ src) = d ∷ fill text src

-- `none` is an item that is NULL.
unfoldable pub item_text : Option Res → Bytes → Bytes
unfolding fill
item_text none text = fill text []
item_text (some r) [] = []
item_text (some r) (c ∷ text) = b' ' ∷ fill text r.desc

unfoldable pub set_bpp : Bytes → ℕ → Bytes
unfolding fill
set_bpp [] i = []
set_bpp (c ∷ []) i = b' ' ∷ []
set_bpp (c ∷ d ∷ text) i = b' ' ∷ b' ' ∷ fill text (get_or bpp_tab i [])

-- The `n` bytes that show `src`: its first bytes, and blanks behind them.
abbrev pub shown : ℕ → Bytes → Bytes
shown n src = take n src ++ replicate (n - length src) b' '

fill-blanks : (text : Bytes) → fill text [] ≡ replicate (length text) b' '
unfolding fill
fill-blanks [] = refl
fill-blanks (c ∷ text) = ap (λ s. b' ' ∷ s) (fill-blanks text)

fill-shown : (text src : Bytes) → fill text src ≡ shown (length text) src
unfolding fill
fill-shown [] [] = refl
fill-shown [] (d ∷ src) = rw zero-sub refl
fill-shown (c ∷ text) [] = rw sub-zero (ap (λ s. b' ' ∷ s) (fill-blanks text))
fill-shown (c ∷ text) (d ∷ src) = rw suc-sub-suc (ap (λ s. d ∷ s) (fill-shown text src))

-- In a text of at least one byte `set_item` shows an item as a blank and then its description, cut to
-- the length of the text or with blanks behind it; without an item it shows blanks only.
item_text-shown :
    (c : ℕ) (text : Bytes) (r : Res)
    → (item_text (some r) (c ∷ text) ≡ b' ' ∷ shown (length text) r.desc)
      × (item_text none (c ∷ text) ≡ replicate (suc (length text)) b' ')
unfolding item_text
item_text-shown c text r = (ap (λ s. b' ' ∷ s) (fill-shown text r.desc), fill-blanks (c ∷ text))

-- `strcpy` over the place where `word` begins, if it occurs.
abbrev cut_over : Bytes → Bytes → Option ℕ → Bytes
cut_over desc new none = desc
cut_over desc new (some k) = take k desc ++ new

unfoldable pub translated : Bytes → Bytes → Bytes → Bytes
unfolding strstr
translated word new desc = cut_over desc new (strstr desc word)

abbrev described : Res → Bytes → Res
described r desc = record r { base = record (r.base) { desc = desc } }

-- `low`, `med` and `high` are the texts of the resource file.
unfoldable pub translate_restab : Bytes → Bytes → Bytes → List Res → List Res
unfolding translated
translate_restab low med high [] = []
translate_restab low med high (r ∷ rs) =
    described r (
      translated (codes "Hoch") high
        (translated (codes "Mittel") med (translated (codes "Niedrig") low r.desc)))
    ∷ translate_restab low med high rs
