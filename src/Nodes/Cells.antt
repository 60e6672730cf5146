-- ===== src/Nodes/Cells.antt =====
-- Lists of cells: whose nodes are there, and whose addresses differ; in any order of the same cells.
use chgres.Base.{
  ℕ, suc, ◌≡◌, refl, ap, ◌∙◌, ◌≢◌, Bool, true, false, ◌||◌, some, List, [], ◌∷◌, arith, ◌==◌,
  length,
}
use mathlib.Core.Path.{subst}
use mathlib.Core.List.{Permᴰ}
use chgres.Nodes.{node, Heap, Cell}
use chgres.Nodes.Chain.{Chain, nil, cons, has}

-- The node of the cell, wherever it leads.
abbrev pub Held : Heap → Cell → Type 0
Held h c = (c.0 ≢ 0) × ((q : ℕ) × (h c.0 ≡ some (node c.1 q)))

abbrev pub AllHeld : Heap → List Cell → Type 0
AllHeld h [] = Unit
AllHeld h (c ∷ cs) = Held h c × AllHeld h cs

-- No two cells have one address.
abbrev pub AreApart : List Cell → Type 0
AreApart [] = Unit
AreApart (c ∷ cs) = (has c.0 cs ≡ false) × AreApart cs

pub Chain-AreApart : {h : Heap} {p : ℕ} {cs : List Cell} → Chain h p cs → AreApart cs
Chain-AreApart (nil z) = tt
Chain-AreApart (cons ne e out s) = (out, Chain-AreApart s)

pub Chain-AllHeld : {h : Heap} {p : ℕ} {cs : List Cell} → Chain h p cs → AllHeld h cs
Chain-AllHeld (nil z) = tt
Chain-AllHeld (cons {q} ne e out s) = ((ne, (q, e)), Chain-AllHeld s)

pub AllHeld-frame :
    (h g : Heap) (cs : List Cell)
    → ((a : ℕ) → has a cs ≡ true → g a ≡ h a)
    → AllHeld h cs
    → AllHeld g cs
AllHeld-frame h g [] same w = tt
AllHeld-frame h g (c ∷ cs) same ((ne, (q, e)), w) =
    ((ne, (q, same c.0 (ground arith) ∙ e)), AllHeld-frame h g cs (λ a i. same a (ground arith)) w)

pub apart_ne : (a p : ℕ) (cs : List Cell) → has a cs ≡ false → has p cs ≡ true → (p == a) ≡ false
apart_ne a p [] o i = absurd (ground arith)
apart_ne a p (c ∷ cs) o i = ground (arith, apart_ne a p cs)

pub not_tail : (a : ℕ) (c : Cell) (cs : List Cell) → has a (c ∷ cs) ≡ false → has a cs ≡ false
not_tail a c cs o = ground arith

pub not_head : (a : ℕ) (c : Cell) (cs : List Cell) → has a (c ∷ cs) ≡ false → (a == c.0) ≡ false
not_head a c cs o = ground arith

pub or_swap : (x y z : Bool) → (x || (y || z)) ≡ (y || (x || z))
or_swap x y z = ground arith

pub has-Permᴰ : (a : ℕ) {xs ys : List Cell} → Permᴰ xs ys → has a xs ≡ has a ys
has-Permᴰ a Permᴰ.nil = refl
has-Permᴰ a (Permᴰ.cons e d) = rw (e, has-Permᴰ a d) refl
has-Permᴰ a (Permᴰ.swap {a'} {b'} {l} e f) = rw (e, f) (or_swap (a == b'.0) (a == a'.0) (has a l))
has-Permᴰ a (Permᴰ.trans d e) = has-Permᴰ a d ∙ has-Permᴰ a e

pub length-Permᴰ : {xs ys : List Cell} → Permᴰ xs ys → length xs ≡ length ys
length-Permᴰ Permᴰ.nil = refl
length-Permᴰ (Permᴰ.cons e d) = ap suc (length-Permᴰ d)
length-Permᴰ (Permᴰ.swap e f) = refl
length-Permᴰ (Permᴰ.trans d e) = length-Permᴰ d ∙ length-Permᴰ e

pub flip :
    (a b : Cell) (l : List Cell)
    → has b.0 (a ∷ l) ≡ false
    → has a.0 l ≡ false
    → has a.0 (b ∷ l) ≡ false
flip a b l o p = ground arith

pub swapped : (a b : Cell) (l : List Cell) → AreApart (b ∷ a ∷ l) → AreApart (a ∷ b ∷ l)
swapped a b l (o, (p, w)) = (flip a b l o p, (not_tail b.0 a l o, w))

pub AreApart-Permᴰ : {xs ys : List Cell} → Permᴰ xs ys → AreApart xs → AreApart ys
AreApart-Permᴰ Permᴰ.nil w = w
AreApart-Permᴰ (Permᴰ.cons {a} {l₁} e d) (o, w) =
    (rw (← e) (rw (← has-Permᴰ a.0 d) o), AreApart-Permᴰ d w)
AreApart-Permᴰ (Permᴰ.swap {a} {b} {a'} {b'} {l} e f) w =
    swapped a' b' l (
      subst (λ (c : Cell). AreApart (b' ∷ c ∷ l)) f
        (subst (λ (c : Cell). AreApart (c ∷ b ∷ l)) e w))
AreApart-Permᴰ (Permᴰ.trans d e) w = AreApart-Permᴰ e (AreApart-Permᴰ d w)

pub AllHeld-Permᴰ : (h : Heap) {xs ys : List Cell} → Permᴰ xs ys → AllHeld h xs → AllHeld h ys
AllHeld-Permᴰ h Permᴰ.nil w = w
AllHeld-Permᴰ h (Permᴰ.cons e d) (k, w) = (rw e at k, AllHeld-Permᴰ h d w)
AllHeld-Permᴰ h (Permᴰ.swap e f) (k, (m, w)) = (rw f at m, (rw e at k, w))
AllHeld-Permᴰ h (Permᴰ.trans d e) w = AllHeld-Permᴰ h e (AllHeld-Permᴰ h d w)
