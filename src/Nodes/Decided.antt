-- ===== src/Nodes/Decided.antt =====
-- Lists of modes that `cmp_res` of chgres.c tells apart, in another order and with a mode selected.
use chgres.Base.{◌≡◌, refl, sym, ap, ◌∙◌, Bool, true, false, not, List, [], ◌∷◌}
use mathlib.Core.Path.{subst}
use mathlib.Core.List.{Permᴰ}
use chgres.Mode.{Res, goes_first}
use chgres.Mode.Sort.{IsDecided}
use chgres.Nodes.{Cell}
use chgres.Nodes.Sort.{AllDecided, AreDecided}

not_both : (a b : Bool) → a ≡ not b → b ≡ not a
not_both a true e = rw e refl
not_both a false e = rw e refl

IsDecided-sym : (r s : Res) → IsDecided r s → IsDecided s r
IsDecided-sym r s d = not_both (goes_first r s) (goes_first s r) d

pub AllDecided-Permᴰ :
    (x : Res) {cs ds : List Cell} → Permᴰ cs ds → AllDecided x cs → AllDecided x ds
AllDecided-Permᴰ x Permᴰ.nil w = w
AllDecided-Permᴰ x (Permᴰ.cons e d) (k, w) = (rw e at k, AllDecided-Permᴰ x d w)
AllDecided-Permᴰ x (Permᴰ.swap e f) (k, (m, w)) = (rw f at m, (rw e at k, w))
AllDecided-Permᴰ x (Permᴰ.trans d e) w = AllDecided-Permᴰ x e (AllDecided-Permᴰ x d w)

exchanged : (a b : Cell) (l : List Cell) → AreDecided (b ∷ a ∷ l) → AreDecided (a ∷ b ∷ l)
exchanged a b l ((d, bs), (as', w)) = ((IsDecided-sym b.1 a.1 d, as'), (bs, w))

pub AreDecided-Permᴰ : {cs ds : List Cell} → Permᴰ cs ds → AreDecided cs → AreDecided ds
AreDecided-Permᴰ Permᴰ.nil w = w
AreDecided-Permᴰ (Permᴰ.cons {a} {l₁} e d) (o, w) =
    (rw e at (AllDecided-Permᴰ a.1 d o), AreDecided-Permᴰ d w)
AreDecided-Permᴰ (Permᴰ.swap {a} {b} {a'} {b'} {l} e f) w = exchanged a' b' l (
    subst (λ (c : Cell). AreDecided (b' ∷ c ∷ l)) f
      (subst (λ (c : Cell). AreDecided (c ∷ b ∷ l)) e w))
AreDecided-Permᴰ (Permᴰ.trans d e) w = AreDecided-Permᴰ e (AreDecided-Permᴰ d w)

-- `goes_first` tells no difference between the two modes.
abbrev pub Alike : Res → Res → Type 0
Alike r r' = (x : Res) → (goes_first x r' ≡ goes_first x r) × (goes_first r' x ≡ goes_first r x)

pub Alike-AllDecided :
    (r r' : Res) (cs : List Cell) → Alike r r' → AllDecided r cs → AllDecided r' cs
Alike-AllDecided r r' [] alike w = tt
Alike-AllDecided r r' (c ∷ cs) alike (d, w) =
    let (there, here) = alike c.1 in
    (here ∙ d ∙ ap not (sym there), Alike-AllDecided r r' cs alike w)

pub Alike-IsDecided : (x r r' : Res) → Alike r r' → IsDecided x r → IsDecided x r'
Alike-IsDecided x r r' alike d = let (there, here) = alike x in there ∙ d ∙ ap not (sym here)
