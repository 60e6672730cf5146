-- ===== src/Nodes/Sort.antt =====
-- `sort_restab` on the nodes of one list.
use chgres.Base.{
  ℕ, ◌<◌, ◌≡◌, refl, ◌∙◌, Bool, true, false, ◌||◌, some, List, [], ◌∷◌, arith, ◌==◌, length,
}
use mathlib.Core.List.{Permᴰ}
use mathlib.Core.List.Permᴰ
use chgres.Base.Int.{pos}
use chgres.Base.Exec.{ok}
use chgres.Mode.{Res, cmp_res}
use chgres.Mode.Order.{IsWeakOrder}
use chgres.Mode.Sort.{
  Qsort, less, AllAnswer, AreAnswered, IsDecided, cmp_res-IsDecided, IsSorted, NotBefore,
  LargestFirst, LargestFirst-of, cmp_res-IsWeakOrder,
}
use chgres.Nodes.{node, Heap, Cell, write, relink, cmp_cell, linked, sort_restab}
use chgres.Nodes.Chain.{Chain, nil, cons, has, SameOutside, set_next_lem, write_self, write_ne}
use chgres.Nodes.Cells.{
  AllHeld, AreApart, Chain-AreApart, Chain-AllHeld, AllHeld-frame, apart_ne, not_tail, not_head,
  has-Permᴰ, AreApart-Permᴰ, AllHeld-Permᴰ,
}
use chgres.Nodes.Walk.{contents, walk-Chain, table_of-Chain}

-- The loop that links the cells of a table, at different addresses, leaves a list of them.
relink-Chain :
    (h : Heap) (c : Cell) (cs : List Cell)
    → AllHeld h (c ∷ cs)
    → AreApart (c ∷ cs)
    → (g : Heap) × (relink h (c ∷ cs) ≡ ok g) × Chain g c.0 (c ∷ cs) × SameOutside (c ∷ cs) h g
unfolding relink
relink-Chain h c [] ((ne, (q, e)), _) d = (
  write h c.0 (some (node c.1 0)),
  set_next_lem h c.0 0 (node c.1 q) ne e,
  cons ne (write_self h c.0 (some (node c.1 0))) refl (nil refl),
  λ a o. write_ne h c.0 a (some (node c.1 0)) (ground arith),
)
relink-Chain h c (b ∷ cs) ((ne, (q, e)), w) (out, d) =
    let h1 = write h c.0 (some (node c.1 b.0)) in
    let kept =
      AllHeld-frame h h1 (b ∷ cs)
        (λ a i. write_ne h c.0 a (some (node c.1 b.0)) (apart_ne c.0 a (b ∷ cs) out i)) w in
    let (g, done, chain, same) = relink-Chain h1 b cs kept d in
    (
      g,
      rw (set_next_lem h c.0 b.0 (node c.1 q) ne e) done,
      cons ne (same c.0 out ∙ write_self h c.0 (some (node c.1 b.0))) out chain,
      λ a o.
          same a (not_tail a c (b ∷ cs) o)
          ∙ write_ne h c.0 a (some (node c.1 b.0)) (not_head a c (b ∷ cs) o),
    )

cmp_cell-IsWeakOrder : IsWeakOrder (less cmp_cell)
unfolding cmp_cell
cmp_cell-IsWeakOrder = record {
  asym = λ a b. cmp_res-IsWeakOrder.asym a.1 b.1;
  not_trans = λ a b c. cmp_res-IsWeakOrder.not_trans a.1 b.1 c.1;
}

contents-NotBefore :
    (a : Cell) (cs : List Cell)
    → NotBefore (less cmp_cell) a cs
    → NotBefore (less cmp_res) a.1 (contents cs)
unfolding cmp_cell
contents-NotBefore a [] w = tt
contents-NotBefore a (c ∷ cs) (e, w) = (e, contents-NotBefore a cs w)

contents-IsSorted :
    (cs : List Cell) → IsSorted (less cmp_cell) cs → IsSorted (less cmp_res) (contents cs)
contents-IsSorted [] w = tt
contents-IsSorted (c ∷ cs) (n, w) = (contents-NotBefore c cs n, contents-IsSorted cs w)

-- What `sort_restab` leaves of a list: the head and the nodes of another with the same cells, the
-- largest virtual screens first, and every other node as it was.
pub record Sorted (h : Heap) (cs : List Cell) (p : ℕ) (g : Heap) : Type 0 where
  pub cells : List Cell
  pub chain : Chain g p cells
  pub same_cells : Permᴰ cells cs
  pub largest_first : LargestFirst (contents cells)
  pub same_outside : SameOutside cs h g

outside_sorted :
    (h g : Heap) (cs ds : List Cell) → Permᴰ ds cs → SameOutside ds h g → SameOutside cs h g
outside_sorted h g cs ds p same a o = same a (has-Permᴰ a p ∙ o)

not_empty : (cs : List Cell) → 0 < length cs → Permᴰ [] cs → ⊥
not_empty [] n p = omega arith
not_empty (c ∷ cs) n p = self_out c.0 (has c.0 cs) (has-Permᴰ c.0 p)
  where
    self_out : (a : ℕ) (o : Bool) → false ≡ ((a == a) || o) → ⊥
    self_out a o e = ground arith

linked_lem :
    (h : Heap) (cs ds : List Cell)
    → 0 < length cs
    → Permᴰ ds cs
    → AllHeld h cs
    → AreApart cs
    → (p : ℕ) × (g : Heap) × (linked h ds ≡ ok (p, g)) × Chain g p ds × SameOutside cs h g
linked_lem h cs [] n perm held apart = absurd (not_empty cs n perm)
linked_lem h cs (d ∷ ds) n perm held apart =
    let back = Permᴰ.symm perm in
    let (g, done, chain, same) =
      relink-Chain h d ds (AllHeld-Permᴰ h back held) (AreApart-Permᴰ back apart) in
    (d.0, g, rw done refl, chain, outside_sorted h g cs (d ∷ ds) perm same)

-- If `qsort` leaves the cells of the table in another order, `sort_restab` links them in that order.
pub sort_restab_relinked :
    {h : Heap} {p : ℕ} {cs : List Cell} (q : Qsort Cell) (fuel : ℕ)
    → Chain h p cs
    → 0 < length cs
    → length cs < fuel
    → Permᴰ (q.sort cmp_cell cs) cs
    → (p' : ℕ) × (g : Heap) × (sort_restab q (λ count. true) fuel h p ≡ ok (p', g))
      × Chain g p' (q.sort cmp_cell cs)
      × SameOutside cs h g
      × (sort_restab q (λ count. false) fuel h p ≡ ok (p, h))
unfolding sort_restab
sort_restab_relinked {h} {p} {cs} q fuel chain n l perm =
    let (p', g, done, linked', same) =
      linked_lem h cs (q.sort cmp_cell cs) n perm (Chain-AllHeld chain) (Chain-AreApart chain) in
    let counted = (walk-Chain fuel (pos 0) (pos 0) (pos 0) chain l).0 in
    let filled = table_of-Chain fuel chain l in
    (p', g, rw (counted, filled, done) refl, linked', same, rw counted refl)

abbrev pub AllDecided : Res → List Cell → Type 0
AllDecided r [] = Unit
AllDecided r (c ∷ cs) = IsDecided r c.1 × AllDecided r cs

-- For any two modes of the list, `cmp_res` puts one in front of the other.
abbrev pub AreDecided : List Cell → Type 0
AreDecided [] = Unit
AreDecided (c ∷ cs) = AllDecided c.1 cs × AreDecided cs

AllDecided-AllAnswer : (c : Cell) (cs : List Cell) → AllDecided c.1 cs → AllAnswer cmp_cell c cs
unfolding cmp_cell
AllDecided-AllAnswer c [] d = tt
AllDecided-AllAnswer c (b ∷ cs) (d, ds) =
    (cmp_res-IsDecided c.1 b.1 d, AllDecided-AllAnswer c cs ds)

AreDecided-AreAnswered : (cs : List Cell) → AreDecided cs → AreAnswered cmp_cell cs
AreDecided-AreAnswered [] d = tt
AreDecided-AreAnswered (c ∷ cs) (d, ds) =
    (AllDecided-AllAnswer c cs d, AreDecided-AreAnswered cs ds)

-- Then `qsort` leaves the same cells in the table.
pub sort-Permᴰ : (q : Qsort Cell) (cs : List Cell) → AreDecided cs → Permᴰ (q.sort cmp_cell cs) cs
sort-Permᴰ q cs decided =
    q.permutes cmp_cell cs cmp_cell-IsWeakOrder (AreDecided-AreAnswered cs decided)

-- On the nodes of a list that is not empty, with fuel for more rounds than it has modes, and where for
-- any two of its modes `cmp_res` puts one in front of the other, `sort_restab` with memory for the table
-- relinks the same nodes in another order, the largest virtual screens first, and leaves every other
-- node as it was; without memory it leaves all nodes as they were.
pub sort_restab-Sorted :
    {h : Heap} {p : ℕ} {cs : List Cell} (q : Qsort Cell) (fuel : ℕ)
    → Chain h p cs
    → 0 < length cs
    → length cs < fuel
    → AreDecided cs
    → (p' : ℕ) × (g : Heap) × (sort_restab q (λ count. true) fuel h p ≡ ok (p', g))
      × Sorted h cs p' g
      × (sort_restab q (λ count. false) fuel h p ≡ ok (p, h))
sort_restab-Sorted {h} {p} {cs} q fuel chain n l decided =
    let answered = AreDecided-AreAnswered cs decided in
    let perm = sort-Permᴰ q cs decided in
    let in_order = q.sorts cmp_cell cs cmp_cell-IsWeakOrder answered in
    let (p', g, done, linked', same, without) = sort_restab_relinked q fuel chain n l perm in
    let sorted : Sorted h cs p' g = record {
      cells = q.sort cmp_cell cs;
      chain = linked';
      same_cells = perm;
      largest_first =
          LargestFirst-of (contents (q.sort cmp_cell cs))
            (contents-IsSorted (q.sort cmp_cell cs) in_order);
      same_outside = same;
    } in
    (p', g, done, sorted, without)
