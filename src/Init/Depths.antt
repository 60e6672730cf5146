-- ===== src/Init/Depths.antt =====
-- The lists of all depths behind each step of `init_res`, and the depth that is the default.
use chgres.Base.{
  ℕ, zero, suc, ◌<◌, ◌≡◌, refl, sym, ◌∙◌, ◌≢◌, inl, inr, Bool, true, false, some, List, [], ◌∷◌,
  arith, ◌==◌, Bool-cases, length, set,
}
use chgres.Base.Int.{ℤ}
use chgres.Base.Exec.{ok}
use chgres.Mode.Sort.{Qsort}
use chgres.Nodes.{Node, Heap, Cell, write}
use chgres.Nodes.Chain.{Chain, nil, cons, has, SameOutside, frame}
use chgres.Nodes.Sort.{AreDecided}
use chgres.Init.{Setting, head_at, select_node, sort_depth, best_depth}
use chgres.Init.Lists.{filled, Same-trans, IsListOf, select-IsListOf, sort_restab-IsListOf}

-- The cells of each list at first: those of different depths have different nodes.
abbrev pub AreDisjoint : (ℕ → List Cell) → Type 0
AreDisjoint css = (i j a : ℕ) → (i == j) ≡ false → has a (css i) ≡ true → has a (css j) ≡ false

pub head-set_self : (heads : List ℕ) (i p : ℕ) → head_at heads i ≢ 0 → head_at (set heads i p) i ≡ p
head-set_self [] i p ne = absurd (ne refl)
head-set_self (x ∷ heads) zero p ne = refl
head-set_self (x ∷ heads) (suc i) p ne = head-set_self heads i p ne

pub head-set_ne :
    (heads : List ℕ) (i j p : ℕ) → (j == i) ≡ false → head_at (set heads i p) j ≡ head_at heads j
head-set_ne [] i j p ne = refl
head-set_ne (x ∷ heads) zero zero p ne = absurd (ground arith)
head-set_ne (x ∷ heads) zero (suc j) p ne = refl
head-set_ne (x ∷ heads) (suc i) zero p ne = refl
head-set_ne (x ∷ heads) (suc i) (suc j) p ne = head-set_ne heads i j p (ground arith)

pub head_null :
    {h : Heap} {p : ℕ} {cs : List Cell} → Chain h p cs → (p == 0) ≡ true → filled cs ≡ false
head_null (nil z) e = refl
head_null (cons {p} ne at out s) e = absurd (ground arith)

pub head_filled :
    {h : Heap} {p : ℕ} {cs : List Cell} → Chain h p cs → (p == 0) ≡ false → filled cs ≡ true
head_filled (nil {p} z) e = absurd (ground arith)
head_filled (cons ne at out s) e = refl

pub filled-length : (cs : List Cell) → filled cs ≡ true → 0 < length cs
filled-length [] e = absurd (ground arith)
filled-length (c ∷ cs) e = omega arith

same_filled : (cs ds : List Cell) → length cs ≡ length ds → filled cs ≡ filled ds
same_filled [] [] e = refl
same_filled [] (d ∷ ds) e = absurd (omega arith)
same_filled (c ∷ cs) [] e = absurd (omega arith)
same_filled (c ∷ cs) (d ∷ ds) e = refl

-- The depth that is the default, below `i`: the highest that has modes, if there is any.
pub data Best (css : ℕ → List Cell) (i : ℕ) (s s' : Setting) : Type 0 where
  no_depth : ((j : ℕ) → j < i → filled (css j) ≡ false) → s' ≡ s → Best css i s s'
  depth :
      s'.bpp_index < i
      → filled (css s'.bpp_index) ≡ true
      → ((j : ℕ) → s'.bpp_index < j → j < i → filled (css j) ≡ false)
      → s'.res_tab ≡ head_at s'.heads s'.bpp_index
      → s'.cur_res ≡ s.cur_res
      → Best css i s s'

Best-suc :
    (css : ℕ → List Cell) (i : ℕ) (s s' : Setting)
    → filled (css i) ≡ false
    → Best css i s s'
    → Best css (suc i) s s'
Best-suc css i s s' e (no_depth none_below same) =
    no_depth
      (λ j l. elim (Bool-cases (j == i)) [
        | inl here ↦ let there : j ≡ i = ground arith in rw there e
        | inr other ↦ none_below j (ground arith)
      ])
      same
Best-suc css i s s' e (depth below has_some none_above tab cur) =
    depth (omega arith) has_some
      (λ j l l'. elim (Bool-cases (j == i)) [
        | inl here ↦ let there : j ≡ i = ground arith in rw there e
        | inr other ↦ none_above j l (ground arith)
      ])
      tab cur

module _ (currez vmode : ℤ) (css : ℕ → List Cell) where
  -- Each head leads through the nodes of its list.
  abbrev pub HoldsAll : List ℕ → Heap → Type 0
  HoldsAll heads h = (i : ℕ) → IsListOf currez vmode h (head_at heads i) (css i)

  pub null-empty :
      (heads : List ℕ) (h : Heap) (i : ℕ)
      → HoldsAll heads h
      → (head_at heads i == 0) ≡ true
      → filled (css i) ≡ false
  null-empty heads h i w e =
      let (ds, chain, same) = w i in same_filled (css i) ds (sym same.size) ∙ head_null chain e

  pub head-filled :
      (heads : List ℕ) (h : Heap) (i : ℕ)
      → HoldsAll heads h
      → (head_at heads i == 0) ≡ false
      → filled (css i) ≡ true
  head-filled heads h i w e =
      let (ds, chain, same) = w i in same_filled (css i) ds (sym same.size) ∙ head_filled chain e

  pub select-HoldsAll :
      (heads : List ℕ) (h : Heap) (a : ℕ) (n : Node)
      → h a ≡ some n
      → HoldsAll heads h
      → HoldsAll heads (write h a (some (select_node n)))
  select-HoldsAll heads h a n e w i =
      let (ds, chain, same) = w i in
      let (ds', chain', same') = select-IsListOf currez vmode a n e chain in
      (ds', chain', Same-trans currez vmode same same')

  module _ (q : Qsort Cell) (decided : (i : ℕ) → AreDecided (css i)) (memory : ℕ → Bool) (fuel : ℕ)
      (apart : AreDisjoint css) (short : (i : ℕ) → length (css i) < fuel) where
    -- What `sort_depth` leaves for the other lists.
    others_kept :
        (heads : List ℕ) (h g : Heap) (i p : ℕ)
        → HoldsAll heads h
        → (head_at heads i == 0) ≡ false
        → SameOutside (css i) h g
        → IsListOf currez vmode g p (css i)
        → HoldsAll (set heads i p) g
    others_kept heads h g i p w ne same new j = elim (Bool-cases (j == i)) [
      | inl e ↦
          let here : j ≡ i = ground arith in
          rw here (rw (head-set_self heads i p (ground arith)) new)
      | inr e ↦
          let (ds, chain, alike) = w j in
          rw (head-set_ne heads i j p e)
            (ds, frame chain λ a k. same a (apart j i a e (sym (alike.addresses a) ∙ k)), alike)
    ]

    pub sort_depth-HoldsAll :
        (s : Setting) (i : ℕ)
        → HoldsAll s.heads s.heap
        → (head_at s.heads i == 0) ≡ false
        → (p : ℕ) × (g : Heap) × (sort_depth q memory fuel s i
            ≡ ok (record s { heads = set s.heads i p; heap = g }))
          × IsListOf currez vmode g p (css i)
          × SameOutside (css i) s.heap g
          × HoldsAll (set s.heads i p) g
    unfolding sort_depth
    sort_depth-HoldsAll s i w ne =
        let (ds, chain, same) = w i in
        let bound = short i in
        let (p, g, done, (es, new, alike), outside) =
          sort_restab-IsListOf currez vmode q memory fuel chain
            (filled-length ds (head_filled chain ne)) (rw (← same.size) at bound)
            (same.decided (decided i)) in
        let there : SameOutside (css i) s.heap g = λ a o. outside a (same.addresses a ∙ o) in
        let list : IsListOf currez vmode g p (css i) =
          (es, new, Same-trans currez vmode same alike) in
        (p, g, rw done refl, list, there, others_kept s.heads s.heap g i p w ne there list)

    pub best_depth-Best :
        (i : ℕ) (s : Setting)
        → HoldsAll s.heads s.heap
        → (s' : Setting) × (best_depth q memory fuel i s ≡ ok s')
          × Best css i s s'
          × HoldsAll s'.heads s'.heap
    unfolding best_depth
    best_depth-Best zero s w = (s, refl, no_depth (λ j l. absurd (omega arith)) refl, w)
    best_depth-Best (suc i) s w = elim (Bool-cases (head_at s.heads i == 0)) [
      | inl e ↦
          let (s', done, best, w') = best_depth-Best i s w in
          (s', rw e done, Best-suc css i s s' (null-empty s.heads s.heap i w e) best, w')
      | inr e ↦
          let (p, g, done, list, outside, w') = sort_depth-HoldsAll s i w e in
          let s' : Setting = record s {
            heads = set s.heads i p;
            heap = g;
            res_tab = head_at (set s.heads i p) i;
            bpp_index = i;
          } in
          (
            s',
            rw (e, done) refl,
            depth (omega arith) (head-filled s.heads s.heap i w e) (λ j l l'. absurd (omega arith))
                refl refl,
            w',
          )
    ]
