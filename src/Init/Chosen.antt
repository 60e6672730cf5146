-- ===== src/Init/Chosen.antt =====
-- The depth and the mode that `init_res` chooses.
use chgres.Base.{
  ℕ, zero, suc, ◌+◌, ◌<◌, ◌≡◌, refl, sym, ◌∙◌, inl, inr, Bool, true, false, some, List, [], ◌∷◌,
  arith, ◌==◌, Bool-cases, length, set,
}
use chgres.Base.Int.{ℤ}
use chgres.Base.Exec.{Exec, ok, ◌>>=◌}
use chgres.Mode.{max_depths}
use chgres.Mode.Sort.{Qsort}
use chgres.Nodes.{Node, Heap, Cell, write}
use chgres.Nodes.Chain.{has, SameOutside, write_self}
use chgres.Nodes.Sort.{AreDecided}
use chgres.Init.{
  Setting, head_at, select_node, is_current, find_current, sort_depth, select_current, choose_mode,
}
use chgres.Init.Lists.{
  Same, filled, has_current, Looked, none_there, selected_at, find_current-Looked,
}
use chgres.Init.Depths.{
  AreDisjoint, HoldsAll, head-set_ne, null-empty, select-HoldsAll, sort_depth-HoldsAll,
  best_depth-Best, Best,
}

empty-current :
    (currez vmode : ℤ) (cs : List Cell) → filled cs ≡ false → has_current currez vmode cs ≡ false
empty-current currez vmode [] e = refl
empty-current currez vmode (c ∷ cs) e = absurd (ground arith)

module _ (currez vmode : ℤ) (css : ℕ → List Cell) where
  -- From the setting `s0`, behind a search of the depths below `i`: either none of them has the current
  -- mode, and the choice is as it was, or the last of them that has it is shown, and `cur_res` is a
  -- node of its list with the current mode, which is selected.
  pub data Chosen (s0 : Setting) (i : ℕ) (s : Setting) : Type 0 where
    as_before :
        ((j : ℕ) → j < i → has_current currez vmode (css j) ≡ false)
        → s.bpp_index ≡ s0.bpp_index
        → s.cur_res ≡ s0.cur_res
        → s.res_tab ≡ s0.res_tab
        → Chosen s0 i s
    current :
        (n : Node)
        → s.bpp_index < i
        → has_current currez vmode (css s.bpp_index) ≡ true
        → ((j : ℕ) → s.bpp_index < j → j < i → has_current currez vmode (css j) ≡ false)
        → has s.cur_res (css s.bpp_index) ≡ true
        → s.heap s.cur_res ≡ some n
        → is_current currez vmode n.res ≡ true
        → n.res.selected ≡ true
        → s.res_tab ≡ head_at s.heads s.bpp_index
        → Chosen s0 i s

  Chosen-suc :
      (s0 : Setting) (i : ℕ) (s : Setting)
      → has_current currez vmode (css i) ≡ false
      → Chosen s0 i s
      → Chosen s0 (suc i) s
  Chosen-suc s0 i s e (as_before none_below b c d) =
      as_before
        (λ j l. elim (Bool-cases (j == i)) [
          | inl here ↦ let there : j ≡ i = ground arith in rw there e
          | inr other ↦ none_below j (ground arith)
        ])
        b c d
  Chosen-suc s0 i s e (current n below has_it none_above inside held is sel tab) =
      current n (omega arith) has_it
        (λ j l l'. elim (Bool-cases (j == i)) [
          | inl here ↦ let there : j ≡ i = ground arith in rw there e
          | inr other ↦ none_above j l (ground arith)
        ])
        inside held is sel tab

  -- What the search of the list at `i` does to the choice.
  Looked-Chosen :
      (s0 : Setting) (i : ℕ) (s : Setting) {ds : List Cell} {r : Exec Setting}
      → HoldsAll currez vmode css s.heads s.heap
      → Same currez vmode (css i) ds
      → Chosen s0 i s
      → Looked currez vmode s i ds r
      → (s' : Setting) × (r ≡ ok s')
        × Chosen s0 (suc i) s'
        × HoldsAll currez vmode css s'.heads s'.heap
  Looked-Chosen s0 i s w same c (none_there e d) =
      (s, d, Chosen-suc s0 i s (sym same.current ∙ e) c, w)
  Looked-Chosen s0 i s w same c (selected_at a n e inside held is d) =
      let s' : Setting = record s {
        heap = write s.heap a (some (select_node n));
        cur_res = a;
        bpp_index = i;
        res_tab = head_at s.heads i;
      } in
      (
        s',
        d,
        current (select_node n) (omega arith) (sym same.current ∙ e)
            (λ j l l'. absurd (omega arith)) (sym (same.addresses a) ∙ inside)
            (write_self s.heap a (some (select_node n))) is refl refl,
        select-HoldsAll currez vmode css s.heads s.heap a n held w,
      )

  module _ (q : Qsort Cell) (decided : (i : ℕ) → AreDecided (css i)) (memory : ℕ → Bool) (fuel : ℕ)
      (apart : AreDisjoint css) (short : (i : ℕ) → length (css i) < fuel) where
    -- The list at `i` is sorted again: what was chosen below stays.
    Chosen-sort :
        (s0 : Setting) (i p : ℕ) (g : Heap) (s : Setting)
        → SameOutside (css i) s.heap g
        → Chosen s0 i s
        → Chosen s0 i (record s { heads = set s.heads i p; heap = g })
    Chosen-sort s0 i p g s outside (as_before none_below b c d) = as_before none_below b c d
    Chosen-sort s0 i p g s outside (current n below has_it none_above inside held is sel tab) =
        let other : (s.bpp_index == i) ≡ false = ground arith in
        current n below has_it none_above inside
          (outside s.cur_res (apart s.bpp_index i s.cur_res other inside) ∙ held) is sel
          (tab ∙ sym (head-set_ne s.heads i s.bpp_index p other))

    -- One round: the depth `i`, whose list is not NULL.
    round :
        (s0 : Setting) (i : ℕ) (s : Setting)
        → HoldsAll currez vmode css s.heads s.heap
        → (head_at s.heads i == 0) ≡ false
        → Chosen s0 i s
        → (s' : Setting) × ((sort_depth q memory fuel s i >>= λ s1.
              find_current fuel currez vmode i s1 (head_at s1.heads i))
            ≡ ok s')
          × Chosen s0 (suc i) s'
          × HoldsAll currez vmode css s'.heads s'.heap
    round s0 i s w ne c =
        let (p, g, done, list, outside, w1) =
          sort_depth-HoldsAll currez vmode css q decided memory fuel apart short s i w ne in
        let s1 : Setting = record s { heads = set s.heads i p; heap = g } in
        let (ds, chain, same) = w1 i in
        let bound = short i in
        let looked = find_current-Looked currez vmode s1 i fuel chain (rw (← same.size) at bound) in
        let (s', found, chosen, w') =
          Looked-Chosen s0 i s1 w1 same (Chosen-sort s0 i p g s outside c) looked in
        (s', rw done found, chosen, w')

    select_current-Chosen :
        (s0 : Setting) (n i : ℕ) (s : Setting)
        → HoldsAll currez vmode css s.heads s.heap
        → Chosen s0 i s
        → (s' : Setting) × (select_current q memory fuel n i currez vmode s ≡ ok s')
          × Chosen s0 (i + n) s'
          × HoldsAll currez vmode css s'.heads s'.heap
    unfolding select_current
    select_current-Chosen s0 zero i s w c =
        let end : i + 0 ≡ i = omega arith in (s, refl, rw end c, w)
    select_current-Chosen s0 (suc n) i s w c =
        let end : i + suc n ≡ suc i + n = omega arith in
        elim (Bool-cases (head_at s.heads i == 0)) [
          | inl e ↦
              let empty =
                empty-current currez vmode (css i)
                  (null-empty currez vmode css s.heads s.heap i w e) in
              let (s', done, chosen, w') =
                select_current-Chosen s0 n (suc i) s w (Chosen-suc s0 i s empty c) in
              (s', rw e done, rw end chosen, w')
          | inr e ↦
              let (s1, one, c1, w1) = round s0 i s w e c in
              let (s', done, chosen, w') = select_current-Chosen s0 n (suc i) s1 w1 c1 in
              (s', rw (e, one) done, rw end chosen, w')
        ]

    -- On lists of modes with nodes of their own, with fuel for more rounds than the longest has modes,
    -- and where for any two modes of a list `cmp_res` puts one in front of the other, the two loops of `init_res` end without a bad read, with memory for the tables or without,
    -- and the heads still lead through the same nodes. If a list has the current mode, the last depth
    -- with such a list is shown, a node of it with the current mode is `cur_res` and is selected; or else no mode is
    -- chosen, and the highest depth with modes is shown, or the first depth if none has modes.
    pub choose_mode-Chosen :
        (heads : List ℕ) (h : Heap)
        → HoldsAll currez vmode css heads h
        → (s0 s : Setting) × (choose_mode q memory fuel currez vmode heads h ≡ ok s)
          × Best css max_depths
              (record { heads = heads; heap = h; res_tab = 0; cur_res = 0; bpp_index = 0 })
              s0
          × Chosen s0 max_depths s
          × HoldsAll currez vmode css s.heads s.heap
    unfolding choose_mode
    choose_mode-Chosen heads h w =
        let first : Setting = record {
          heads = heads;
          heap = h;
          res_tab = 0;
          cur_res = 0;
          bpp_index = 0;
        } in
        let (s0, done0, best, w0) =
          best_depth-Best currez vmode css q decided memory fuel apart short max_depths first w in
        let (s, done, chosen, w') =
          select_current-Chosen s0 max_depths 0 s0 w0
            (as_before (λ j l. absurd (omega arith)) refl refl refl) in
        (s0, s, rw (done0, done) refl, best, chosen, w')
