-- ===== src/Init/Lists.antt =====
-- What the loops of `init_res` keep of the lists of modes: their nodes and, but for `selected`, what
-- these hold.
use chgres.Base.{
  ℕ, zero, suc, ◌<◌, ◌≡◌, refl, sym, ap, ◌∙◌, inl, inr, Bool, true, false, ◌||◌, some, List, [],
  ◌∷◌, arith, ◌==◌, Bool-cases, length, or_else,
}
use mathlib.Core.List.{Permᴰ}
use mathlib.Core.List.Permᴰ
use chgres.Base.Int.{ℤ, pos}
use chgres.Base.Exec.{Exec, ok}
use chgres.Mode
use chgres.Mode.{Res, goes_first}
use chgres.Mode.Sort.{Qsort}
use chgres.Nodes.{Node, node, Heap, Cell, write, sort_restab}
use chgres.Nodes.Chain.{
  Chain, nil, cons, has, SameOutside, load_lem, not_null, write_self, write_ne,
}
use chgres.Nodes.Walk.{contents, walk-Chain}
use chgres.Nodes.Cells.{or_swap, has-Permᴰ, length-Permᴰ}
use chgres.Nodes.Sort.{sort_restab_relinked, AllDecided, AreDecided, sort-Permᴰ}
use chgres.Nodes.Decided.{
  AllDecided-Permᴰ, AreDecided-Permᴰ, Alike, Alike-AllDecided, Alike-IsDecided,
}
use chgres.Nodes.{cmp_cell}
use chgres.Init.{Setting, head_at, select, select_node, is_current, find_current}

select_here :
    (h : Heap) (a p q : ℕ) (n : Node) (r : Res)
    → h a ≡ some n
    → h p ≡ some (node r q)
    → p ≡ a
    → write h a (some (select_node n)) p ≡ some (node (select r) q)
select_here h a p q n r e at same =
    let e' : h p ≡ some n = rw same e in
    let held : n ≡ node r q = ap (λ o. or_else o n) (sym e' ∙ at) in
    rw same (write_self h a (some (select_node n)) ∙ ap (λ (m : Node). some (select_node m)) held)

select-Alike : (r : Res) → Alike r (select r)
unfolding goes_first
select-Alike r x = (refl, refl)

abbrev pub filled : List Cell → Bool
filled [] = false
filled (c ∷ cs) = true

module _ (currez vmode : ℤ) where
  -- Whether a mode of the list is the current one.
  abbrev pub has_current : List Cell → Bool
  has_current [] = false
  has_current (c ∷ cs) = is_current currez vmode c.1 || has_current cs

  -- The same nodes, with the same answer to what `init_res` looks for.
  pub record Same (cs ds : List Cell) : Type 0 where
    pub addresses : (a : ℕ) → has a ds ≡ has a cs
    pub current : has_current ds ≡ has_current cs
    pub size : length ds ≡ length cs
    pub all_decided : (x : Res) → AllDecided x cs → AllDecided x ds
    pub decided : AreDecided cs → AreDecided ds

  pub Same-refl : (cs : List Cell) → Same cs cs
  Same-refl cs = record {
    addresses = λ a. refl;
    current = refl;
    size = refl;
    all_decided = λ x w. w;
    decided = λ w. w;
  }

  pub Same-trans : {bs cs ds : List Cell} → Same bs cs → Same cs ds → Same bs ds
  Same-trans s t = record {
    addresses = λ a. t.addresses a ∙ s.addresses a;
    current = t.current ∙ s.current;
    size = t.size ∙ s.size;
    all_decided = λ x w. t.all_decided x (s.all_decided x w);
    decided = λ w. t.decided (s.decided w);
  }

  current-Permᴰ : {cs ds : List Cell} → Permᴰ ds cs → has_current ds ≡ has_current cs
  current-Permᴰ Permᴰ.nil = refl
  current-Permᴰ (Permᴰ.cons e d) = rw (e, current-Permᴰ d) refl
  current-Permᴰ (Permᴰ.swap {a'} {b'} {l} e f) =
      rw (e, f)
        (or_swap (is_current currez vmode b'.1) (is_current currez vmode a'.1) (has_current l))
  current-Permᴰ (Permᴰ.trans d e) = current-Permᴰ d ∙ current-Permᴰ e

  pub Same-Permᴰ : {cs ds : List Cell} → Permᴰ ds cs → Same cs ds
  Same-Permᴰ p = record {
    addresses = λ a. has-Permᴰ a p;
    current = current-Permᴰ p;
    size = length-Permᴰ p;
    all_decided = λ x. AllDecided-Permᴰ x (Permᴰ.symm p);
    decided = AreDecided-Permᴰ (Permᴰ.symm p);
  }

  -- The same cell with a mode that is as current as before, in front of the same nodes.
  Same-cons :
      (a : ℕ) (r r' : Res) {cs ds : List Cell}
      → is_current currez vmode r' ≡ is_current currez vmode r
      → Alike r r'
      → Same cs ds
      → Same ((a, r) ∷ cs) ((a, r') ∷ ds)
  Same-cons a r r' e alike s = record {
    addresses = λ b. rw (s.addresses b) refl;
    current = rw (e, s.current) refl;
    size = ap suc s.size;
    all_decided = λ x w. (Alike-IsDecided x r r' alike w.0, s.all_decided x w.1);
    decided = λ w. (Alike-AllDecided r r' _ alike (s.all_decided r w.0), s.decided w.1);
  }

  -- A list of the nodes of `cs`.
  abbrev pub IsListOf : Heap → ℕ → List Cell → Type 0
  IsListOf h p cs = (ds : List Cell) × Chain h p ds × Same cs ds

  -- `selected` is set in a node, of this list or of another.
  pub select-IsListOf :
      {h : Heap} {p : ℕ} {cs : List Cell} (a : ℕ) (n : Node)
      → h a ≡ some n
      → Chain h p cs
      → IsListOf (write h a (some (select_node n))) p cs
  select-IsListOf a n e (nil z) = ([], nil z, Same-refl [])
  select-IsListOf {h} a n e (cons {p} {q} {r} {cs} ne at out s) =
      let (ds, chain, same) = select-IsListOf a n e s in
      elim (Bool-cases (p == a)) [
        | inl here ↦
            let there : p ≡ a = ground arith in
            (
              (p, select r) ∷ ds,
              cons ne (select_here h a p q n r e at there) (same.addresses p ∙ out) chain,
              Same-cons p r (select r) refl (select-Alike r) same,
            )
        | inr other ↦ (
          (p, r) ∷ ds,
          cons ne (write_ne h a p (some (select_node n)) other ∙ at) (same.addresses p ∙ out) chain,
          Same-cons p r r refl (λ x. (refl, refl)) same,
        )
      ]

  module _ (q : Qsort Cell) (memory : ℕ → Bool) where
    -- `sort_restab`, with memory for the table or without.
    pub sort_restab-IsListOf :
        {h : Heap} {p : ℕ} {cs : List Cell} (fuel : ℕ)
        → Chain h p cs
        → 0 < length cs
        → length cs < fuel
        → AreDecided cs
        → (p' : ℕ) × (g : Heap) × (sort_restab q memory fuel h p ≡ ok (p', g))
          × IsListOf g p' cs
          × SameOutside cs h g
    unfolding sort_restab
    sort_restab-IsListOf {h} {p} {cs} fuel chain n l decided =
        let counted = (walk-Chain fuel (pos 0) (pos 0) (pos 0) chain l).0 in
        let (p', g, done, chain', outside, without) =
          sort_restab_relinked q fuel chain n l (sort-Permᴰ q cs decided) in
        elim (Bool-cases (memory (Mode.count_res (contents cs)))) [
          | inl hit ↦ (
            p',
            g,
            rw (counted, hit) (rw counted at done),
            (q.sort cmp_cell cs, chain', Same-Permᴰ (sort-Permᴰ q cs decided)),
            outside,
          )
          | inr miss ↦ (p, h, rw (counted, miss) refl, (cs, chain, Same-refl cs), λ a o. refl)
        ]

  -- What the search of a list does: it selects the first mode that is the current one, if there is any.
  pub data Looked (s : Setting) (i : ℕ) (cs : List Cell) (r : Exec Setting) : Type 0 where
    none_there : has_current cs ≡ false → r ≡ ok s → Looked s i cs r
    selected_at :
        (a : ℕ) (n : Node)
        → has_current cs ≡ true
        → has a cs ≡ true
        → s.heap a ≡ some n
        → is_current currez vmode n.res ≡ true
        → r
          ≡ ok (record s {
            heap = write s.heap a (some (select_node n));
            cur_res = a;
            bpp_index = i;
            res_tab = head_at s.heads i;
          })
        → Looked s i cs r

  search_on :
      (s : Setting) (i : ℕ) (c : Cell) (cs : List Cell) (r : Exec Setting)
      → is_current currez vmode c.1 ≡ false
      → Looked s i cs r
      → Looked s i (c ∷ cs) r
  search_on s i c cs r miss (none_there e d) = none_there (rw miss e) d
  search_on s i c cs r miss (selected_at a n e i' at is d) =
      selected_at a n (rw miss e) (ground arith) at is d

  pub find_current-Looked :
      (s : Setting) (i fuel : ℕ) {p : ℕ} {cs : List Cell}
      → Chain s.heap p cs
      → length cs < fuel
      → Looked s i cs (find_current fuel currez vmode i s p)
  unfolding find_current
  find_current-Looked s i zero c l = absurd (omega arith)
  find_current-Looked s i (suc fuel) (nil z) l = none_there refl (rw z refl)
  find_current-Looked s i (suc fuel) (cons {p} {q} {r} {cs} ne at out c) l =
      let later = find_current-Looked s i fuel c (omega arith) in
      elim (Bool-cases (is_current currez vmode r)) [
        | inl hit ↦
            selected_at p (node r q) (rw hit refl) (ground arith) at hit
              (rw (not_null p ne, load_lem s.heap p _ ne at, hit) refl)
        | inr miss ↦
            rw (not_null p ne, load_lem s.heap p _ ne at, miss)
              (search_on s i (p, r) cs (find_current fuel currez vmode i s q) miss later)
      ]
