-- ===== src/Init.antt =====
-- `init_res` of chgres.c: the table of modes of the hardware found, and the depth and the mode that the
-- dialog shows first. A head of 0 stands for a list that is NULL.
pub mod Lists
pub mod Depths
pub mod Chosen
pub mod Detect
pub mod Start
pub mod Opening
use chgres.Base.{
  ℕ, zero, suc, ◌+◌, ◌-◌, ◌*◌, ◌/◌, ◌%◌, ◌^◌, ◌≤◌, ◌<◌, min, ◌≡◌, refl, sym, ap, ◌∙◌, ◌≢◌, ◌↔◌, ◌⊎◌,
  inl, inr, Bool, true, false, not, ◌&&◌, ◌||◌, Option, none, some, List, [], ◌∷◌, ◌++◌, map, arith,
  ltb, leb, ◌==◌, if◌then◌else◌, ltb→lt, lt→ltb, leb→le, ==_iff, Bool-cases, Option-cases, Bytes,
  length, get_elem?, set, get_or, take, drop, replicate, length-append, length-set,
  get_elem?-set_self, get_elem?-set_ne, take-append-drop, length-take, length-drop,
  length-replicate, length-map, tests,
}
use chgres.Base.Int.{ℤ, pos, negsuc}
use chgres.Base.Exec.{Exec, ok, fault, timeout, ◌>>=◌}
use chgres.Mode.{Res, Modes, eq_ℤ, max_depths}
use chgres.Mode.Sort.{Qsort}
use chgres.Nodes.{Node, Heap, Cell, load, write, sort_restab}

-- `possible_resolutions` with its nodes, and the globals that `init_res` sets.
pub record Setting : Type 0 where
  pub heads : List ℕ
  pub heap : Heap
  pub res_tab : ℕ
  pub cur_res : ℕ
  pub bpp_index : ℕ

abbrev pub head_at : List ℕ → ℕ → ℕ
head_at heads i = get_or heads i 0

-- `res->base.selected = TRUE`
abbrev pub select : Res → Res
select r = record r { base = record r.base { selected = true } }

abbrev pub select_node : Node → Node
select_node n = record n { res = select n.res }

-- `res->base.rez == currez && res->base.vmode == vmode`
abbrev pub is_current : ℤ → ℤ → Res → Bool
is_current currez vmode r = eq_ℤ r.rez currez && eq_ℤ r.vmode vmode

-- The `while` loop: the mode at `p` or behind it that is the current one is selected.
unfoldable pub find_current : ℕ → ℤ → ℤ → ℕ → Setting → ℕ → Exec Setting
find_current zero currez vmode i s p = timeout
find_current (suc fuel) currez vmode i s p =
    let rest = load s.heap p >>= λ n.
    (let more = find_current fuel currez vmode i s n.next in
      if is_current currez vmode n.res
      then ok (record s {
        heap = write s.heap p (some (select_node n));
        cur_res = p;
        bpp_index = i;
        res_tab = head_at s.heads i;
      })
      else more) in
    if p == 0 then ok s else rest

module _ (q : Qsort Cell) (memory : ℕ → Bool) (fuel : ℕ) where
  -- `possible_resolutions[i] = sort_restab(possible_resolutions[i])`
  unfoldable pub sort_depth : Setting → ℕ → Exec Setting
  unfolding sort_restab
  sort_depth s i = sort_restab q memory fuel s.heap (head_at s.heads i) >>= λ (p, h).
      ok (record s { heads = set s.heads i p; heap = h })

  -- The loop from `i - 1` down to 0.
  unfoldable pub best_depth : ℕ → Setting → Exec Setting
  unfolding sort_depth
  best_depth zero s = ok s
  best_depth (suc i) s =
      let rest = best_depth i s in
      let taken =
        sort_depth s i >>= λ s'. ok (record s' { res_tab = head_at s'.heads i; bpp_index = i }) in
      if head_at s.heads i == 0 then rest else taken

  -- The loop from `i` on, with `n` rounds left.
  unfoldable pub select_current : ℕ → ℕ → ℤ → ℤ → Setting → Exec Setting
  unfolding sort_depth find_current
  select_current zero i currez vmode s = ok s
  select_current (suc n) i currez vmode s =
      let looked =
        sort_depth s i >>= λ s'. find_current fuel currez vmode i s' (head_at s'.heads i) in
      (if head_at s.heads i == 0 then ok s else looked) >>= select_current n (suc i) currez vmode

  -- What `init_res` does with the table that the routines of res.c leave.
  unfoldable pub choose_mode : ℤ → ℤ → List ℕ → Heap → Exec Setting
  unfolding best_depth select_current
  choose_mode currez vmode heads heap =
      let s0 : Setting = record {
        heads = heads;
        heap = heap;
        res_tab = 0;
        cur_res = 0;
        bpp_index = 0;
      } in
      best_depth max_depths s0 >>= select_current max_depths 0 currez vmode
