-- ===== src/Tests/Lists.antt =====
-- Runs on linked nodes.
use chgres.Base.{
  ℕ, zero, suc, ◌<◌, ◌≡◌, refl, true, false, none, some, List, [], ◌∷◌, arith, ◌==◌, if◌then◌else◌,
  length, replicate,
}
use chgres.Base.Int.{pos}
use chgres.Base.Exec.{ok}
use chgres.Mode
use chgres.Mode.{Res, goes_first, new_mode}
use chgres.Mode.Insertion.{by_insertion}
use chgres.Nodes.{
  remove_mode, Heap, Cell, node, count_res, selected_res_index, find_mode, sort_restab,
  remove_modes,
}
use chgres.Nodes.Chain.{Chain, nil, cons, SameOutside}
use chgres.Nodes.Walk.{contents, Finds, walk-Chain}
use chgres.Nodes.Sort.{AreDecided, Sorted, sort_restab-Sorted}
use chgres.Nodes.Remove.{Returns, remove_mode_never, AllFreed, remove_modes-AllFreed}
use chgres.Mode.{max_depths}
use chgres.Init.{head_at}
use chgres.Init.Lists.{Same-refl}
use chgres.Init.Depths.{AreDisjoint, HoldsAll}
use chgres.Tests.Disk.{saga_mode, st_mode}

-- The mode of the ST in front of the larger one.
abbrev heap : Heap
heap p =
    if p == 3 then some (node st_mode 7) else (if p == 7 then some (node saga_mode 0) else none)

abbrev cells : List Cell
cells = (3, st_mode) ∷ (7, saga_mode) ∷ []

linked : Chain heap 3 cells
linked = cons (omega arith) refl refl (cons (omega arith) refl refl (nil refl))

walk-Chain_example :
    (count_res 3 heap 3 ≡ ok (Mode.count_res (contents cells)))
    × (selected_res_index 3 heap 3 0 ≡ ok (Mode.selected_res_index (contents cells)))
    × ((q : ℕ) × (find_mode 3 heap 3 (pos 640) (pos 480) (pos 16) ≡ ok q)
        × Finds cells (Mode.find_in (contents cells) (pos 640) (pos 480) (pos 16)) q)
walk-Chain_example = walk-Chain 3 (pos 640) (pos 480) (pos 16) linked (omega arith)

cells-AreDecided : AreDecided cells
unfolding goes_first new_mode
cells-AreDecided = ((refl, tt), (tt, tt))

sort_restab-Sorted_example :
    (p' : ℕ) × (g : Heap) × (sort_restab by_insertion (λ count. true) 3 heap 3 ≡ ok (p', g))
    × Sorted heap cells p' g
    × (sort_restab by_insertion (λ count. false) 3 heap 3 ≡ ok (3, heap))
sort_restab-Sorted_example =
    sort_restab-Sorted by_insertion 3 linked (omega arith) (omega arith) cells-AreDecided

remove_modes-AllFreed_example :
    (g : Heap) × (remove_modes 3 heap 3 ≡ ok g) × AllFreed cells g × SameOutside cells heap g
remove_modes-AllFreed_example = remove_modes-AllFreed 3 linked (omega arith)

remove_mode_never_example : ¬ Returns (remove_mode 5 heap (3 ∷ 0 ∷ []) 3)
remove_mode_never_example = remove_mode_never 5 heap 3 (0 ∷ []) 3

-- The list stands in the first depth.
abbrev layout : ℕ → List Cell
layout zero = cells
layout (suc i) = []

abbrev heads : List ℕ
heads = 3 ∷ replicate 7 0

head_at-replicate : (n i : ℕ) → head_at (replicate n 0) i ≡ 0
head_at-replicate zero i = refl
head_at-replicate (suc n) zero = refl
head_at-replicate (suc n) (suc i) = head_at-replicate n i

layout-AreDisjoint : AreDisjoint layout
layout-AreDisjoint zero zero a ne e = absurd (ground arith)
layout-AreDisjoint zero (suc j) a ne e = refl
layout-AreDisjoint (suc i) j a ne e = absurd (ground arith)

layout_short : (i : ℕ) → length (layout i) < 3
layout_short zero = omega arith
layout_short (suc i) = omega arith

layout-HoldsAll : HoldsAll (pos 5) (pos 0x4502) layout heads heap
layout-HoldsAll zero = (cells, linked, Same-refl (pos 5) (pos 0x4502) cells)
layout-HoldsAll (suc i) = ([], nil (head_at-replicate 7 i), Same-refl (pos 5) (pos 0x4502) [])
