-- ===== src/Tests/Resize.antt =====
-- Runs of the info dialog on a list of two modes.
use chgres.Base.{ℕ, ◌≡◌, refl, true, none, some, List, [], ◌∷◌, ◌==◌, if◌then◌else◌}
use chgres.Base.Exec.{Exec, ok, ◌>>=◌}
use chgres.Base.Int.{◌*ℤ◌}
use chgres.CLib.{codes, atoi}
use chgres.Mode.{new_mode, cmp_res}
use chgres.Mode.Insertion.{by_insertion, insertion_sort}
use chgres.Nodes.{cmp_cell, set_next, count_res, Heap, Cell, node, write, table_of, sort_restab}
use chgres.Nodes.Chain.{Chain}
use chgres.Dialog.Resize.{show_info}
use chgres.Tests.Disk.{saga_mode, st_mode}

-- 640 x 480 in front of 640 x 400.
abbrev heap : Heap
heap p =
    if p == 7 then some (node saga_mode 3) else (if p == 3 then some (node st_mode 0) else none)

abbrev cells : List Cell
cells = (7, saga_mode) ∷ (3, st_mode) ∷ []

-- The number of modes behind the old head.
abbrev behind_old_head : ℕ × Heap → Exec ℕ
behind_old_head result = count_res 3 result.1 7

-- The mode at 3 comes first then; the old head leads to one mode only.
old_head :
    (show_info by_insertion (λ count. true) 3 (codes "virtual") heap 7 3 (codes "800") (codes "608")
      >>= behind_old_head)
    ≡ ok 1
unfolding show_info sort_restab insertion_sort count_res new_mode write table_of cmp_cell cmp_res
    ◌*ℤ◌ atoi set_next
old_head = refl
