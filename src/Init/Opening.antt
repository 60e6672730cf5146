-- ===== src/Init/Opening.antt =====
-- What `select_res` finds behind `init_res`: the lists behind the heads, and the mode at `cur_res`.
use chgres.Base.{ℕ, zero, suc, Option, none, some, List, [], ◌∷◌, ◌==◌, if◌then◌else◌}
use chgres.Base.Exec.{Exec, ok, timeout, ◌>>=◌}
use chgres.Mode.{Res, Modes}
use chgres.Nodes.{Heap, load}
use chgres.Init.{Setting, head_at}

-- The modes behind a pointer.
unfoldable pub read_list : ℕ → Heap → ℕ → Exec (List Res)
read_list zero h p = timeout
read_list (suc fuel) h p =
    let rest = load h p >>= λ n. read_list fuel h n.next >>= λ rs. ok (n.res ∷ rs) in
    if p == 0 then ok [] else rest

-- `possible_resolutions` from the index `i` on.
unfoldable pub read_table : ℕ → ℕ → ℕ → Setting → Exec Modes
unfolding read_list
read_table fuel zero i s = ok []
read_table fuel (suc n) i s = read_list fuel s.heap (head_at s.heads i) >>= λ rs.
    read_table fuel n (suc i) s >>= λ t. ok (rs ∷ t)

-- `*cur_res`, if there is any.
unfoldable pub read_current : Setting → Exec (Option Res)
read_current s =
    if s.cur_res == 0 then ok none else (load s.heap s.cur_res >>= λ n. ok (some n.res))
