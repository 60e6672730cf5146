-- ===== src/Nodes.antt =====
-- The linked lists of chgres.c: the nodes behind the `next` pointers of `possible_resolutions`, and the
-- functions that walk and change them. A pointer is an address, 0 for NULL; a read through NULL or of an
-- address without a node is a fault. The loops run on fuel.
pub mod Chain
pub mod Walk
pub mod Cells
pub mod Sort
pub mod Decided
pub mod Remove
use chgres.Base.{
  ℕ, zero, suc, ◌+◌, ◌-◌, ◌*◌, ◌/◌, ◌%◌, ◌^◌, ◌≤◌, ◌<◌, min, ◌≡◌, refl, sym, ap, ◌∙◌, ◌≢◌, ◌↔◌, ◌⊎◌,
  inl, inr, Bool, true, false, not, ◌&&◌, ◌||◌, Option, none, some, List, [], ◌∷◌, ◌++◌, map, arith,
  ltb, leb, ◌==◌, if◌then◌else◌, ltb→lt, lt→ltb, leb→le, ==_iff, Bool-cases, Option-cases, Bytes,
  length, get_elem?, set, get_or, take, drop, replicate, length-append, length-set,
  get_elem?-set_self, get_elem?-set_ne, take-append-drop, length-take, length-drop,
  length-replicate, length-map, tests,
}
use chgres.Base.Int.{ℤ, pos, negsuc}
use chgres.Base.Exec.{Exec, ok, fault, timeout, ◌>>=◌}
use chgres.Mode.{Res, eq_ℤ, cmp_res}
use chgres.Mode.Sort.{Qsort}

-- `struct res` with its `next`.
pub record Node : Type 0 where
  pub res : Res
  pub next : ℕ

abbrev pub node : Res → ℕ → Node
node r q = record { res = r; next = q }

abbrev pub Heap : Type 0
Heap = ℕ → Option Node

unfoldable pub write : Heap → ℕ → Option Node → Heap
write h p c a = if a == p then c else h a

abbrev pub held : Option Node → Exec Node
held none = fault
held (some n) = ok n

unfoldable pub load : Heap → ℕ → Exec Node
load h p = if p == 0 then fault else held (h p)

-- `p->base.next = q`
unfoldable pub set_next : Heap → ℕ → ℕ → Exec Heap
unfolding load
set_next h p q = load h p >>= λ n. ok (write h p (some (record n { next = q })))

unfoldable pub free : Heap → ℕ → Exec Heap
unfolding load
free h p = load h p >>= λ n. ok (write h p none)

-- A node by its address, and what it holds: what an entry of `table` points to.
abbrev pub Cell : Type 0
Cell = ℕ × Res

-- `count_res`
unfoldable pub count_res : ℕ → Heap → ℕ → Exec ℕ
count_res zero h p = timeout
count_res (suc fuel) h p =
    let rest = load h p >>= λ n. count_res fuel h n.next >>= λ k. ok (suc k) in
    if p == 0 then ok 0 else rest

-- `selected_res_index`, with the nodes passed so far.
unfoldable pub selected_res_index : ℕ → Heap → ℕ → ℕ → Exec ℤ
selected_res_index zero h p idx = timeout
selected_res_index (suc fuel) h p idx =
    let rest = load h p >>= λ n.
    (let more = selected_res_index fuel h n.next (suc idx) in
      if n.res.selected then ok (pos idx) else more) in
    if p == 0 then ok (negsuc 0) else rest

-- `find_mode`, from the node at `p` on; 0 if there is none.
unfoldable pub find_mode : ℕ → Heap → ℕ → ℤ → ℤ → ℤ → Exec ℕ
find_mode zero h p width height planes = timeout
find_mode (suc fuel) h p width height planes =
    let rest = load h p >>= λ n.
    (let more = find_mode fuel h n.next width height planes in
      if eq_ℤ n.res.virt_hres width && (eq_ℤ n.res.virt_vres height && eq_ℤ n.res.planes planes)
      then ok p
      else more) in
    if p == 0 then ok 0 else rest

-- `add_mode`: the new head of the list, which is the node at `p`.
unfoldable pub add_mode : Heap → ℕ → ℕ → Exec (ℕ × Heap)
unfolding set_next
add_mode h head p = set_next h p head >>= λ h'. ok (p, h')

-- `remove_modes`: what is left of the list is NULL.
unfoldable pub remove_modes : ℕ → Heap → ℕ → Exec Heap
remove_modes zero h p = timeout
remove_modes (suc fuel) h p =
    let rest = load h p >>= λ n. free h p >>= λ h'. remove_modes fuel h' n.next in
    if p == 0 then ok h else rest

-- The loop that fills `table`.
unfoldable pub table_of : ℕ → Heap → ℕ → Exec (List Cell)
table_of zero h p = timeout
table_of (suc fuel) h p =
    let rest = load h p >>= λ n. table_of fuel h n.next >>= λ cs. ok ((p, n.res) ∷ cs) in
    if p == 0 then ok [] else rest

-- The loop that links the entries in their order, and the NULL behind the last.
unfoldable pub relink : Heap → List Cell → Exec Heap
relink h [] = ok h
relink h (a ∷ []) = set_next h a.0 0
relink h (a ∷ b ∷ cs) = set_next h a.0 b.0 >>= λ h'. relink h' (b ∷ cs)

-- `cmp_res` of two entries of `table`.
unfoldable pub cmp_cell : Cell → Cell → ℤ
cmp_cell a b = cmp_res a.1 b.1

-- The head of the list, which is `table[0]`: outside the table if that is empty.
abbrev pub linked : Heap → List Cell → Exec (ℕ × Heap)
linked h [] = fault
linked h (c ∷ cs) = relink h (c ∷ cs) >>= λ h'. ok (c.0, h')

-- `sort_restab`; `memory` says whether there is a table for so many entries.
unfoldable pub sort_restab : Qsort Cell → (ℕ → Bool) → ℕ → Heap → ℕ → Exec (ℕ × Heap)
unfolding relink
sort_restab q memory fuel h p = count_res fuel h p >>= λ count.
    let sorted = table_of fuel h p >>= λ table. linked h (q.sort cmp_cell table) in
    if memory count then sorted else ok (p, h)

-- `remove_mode`: the inner loop, with `r`, `n` and `p` as in the code.
unfoldable pub unlink_loop : ℕ → Heap → ℕ → ℕ → ℕ → Exec Heap
unlink_loop zero h r n p = timeout
unlink_loop (suc fuel) h r n p =
    let rest = load h p >>= λ m. (if m.next == r then set_next h p n else ok h) >>= λ h'.
    load h' r >>= λ m'. unlink_loop fuel h' r n m'.next in
    if r == 0 then ok h else rest

-- The outer loop over the heads of the lists, and the whole.
unfoldable pub remove_from : ℕ → Heap → List ℕ → ℕ → ℕ → Exec (List ℕ × Heap)
unfolding unlink_loop free
remove_from fuel h [] r n = ok ([], h)
remove_from fuel h (head ∷ heads) r n = unlink_loop fuel h r n head >>= λ h'. free h' r >>= λ h''.
    remove_from fuel h'' heads r n >>= λ (rest, h3). ok ((if head == r then n else head) ∷ rest, h3)

unfoldable pub remove_mode : ℕ → Heap → List ℕ → ℕ → Exec (List ℕ × Heap)
unfolding remove_from load
remove_mode fuel h heads r = load h r >>= λ m. remove_from fuel h heads r m.next
