-- ===== src/Nodes/Remove.antt =====
-- `remove_modes` and `remove_mode` on the nodes of a list.
use chgres.Base.{
  ℕ, zero, suc, ◌<◌, ◌≡◌, refl, ◌∙◌, ◌≢◌, inl, inr, true, none, some, List, ◌∷◌, arith, ◌==◌,
  if◌then◌else◌, Bool-cases, length,
}
use chgres.Base.Exec.{Exec, ok, fault, timeout, ◌>>=◌}
use chgres.Nodes.{
  Node, Heap, Cell, write, load, set_next, free, remove_modes, unlink_loop, remove_mode,
}
use chgres.Nodes.Chain.{
  Chain, nil, cons, has, SameOutside, load_lem, not_null, write_self, write_ne, frame-write,
}

-- `g` has no node at the addresses of the cells.
abbrev pub AllFreed : List Cell → Heap → Type 0
AllFreed cs g = (a : ℕ) → has a cs ≡ true → g a ≡ none

free_lem : (h : Heap) (p : ℕ) (n : Node) → p ≢ 0 → h p ≡ some n → free h p ≡ ok (write h p none)
unfolding free
free_lem h p n ne e = rw (load_lem h p n ne e) refl

-- The first cell is freed already, if the rest leaves its address alone.
freed_cons :
    (g : Heap) (c : Cell) (cs : List Cell) → g c.0 ≡ none → AllFreed cs g → AllFreed (c ∷ cs) g
freed_cons g c cs e w a i = elim (Bool-cases (a == c.0)) [
  | inl same ↦ let here : a ≡ c.0 = ground arith in rw here e
  | inr other ↦ w a (ground arith)
]

-- On the nodes of a list, with fuel for more rounds than it has modes, `remove_modes` reads no node
-- that it has freed: it ends, every node of the list is gone, and every other node is as it was.
pub remove_modes-AllFreed :
    {h : Heap} {p : ℕ} {cs : List Cell} (fuel : ℕ)
    → Chain h p cs
    → length cs < fuel
    → (g : Heap) × (remove_modes fuel h p ≡ ok g) × AllFreed cs g × SameOutside cs h g
unfolding remove_modes
remove_modes-AllFreed zero s l = absurd (omega arith)
remove_modes-AllFreed {h} (suc fuel) (nil z) l =
    (h, rw z refl, λ a i. absurd (ground arith), λ a o. refl)
remove_modes-AllFreed {h} (suc fuel) (cons {p} {q} {r} {cs} ne e out s) l =
    let h1 = write h p none in
    let (g, done, freed, same) =
      remove_modes-AllFreed {h = h1} fuel (frame-write p none s out) (omega arith) in
    (
      g,
      rw (not_null p ne, load_lem h p _ ne e, free_lem h p _ ne e) done,
      freed_cons g (p, r) cs (same p out ∙ write_self h p none) freed,
      λ a o. same a (ground arith) ∙ write_ne h p a none (ground arith),
    )

-- A run that gives a value.
abbrev pub Returns : {A : Type 0} → Exec A → Type 0
Returns (ok a) = Unit
Returns fault = ⊥
Returns timeout = ⊥

Returns-step :
    {A B : Type 0} (m : Exec A) (f : A → Exec B)
    → Returns (m >>= f)
    → (a : A) × (m ≡ ok a) × Returns (f a)
Returns-step (ok a) f w = (a, refl, w)
Returns-step fault f w = absurd w
Returns-step timeout f w = absurd w

-- The condition of the inner loop does not change: it never ends.
unlink_loop_never :
    (fuel : ℕ) (h : Heap) (r n p : ℕ) → r ≢ 0 → Returns (unlink_loop fuel h r n p) → ⊥
unfolding unlink_loop
unlink_loop_never zero h r n p ne w = w
unlink_loop_never (suc fuel) h r n p ne w =
    let (m, _, w1) = Returns-step (load h p) _ (rw (not_null r ne) at w) in
    let (h', _, w2) = Returns-step (if m.next == r then set_next h p n else ok h) _ w1 in
    let (m', _, w3) = Returns-step (load h' r) _ w2 in unlink_loop_never fuel h' r n m'.next ne w3

loaded_ne : (h : Heap) (r : ℕ) (m : Node) → load h r ≡ ok m → r ≢ 0
unfolding load
loaded_ne h r m e z = let e0 = rw z at e in fault_ne m e0
  where
    fault_ne : (m : Node) → fault ≡ ok m → ⊥
    fault_ne m e = ground arith

-- On a table with at least one depth `remove_mode` does not return, whatever the fuel, the nodes and
-- the mode.
pub remove_mode_never :
    (fuel : ℕ) (h : Heap) (head : ℕ) (heads : List ℕ) (r : ℕ)
    → ¬ Returns (remove_mode fuel h (head ∷ heads) r)
unfolding remove_mode
remove_mode_never fuel h head heads r w =
    let (m, loaded, w1) = Returns-step (load h r) _ w in
    let (h', done, w2) = Returns-step (unlink_loop fuel h r m.next head) _ w1 in
    unlink_loop_never fuel h r m.next head (loaded_ne h r m loaded) (rw done tt)
