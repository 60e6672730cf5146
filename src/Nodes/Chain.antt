-- ===== src/Nodes/Chain.antt =====
-- What the nodes behind a pointer stand for: the cells of a list, in order and each at its own address.
use chgres.Base.{
  ℕ, ◌≡◌, refl, ◌∙◌, ◌≢◌, Bool, true, false, ◌||◌, Option, some, List, [], ◌∷◌, arith, ◌==◌,
}
use chgres.Base.Exec.{ok}
use chgres.Mode.{Res}
use chgres.Nodes.{Node, node, Heap, Cell, write, load, set_next}

abbrev pub has : ℕ → List Cell → Bool
has a [] = false
has a (c ∷ cs) = (a == c.0) || has a cs

-- From `p` the `next` pointers lead through the cells to NULL.
pub data Chain (h : Heap) : ℕ → List Cell → Type 0 where
  nil : {p : ℕ} → p ≡ 0 → Chain h p []
  cons :
      {p q : ℕ} {r : Res} {cs : List Cell}
      → p ≢ 0
      → h p ≡ some (node r q)
      → has p cs ≡ false
      → Chain h q cs
      → Chain h p ((p, r) ∷ cs)

-- `g` differs from `h` at most at the addresses of the cells.
abbrev pub SameOutside : List Cell → Heap → Heap → Type 0
SameOutside cs h g = (a : ℕ) → has a cs ≡ false → g a ≡ h a

pub load_lem : (h : Heap) (p : ℕ) (n : Node) → p ≢ 0 → h p ≡ some n → load h p ≡ ok n
unfolding load
load_lem h p n ne e = rw e (ground arith)

pub not_null : (p : ℕ) → p ≢ 0 → (p == 0) ≡ false
not_null p ne = ground arith

pub set_next_lem :
    (h : Heap) (p q : ℕ) (n : Node)
    → p ≢ 0
    → h p ≡ some n
    → set_next h p q ≡ ok (write h p (some (record n { next = q })))
unfolding set_next
set_next_lem h p q n ne e = rw (load_lem h p n ne e) refl

pub write_self : (h : Heap) (p : ℕ) (c : Option Node) → write h p c p ≡ c
unfolding write
write_self h p c = ground arith

pub write_ne : (h : Heap) (p a : ℕ) (c : Option Node) → (a == p) ≡ false → write h p c a ≡ h a
unfolding write
write_ne h p a c e = rw e refl

-- A list survives any change that spares its own addresses.
pub frame :
    {h g : Heap} {p : ℕ} {cs : List Cell}
    → Chain h p cs
    → ((a : ℕ) → has a cs ≡ true → g a ≡ h a)
    → Chain g p cs
frame (nil z) same = nil z
frame (cons {p} ne e out s) same =
    cons ne (same p (ground arith) ∙ e) out (frame s λ a i. same a (ground arith))

pub frame-write :
    {h : Heap} {p : ℕ} {cs : List Cell} (a : ℕ) (c : Option Node)
    → Chain h p cs
    → has a cs ≡ false
    → Chain (write h a c) p cs
unfolding write
frame-write a c s out = frame s (ground arith)

pub add_one-Chain :
    {h : Heap} {p : ℕ} {cs : List Cell} (a : ℕ) (r : Res)
    → Chain h p cs
    → a ≢ 0
    → has a cs ≡ false
    → Chain (write h a (some (node r p))) a ((a, r) ∷ cs)
add_one-Chain {h} {p} a r s ne out =
    cons ne (write_self h a (some (node r p))) out (frame-write a (some (node r p)) s out)
