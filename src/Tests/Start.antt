-- ===== src/Tests/Start.antt =====
-- A run of `init_res` on a TT with a monochrome monitor, which has one mode.
use chgres.Base.{
  ℕ, zero, suc, ◌<◌, ◌≡◌, refl, sym, true, none, some, List, [], ◌∷◌, arith, ◌==◌, if◌then◌else◌,
  Bytes, length, replicate,
}
use chgres.Base.Int.{pos}
use chgres.CLib.{codes}
use chgres.Mode.{Res, Modes, new_mode, no_modes, modes_at, create_mode}
use chgres.Resolution.{mono, tt_requests, create_all}
use chgres.Resolution.Tables.{tt_mono_requests}
use chgres.Nodes.{Heap, Cell, node}
use chgres.Nodes.Chain.{Chain, nil, cons}
use chgres.Nodes.Walk.{contents}
use chgres.Init.{head_at}
use chgres.Init.Depths.{AreDisjoint}
use chgres.Init.Chosen.{Chosen}
use chgres.Init.Detect.{Answers, IsPlaced, detected}

abbrev pub tt_mono : Answers
tt_mono = record { vdo = pos 2; getrez = pos 6; vsetmode = pos 0; monitor = mono }

abbrev pub tt_high : Res
tt_high =
    new_mode (codes "virtual") (pos 1280) (pos 960) (pos 1) (pos 8) (pos 0) (some (codes "TT Hoch"))

abbrev text : Bytes
text = codes "none\n"

abbrev pub cells : ℕ → List Cell
cells zero = (3, tt_high) ∷ []
cells (suc i) = []

-- The node of the mode stands at 3.
abbrev pub at_three : Modes → List ℕ × Heap
at_three t = (3 ∷ replicate 7 0, λ p. if p == 3 then some (node tt_high 0) else none)

head_at-replicate : (n i : ℕ) → head_at (replicate n 0) i ≡ 0
head_at-replicate zero i = refl
head_at-replicate (suc n) zero = refl
head_at-replicate (suc n) (suc i) = head_at-replicate n i

modes_at-replicate : (n i : ℕ) → modes_at (replicate n []) i ≡ []
modes_at-replicate zero i = refl
modes_at-replicate (suc n) zero = refl
modes_at-replicate (suc n) (suc i) = modes_at-replicate n i

abbrev tt_modes : Modes
tt_modes = (detected (codes "virtual") (λ t. true) 1 tt_mono no_modes).modes

cells-AreDisjoint : AreDisjoint cells
cells-AreDisjoint zero zero a ne e = absurd (ground arith)
cells-AreDisjoint zero (suc j) a ne e = refl
cells-AreDisjoint (suc i) j a ne e = absurd (ground arith)

tt_found : tt_modes ≡ (tt_high ∷ []) ∷ replicate 7 []
unfolding detected create_all tt_requests tt_mono_requests create_mode no_modes
tt_found = refl

tt_modes-contents : (i : ℕ) → contents (cells i) ≡ modes_at tt_modes i
tt_modes-contents zero = rw tt_found refl
tt_modes-contents (suc i) = rw tt_found (sym (modes_at-replicate 7 i))

cells-Chain : (i : ℕ) → Chain (at_three tt_modes).1 (head_at (3 ∷ replicate 7 0) i) (cells i)
cells-Chain zero = cons (omega arith) refl refl (nil refl)
cells-Chain (suc i) = nil (head_at-replicate 7 i)

pub tt_modes-IsPlaced : IsPlaced tt_modes cells (3 ∷ replicate 7 0) (at_three tt_modes).1
tt_modes-IsPlaced = record {
  chains = cells-Chain;
  holds = tt_modes-contents;
  disjoint = cells-AreDisjoint;
}

pub cells_short : (i : ℕ) → length (cells i) < 2
cells_short zero = omega arith
cells_short (suc i) = omega arith
