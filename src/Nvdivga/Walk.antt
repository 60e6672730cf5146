-- ===== src/Nvdivga/Walk.antt =====
-- The modes that the loop of `initres_nvdivga` creates are those of the file as it was read.
use chgres.Base.{
  ℕ, zero, suc, ◌+◌, ◌-◌, ◌≤◌, ◌<◌, ◌≡◌, refl, ◌∙◌, Bool, true, false, List, arith, leb, ◌==◌,
  Bytes, length,
}
use chgres.Base.Exec.{ok}
use chgres.Mode.{Modes}
use chgres.Nvdivga.{Cards, no_mode, create_modes, mode_loop}
use chgres.Nvdivga.Vgainf.{sizeof_vgainf, vga_next}
use chgres.Nvdivga.Block.{long_at, long_at-Agree}
use chgres.Nvdivga.Relocate.{IsRelocated, next_address, relocate-IsRelocated}
use chgres.Nvdivga.Loop.{
  IsModes, last, more, IsLeft, IsLeft-SameMode, IsLeft-step, create_modes-same, create_all_modes,
}

IsModes-inside :
    {base at : ℕ} {buf : Bytes} {ats : List ℕ} → IsModes base buf at ats → at + 100 ≤ length buf
IsModes-inside (last a b e) = b
IsModes-inside (more a b e far m) = b

next_is : (base at d : ℕ) → base + (at + d) < no_mode → next_address base at d ≡ base + (at + d)
next_is base at d l =
    let some_mode : (d == no_mode) ≡ false = ground arith in rw some_mode (omega arith)

module _ (virtual : Bytes) (memory : Modes → Bool) (base : ℕ) (buf : Bytes)
    (fits : base + length buf < no_mode) where
  -- One round: the mode at `at` is relocated and created, and the next address is read.
  round :
      (fuel : ℕ) {at d : ℕ} {g : Bytes} (c : Cards)
      → sizeof_vgainf ≤ at
      → at + 100 ≤ length buf
      → long_at buf (at + vga_next) ≡ ok d
      → IsLeft g buf at
      → length c.table ≤ 15
      → (c' : Cards) × (g' : Bytes) × (mode_loop virtual memory (suc fuel) base (base + at) g c
          ≡ mode_loop virtual memory fuel base (next_address base at d) g' c')
        × (create_modes virtual memory buf at 0 c.table c.modes ≡ ok c')
        × IsRelocated g' g at
        × (length c'.table ≡ length c.table)
  unfolding mode_loop
  round fuel {at} {d} {g} c l l' e w n =
      let here = long_at-Agree g buf (at + vga_next) (λ j m m'. w.above j (omega arith)) in
      let (g', moved, r, next) =
        relocate-IsRelocated base at g d (rw w.same_length l') (here ∙ e) in
      let (c', done, done', m) =
        create_modes-same virtual memory 0 c.table c.modes (IsLeft-SameMode l w r) l l'
          (omega arith) in
      let back : base + at - base ≡ at = omega arith in
      let some_mode : (base + at == no_mode) ≡ false = ground arith in
      let inside : leb base (base + at) ≡ true = ground arith in
      (c', g', rw (some_mode, inside, back, moved, done, next) refl, done', r, m)

  ends :
      (fuel : ℕ) (g : Bytes) (c : Cards)
      → mode_loop virtual memory (suc fuel) base no_mode g c ≡ ok c
  unfolding mode_loop
  ends fuel g c = refl

  walk :
      (fuel : ℕ) {at : ℕ} {ats : List ℕ} {g : Bytes} (c : Cards)
      → IsModes base buf at ats
      → IsLeft g buf at
      → length c.table ≤ 15
      → length ats < fuel
      → (c' : Cards) × (mode_loop virtual memory fuel base (base + at) g c ≡ ok c')
        × (create_all_modes virtual memory buf ats c ≡ ok c')
  unfolding create_all_modes
  walk zero c m w n l = absurd (omega arith)
  walk (suc zero) c (last a b e) w n l = absurd (omega arith)
  walk (suc zero) c (more a b e d m) w n l = absurd (omega arith)
  walk (suc (suc fuel)) c (last a b e) w n l =
      let (c', g', loops, made, r, k) = round (suc fuel) c a b e w n in
      (c', loops ∙ ends fuel g' c', rw made refl)
  walk (suc (suc fuel)) c (more {at} {d} a b e far m) w n l =
      let (c1, g', loops, made, r, k) = round (suc fuel) c a b e w n in
      let left = IsLeft-step a far w r in
      let (c', rest, rest') =
        walk (suc fuel) {at = at + d} {g = g'} c1 m left (omega arith) (omega arith) in
      let next : next_address base at d ≡ base + (at + d) =
        next_is base at d (omega (arith, IsModes-inside m, fits)) in
      (c', loops ∙ rw next rest, rw made rest')

  -- On a block that fits into the address space, with modes at the offsets `ats` from `at` on, a table
  -- of at most 15 entries and fuel for more rounds than there are modes, the loop ends, though it
  -- overwrites the offsets in the block as it goes: it creates the modes that stand at `ats` in the
  -- file as it was read, in this order, and counts them in the table.
  pub mode_loop-create_all_modes :
      (fuel : ℕ) {at : ℕ} {ats : List ℕ} (c : Cards)
      → IsModes base buf at ats
      → length c.table ≤ 15
      → length ats < fuel
      → (c' : Cards) × (mode_loop virtual memory fuel base (base + at) buf c ≡ ok c')
        × (create_all_modes virtual memory buf ats c ≡ ok c')
  mode_loop-create_all_modes fuel c m n l =
      walk fuel c m
        (record { same_length = refl; header_left = λ j a b. refl; above = λ j a. refl }) n l
