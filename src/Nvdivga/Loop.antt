-- ===== src/Nvdivga/Loop.antt =====
-- The loop of `initres_nvdivga` over the modes of the file, against a walk of the file as it was read.
use chgres.Base.{
  ℕ, suc, ◌+◌, ◌*◌, ◌≤◌, ◌<◌, ◌≡◌, refl, ap, ◌∙◌, inl, inr, Bool, List, [], ◌∷◌, arith, ◌==◌,
  Bool-cases, Bytes, length, get_elem?,
}
use chgres.Base.Exec.{Exec, ok, ◌>>=◌}
use chgres.Mode.{Modes, add_mode}
use chgres.Nvdivga.{
  Et4000, Fields, Cards, no_mode, fields_at, nvdivga_mode, create_nvdivga_mode, create_modes,
  counted,
}
use chgres.Nvdivga.Vgainf.{
  sizeof_vgainf, vgainf_defmode, vga_next, vga_planes, vga_xres, vga_yres, vga_visible_xres,
  vga_visible_yres, vga_vfreq,
}
use chgres.Nvdivga.Block.{word_at, long_at, Agree, word_at-Agree, word_at-inside}
use chgres.Nvdivga.Relocate.{IsRelocated}

-- The file has modes at these offsets, from `at` on: each leads to the next behind its last offset, and
-- the last one ends the list.
pub data IsModes (base : ℕ) (buf : Bytes) : ℕ → List ℕ → Type 0 where
  last :
      {at : ℕ}
      → sizeof_vgainf ≤ at
      → at + 100 ≤ length buf
      → long_at buf (at + vga_next) ≡ ok no_mode
      → IsModes base buf at (at ∷ [])
  more :
      {at d : ℕ} {ats : List ℕ}
      → sizeof_vgainf ≤ at
      → at + 100 ≤ length buf
      → long_at buf (at + vga_next) ≡ ok d
      → 100 ≤ d
      → IsModes base buf (at + d) ats
      → IsModes base buf at (at ∷ ats)

-- What is read to create a mode is the same in two blocks.
pub record SameMode (g h : Bytes) (at : ℕ) : Type 0 where
  pub header : Agree g h 0 sizeof_vgainf
  pub fields : Agree g h (at + 10) 74

-- The block as it is when the mode at `at` is next: what stands from there on is unchanged.
pub record IsLeft (g h : Bytes) (at : ℕ) : Type 0 where
  pub same_length : length g ≡ length h
  pub header_left : Agree g h 0 sizeof_vgainf
  pub above : (j : ℕ) → at ≤ j → get_elem? g j ≡ get_elem? h j

pub IsLeft-SameMode :
    {g g' h : Bytes} {at : ℕ}
    → sizeof_vgainf ≤ at
    → IsLeft g h at
    → IsRelocated g' g at
    → SameMode g' h at
IsLeft-SameMode l w r = record {
  header = λ j m m'. r.below j (omega arith) ∙ w.header_left j m m';
  fields = λ j m m'. r.inside j m (omega arith) ∙ w.above j (omega arith);
}

pub IsLeft-step :
    {g g' h : Bytes} {at d : ℕ}
    → sizeof_vgainf ≤ at
    → 100 ≤ d
    → IsLeft g h at
    → IsRelocated g' g at
    → IsLeft g' h (at + d)
IsLeft-step l l' w r = record {
  same_length = r.same_length ∙ w.same_length;
  header_left = λ j m m'. r.below j (omega arith) ∙ w.header_left j m m';
  above = λ j m. r.above j (omega arith) ∙ w.above j (omega arith);
}

module _ (virtual : Bytes) (memory : Modes → Bool) where
  -- The modes at the offsets, created from the file as it was read.
  unfoldable pub create_all_modes : Bytes → List ℕ → Cards → Exec Cards
  unfolding create_modes
  create_all_modes buf [] c = ok c
  create_all_modes buf (at ∷ ats) c =
      create_modes virtual memory buf at 0 c.table c.modes >>= create_all_modes buf ats

  word_in :
      {g h : Bytes} {at : ℕ} (k : ℕ)
      → SameMode g h at
      → 10 ≤ k
      → k + 2 ≤ 84
      → word_at g (at + k) ≡ word_at h (at + k)
  word_in {g} {h} {at} k s l l' =
      word_at-Agree g h (at + k) λ j m m'. s.fields j (omega arith) (omega arith)

  fields_at_lem :
      {g h : Bytes} {at : ℕ} (i : ℕ)
      → SameMode g h at
      → i < 15
      → fields_at g at i ≡ fields_at h at i
  unfolding fields_at
  fields_at_lem {g} {h} {at} i s l =
      let header : Agree g h (vgainf_defmode + 2 * i) 2 =
        λ j m m'. s.header j (omega arith) (omega arith) in
      rw
        (
          word_in vga_xres s (omega arith) (omega arith),
          word_in vga_yres s (omega arith) (omega arith),
          word_in vga_visible_xres s (omega arith) (omega arith),
          word_in vga_visible_yres s (omega arith) (omega arith),
          word_in vga_vfreq s (omega arith) (omega arith),
          word_at-Agree g h (vgainf_defmode + 2 * i) header,
        )
        refl

  fields_at-inside :
      (h : Bytes) (at i : ℕ)
      → sizeof_vgainf ≤ at
      → at + 100 ≤ length h
      → i < 15
      → (f : Fields) × (fields_at h at i ≡ ok f)
  unfolding fields_at
  fields_at-inside h at i l l' m =
      let (x, e1) = word_at-inside h (at + vga_xres) (omega arith) in
      let (y, e2) = word_at-inside h (at + vga_yres) (omega arith) in
      let (vx, e3) = word_at-inside h (at + vga_visible_xres) (omega arith) in
      let (vy, e4) = word_at-inside h (at + vga_visible_yres) (omega arith) in
      let (f, e5) = word_at-inside h (at + vga_vfreq) (omega arith) in
      let (d, e6) = word_at-inside h (vgainf_defmode + 2 * i) (omega arith) in
      (
        record { xres = x; yres = y; visible_xres = vx; visible_yres = vy; vfreq = f; defmode = d },
        rw (e1, e2, e3, e4, e5, e6) refl,
      )

  -- A mode inside the file is created from either block, and alike.
  create_nvdivga_mode-same :
      {g h : Bytes} {at : ℕ} (i : ℕ) (e : Et4000) (t : Modes)
      → SameMode g h at
      → sizeof_vgainf ≤ at
      → at + 100 ≤ length h
      → i < 15
      → (t' : Modes) × (create_nvdivga_mode virtual memory g at i e t ≡ ok t')
        × (create_nvdivga_mode virtual memory h at i e t ≡ ok t')
  unfolding create_nvdivga_mode
  create_nvdivga_mode-same {g} {h} {at} i e t s l l' m =
      let (f, read) = fields_at-inside h at i l l' m in
      let same = fields_at_lem i s m in
      elim (Bool-cases (memory t)) [
        | inl room ↦ (
          add_mode t e.index (nvdivga_mode virtual e at f),
          rw (room, same, read) refl,
          rw (room, read) refl,
        )
        | inr full ↦ (t, rw full refl, rw full refl)
      ]

  pub create_modes-same :
      {g h : Bytes} {at : ℕ} (i : ℕ) (es : List Et4000) (t : Modes)
      → SameMode g h at
      → sizeof_vgainf ≤ at
      → at + 100 ≤ length h
      → i + length es ≤ 15
      → (c : Cards) × (create_modes virtual memory g at i es t ≡ ok c)
        × (create_modes virtual memory h at i es t ≡ ok c)
        × (length c.table ≡ length es)
  unfolding create_modes
  create_modes-same i [] t s l l' m = (record { table = []; modes = t }, refl, refl, refl)
  create_modes-same {g} {h} {at} i (e ∷ es) t s l l' m =
      let (planes, read) = word_at-inside h (at + vga_planes) (omega arith) in
      let same = word_in vga_planes s (omega arith) (omega arith) in
      elim (Bool-cases (e.planes == planes)) [
        | inl hit ↦
            let (t', made, made') = create_nvdivga_mode-same i e t s l l' (omega arith) in
            let (c, done, done', n) = create_modes-same (suc i) es t' s l l' (omega arith) in
            (
              record { table = counted e ∷ c.table; modes = c.modes },
              rw (same, read, hit, made, done) refl,
              rw (read, hit, made', done') refl,
              ap suc n,
            )
        | inr miss ↦
            let (c, done, done', n) = create_modes-same (suc i) es t s l l' (omega arith) in
            (
              record { table = e ∷ c.table; modes = c.modes },
              rw (same, read, miss, done) refl,
              rw (read, miss, done') refl,
              ap suc n,
            )
      ]
