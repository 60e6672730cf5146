-- ===== src/Nvdivga/Relocate.antt =====
-- What the relocation of a mode changes: the offsets in it, and no other byte.
use chgres.Base.{
  ℕ, ◌+◌, ◌≤◌, ◌<◌, ◌≡◌, refl, ap, ◌∙◌, ◌⊎◌, inl, inr, true, arith, leb, ◌==◌, if◌then◌else◌,
  Bool-cases, Bytes, length, get_elem?,
}
use chgres.Base.Exec.{ok}
use chgres.Nvdivga.{no_mode, address, relocate_field, relocate_next, relocate}
use chgres.Nvdivga.Vgainf.{
  vga_next, vga_modename, vga_ts_regs, vga_crtc_regs, vga_atc_regs, vga_gdc_regs,
}
use chgres.Nvdivga.Block.{
  long_at, put_long, with_long, Agree, long_at-Agree, long_at-inside, long_at-with_long,
  length-with_long, with_long_ne,
}

-- `g` and `h` have the same length, and agree outside the long at `i`.
pub record IsBeside (g h : Bytes) (i : ℕ) : Type 0 where
  pub same_length : length g ≡ length h
  pub beside : (j : ℕ) → (j < i) ⊎ (i + 4 ≤ j) → get_elem? g j ≡ get_elem? h j

-- `g` and `h` have the same length, and agree outside the offsets of the mode at `at`.
pub record IsRelocated (g h : Bytes) (at : ℕ) : Type 0 where
  pub same_length : length g ≡ length h
  pub below : (j : ℕ) → j < at → get_elem? g j ≡ get_elem? h j
  pub inside : (j : ℕ) → at + 10 ≤ j → j < at + 84 → get_elem? g j ≡ get_elem? h j
  pub above : (j : ℕ) → at + 100 ≤ j → get_elem? g j ≡ get_elem? h j

put_long-IsBeside :
    (p : Bytes) (i v : ℕ)
    → i + 4 ≤ length p
    → (put_long p i v ≡ ok (with_long p i v)) × IsBeside (with_long p i v) p i
unfolding put_long
put_long-IsBeside p i v l = (
  rw (le→leb l) refl,
  record { same_length = length-with_long p i v; beside = with_long_ne p i v },
)
  where
    le→leb : {m n : ℕ} → m ≤ n → leb m n ≡ true
    le→leb l = ground arith

relocate_field-IsBeside :
    (base at : ℕ) (buf : Bytes) (field : ℕ)
    → at + field + 4 ≤ length buf
    → (g : Bytes) × (relocate_field base at buf field ≡ ok g) × IsBeside g buf (at + field)
unfolding relocate_field
relocate_field-IsBeside base at buf field l =
    let (v, e) = long_at-inside buf (at + field) l in
    let (done, same) = put_long-IsBeside buf (at + field) (address base at v) l in
    (with_long buf (at + field) (address base at v), rw (e, done) refl, same)

-- What `relocate` makes of the offset of the next mode.
abbrev pub next_address : ℕ → ℕ → ℕ → ℕ
next_address base at v = if v == no_mode then no_mode else address base at v

relocate_next-IsBeside :
    (base at : ℕ) (buf : Bytes) (v : ℕ)
    → at + vga_next + 4 ≤ length buf
    → long_at buf (at + vga_next) ≡ ok v
    → (g : Bytes) × (relocate_next base at buf ≡ ok g)
      × IsBeside g buf (at + vga_next)
      × (long_at g (at + vga_next) ≡ ok (next_address base at v))
unfolding relocate_next
relocate_next-IsBeside base at buf v l e = elim (Bool-cases (v == no_mode)) [
  | inl last ↦
      let same : v ≡ no_mode = ground arith in
      (
        buf,
        rw (e, last) refl,
        record { same_length = refl; beside = λ j o. refl },
        rw last (e ∙ ap ok same),
      )
  | inr more ↦
      let (done, same) = put_long-IsBeside buf (at + vga_next) (address base at v) l in
      (
        with_long buf (at + vga_next) (address base at v),
        rw (e, more) done,
        same,
        rw more (long_at-with_long buf (at + vga_next) (address base at v) l (omega arith)),
      )
]

module _ (at : ℕ) {buf b1 b2 b3 b4 b5 : Bytes} (s1 : IsBeside b1 buf (at + vga_modename))
    (s2 : IsBeside b2 b1 (at + vga_ts_regs)) (s3 : IsBeside b3 b2 (at + vga_crtc_regs))
    (s4 : IsBeside b4 b3 (at + vga_atc_regs)) (s5 : IsBeside b5 b4 (at + vga_gdc_regs)) where
  -- The five fields leave what is beside all of them.
  fields_kept :
      (j : ℕ)
      → (j < at + vga_modename) ⊎ (at + vga_modename + 4 ≤ j)
      → (j < at + vga_ts_regs) ⊎ (at + 100 ≤ j)
      → get_elem? b5 j ≡ get_elem? buf j
  fields_kept j o o' =
      s5.beside j (ground arith)
      ∙ s4.beside j (ground arith)
      ∙ s3.beside j (ground arith)
      ∙ s2.beside j (ground arith)
      ∙ s1.beside j o

  fields-length : length b5 ≡ length buf
  fields-length = s5.same_length ∙ s4.same_length ∙ s3.same_length ∙ s2.same_length ∙ s1.same_length

  fields_next : Agree b5 buf (at + vga_next) 4
  fields_next j l l' = fields_kept j (inl (omega arith)) (inl (omega arith))

  all-IsRelocated : {g : Bytes} → IsBeside g b5 (at + vga_next) → IsRelocated g buf at
  all-IsRelocated s6 = record {
    same_length = s6.same_length ∙ fields-length;
    below = λ j l.
        s6.beside j (inl (omega arith)) ∙ fields_kept j (inl (omega arith)) (inl (omega arith));
    inside = λ j l l'.
        s6.beside j (inr (omega arith)) ∙ fields_kept j (inr (omega arith)) (inl (omega arith));
    above = λ j l. s6.beside j (inr (omega arith)) ∙ fields_kept j (inr (omega arith)) (inr l);
  }

-- A mode inside the block is relocated, and the next mode is read from it.
pub relocate-IsRelocated :
    (base at : ℕ) (buf : Bytes) (v : ℕ)
    → at + 100 ≤ length buf
    → long_at buf (at + vga_next) ≡ ok v
    → (g : Bytes) × (relocate base at buf ≡ ok g)
      × IsRelocated g buf at
      × (long_at g (at + vga_next) ≡ ok (next_address base at v))
unfolding relocate
relocate-IsRelocated base at buf v l e =
    let (b1, e1, s1) = relocate_field-IsBeside base at buf vga_modename (omega arith) in
    let l1 = s1.same_length in
    let (b2, e2, s2) = relocate_field-IsBeside base at b1 vga_ts_regs (omega arith) in
    let l2 = s2.same_length in
    let (b3, e3, s3) = relocate_field-IsBeside base at b2 vga_crtc_regs (omega arith) in
    let l3 = s3.same_length in
    let (b4, e4, s4) = relocate_field-IsBeside base at b3 vga_atc_regs (omega arith) in
    let l4 = s4.same_length in
    let (b5, e5, s5) = relocate_field-IsBeside base at b4 vga_gdc_regs (omega arith) in
    let l5 = s5.same_length in
    let same = fields_next at s1 s2 s3 s4 s5 in
    let (g, e6, s6, next) =
      relocate_next-IsBeside base at b5 v (omega arith)
        (long_at-Agree b5 buf (at + vga_next) same ∙ e) in
    (g, rw (e1, e2, e3, e4, e5) e6, all-IsRelocated at s1 s2 s3 s4 s5 s6, next)
