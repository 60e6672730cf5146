-- ===== src/Nvdivga/Load/Files.antt =====
-- nvdivga.inf behind a run of `save_nvdivga_inf`, and what `create_nvdivga_mode` makes of it then.
use chgres.Base.{
  ℕ, zero, suc, ◌+◌, ◌-◌, ◌*◌, ◌≤◌, ◌<◌, ◌≡◌, refl, sym, ◌≢◌, ◌⊎◌, inl, inr, Bool, true, Option,
  none, some, List, [], ◌∷◌, ◌++◌, arith, if◌then◌else◌, Bool-cases, Bytes, length,
}
use mathlib.Core.List.{append_assoc, append-nil}
use chgres.Base.Int.{ℤ, pos, negsuc, ◌-ℤ◌}
use chgres.Base.Exec.{ok}
use chgres.Gemdos.{Gemdos, Call, ◌>>=◌, opened, closed, positive}
use chgres.Mode.{Res, Modes, eq_ℤ, add_mode}
use chgres.Nvdivga.{Et4000, Fields, fields_at, nvdivga_mode, create_nvdivga_mode, plus_one}
use chgres.Nvdivga.Vgainf.{sizeof_vgainf, vgainf_defmode}
use chgres.Nvdivga.Block.{short_of}
use chgres.Nvdivga.Load.{
  nvdivga_inf, word_of, word_bytes, as_default, write_defmode, save_nvdivga_inf,
}
use chgres.Nvdivga.Load.Edited.{
  file_edits, file_edits-AllFit, fields_at-edited, fields_at-edited_ne, length-edited,
}
use chgres.Volume.{Volume, IsLawful, run, HasBecome}
use chgres.Volume.Edit.{edits, edited, edited-HasBecome}

-- The first entry of the table for the depth of the mode.
abbrev pub depth_entry : Res → ℕ → List Et4000 → Option ℕ
depth_entry r i [] = none
depth_entry r i (e ∷ es) =
    let rest = depth_entry r (suc i) es in if eq_ℤ (pos e.planes) r.planes then some i else rest

abbrev defmode_edit : Res → Option ℕ → List (ℕ × Bytes)
defmode_edit r none = []
defmode_edit r (some i) = (vgainf_defmode + 2 * i, word_bytes (as_default r.vmode)) ∷ []

write_defmode_lem :
    (fd : ℤ) (r : Res) (i : ℕ) (table : List Et4000) (calls : List Call)
    → write_defmode fd r i table calls
      ≡ ok (tt, calls ++ edits fd (defmode_edit r (depth_entry r i table)))
unfolding write_defmode
write_defmode_lem fd r i [] calls = rw append-nil refl
write_defmode_lem fd r i (e ∷ es) calls = elim (Bool-cases (eq_ℤ (pos e.planes) r.planes)) [
  | inl hit ↦ rw hit (simp append_assoc)
  | inr miss ↦ rw miss (write_defmode_lem fd r (suc i) es calls)
]

-- A number that a `short` holds.
abbrev pub IsShort : ℤ → Type 0
IsShort (pos n) = n < 32768
IsShort (negsuc n) = n < 32768

word_of_bound : (z : ℤ) → word_of z < 65536
word_of_bound (pos n) = omega arith
word_of_bound (negsuc n) = omega arith

-- One less is written, and one more is read.
plus_one-word_of : (z : ℤ) → IsShort z → plus_one (word_of (z -ℤ pos 1)) ≡ z
unfolding ◌-ℤ◌
plus_one-word_of (pos zero) l = refl
plus_one-word_of (pos (suc n)) l = ground arith
plus_one-word_of (negsuc n) l = ground arith

-- The two top bits are set: as a `short` it is below 0.
as_default_negative : (vmode : ℤ) → (n : ℕ) × (short_of (as_default vmode) ≡ negsuc n)
as_default_negative vmode = (65535 - as_default vmode, ground arith)

-- The edits of the file.
abbrev res_edits : Res → ℕ → ℕ → List (ℕ × Bytes)
res_edits r i at =
    file_edits i (as_default r.vmode) at (word_of (r.virt_hres -ℤ pos 1))
      (word_of (r.virt_vres -ℤ pos 1))

save_nvdivga_inf_calls :
    (os : Gemdos) (table : List Et4000) (r : Res) (i at : ℕ)
    → depth_entry r 0 table ≡ some i
    → r.mode_offset ≡ pos at
    → positive (os.fopen nvdivga_inf 1) ≡ true
    → save_nvdivga_inf os table r []
      ≡ ok (
        1,
        opened nvdivga_inf 1 ∷ edits (os.fopen nvdivga_inf 1) (res_edits r i at)
            ++ closed (os.fopen nvdivga_inf 1) ∷ [],
      )
unfolding save_nvdivga_inf
save_nvdivga_inf_calls os table r i at entry offset opens =
    rw
      (
        opens,
        ◌>>=◌,
        write_defmode_lem (os.fopen nvdivga_inf 1) r 0 table (opened nvdivga_inf 1 ∷ []),
        entry,
        offset,
      )
      refl

module _ {S : Type 0} {v : Volume S} (lawful : IsLawful v) where
  -- On a volume that obeys the laws: if the table has an entry for the depth of the mode, among the
  -- first 15, the mode stands in nvdivga.inf behind the header, and the file can be opened for
  -- writing, then `save_nvdivga_inf` gives 1, and behind it the file is as long as before; the fields
  -- of the mode are its virtual size, less one, and its number with the two top bits set as the
  -- default of the depth, and the others are as they were, as are those of a mode of another depth at
  -- a place that is at least 100 bytes away. No other file has changed.
  pub save_nvdivga_inf-HasBecome :
      (os : Gemdos) (s : S) (table : List Et4000) (r : Res) (i at : ℕ) (old : Bytes) (f : Fields)
      (at' k : ℕ)
      → depth_entry r 0 table ≡ some i
      → i ≤ 14
      → r.mode_offset ≡ pos at
      → sizeof_vgainf ≤ at
      → at + 100 ≤ length old
      → fields_at old at i ≡ ok f
      → v.content s nvdivga_inf ≡ some old
      → positive (os.fopen nvdivga_inf 1) ≡ true
      → sizeof_vgainf ≤ at'
      → k ≤ 14
      → k ≢ i
      → (at' + 100 ≤ at) ⊎ (at + 100 ≤ at')
      → (calls : List Call) × (new : Bytes) × (save_nvdivga_inf os table r [] ≡ ok (1, calls))
        × HasBecome v s (run v os s calls) nvdivga_inf new
        × (length new ≡ length old)
        × (fields_at new at i
            ≡ ok (record f {
              xres = word_of (r.virt_hres -ℤ pos 1);
              yres = word_of (r.virt_vres -ℤ pos 1);
              defmode = as_default r.vmode;
            }))
        × (fields_at new at' k ≡ fields_at old at' k)
  save_nvdivga_inf-HasBecome os s table r i at old f at' k entry few offset behind size read holds
        opens apart few' ne beside =
      let x = word_of (r.virt_hres -ℤ pos 1) in
      let y = word_of (r.virt_vres -ℤ pos 1) in
      let d = as_default r.vmode in
      (
        _,
        edited (res_edits r i at) old,
        save_nvdivga_inf_calls os table r i at entry offset opens,
        edited-HasBecome lawful os s nvdivga_inf old (res_edits r i at) holds
            (file_edits-AllFit old i d at x y few behind size) opens,
        length-edited old i d at x y few behind size,
        fields_at-edited old i d at x y few behind size f (omega arith)
            (word_of_bound (r.virt_hres -ℤ pos 1)) (word_of_bound (r.virt_vres -ℤ pos 1)) read,
        fields_at-edited_ne old i d at x y few behind size at' k apart few' ne beside,
      )

  -- On a volume that obeys the laws: if the table has an entry for the depth of the mode, among the
  -- first 15, the mode stands in nvdivga.inf behind the header, its virtual size is two numbers of 16
  -- bits, and the file can be opened for writing, then `save_nvdivga_inf` leaves a file from which
  -- `create_nvdivga_mode`, if it has memory, creates at the place of the mode one with the virtual
  -- size of the mode and the visible one of the file before. It never has FLAG_DEFMODE, though it was
  -- saved as the default.
  pub create_nvdivga_mode-save_nvdivga_inf :
      (os : Gemdos) (s : S) (table : List Et4000) (r : Res) (i at : ℕ) (old : Bytes) (f : Fields)
      (virtual : Bytes) (memory : Modes → Bool) (e : Et4000) (t : Modes)
      → depth_entry r 0 table ≡ some i
      → i ≤ 14
      → r.mode_offset ≡ pos at
      → IsShort r.virt_hres
      → IsShort r.virt_vres
      → sizeof_vgainf ≤ at
      → at + 100 ≤ length old
      → fields_at old at i ≡ ok f
      → v.content s nvdivga_inf ≡ some old
      → positive (os.fopen nvdivga_inf 1) ≡ true
      → memory t ≡ true
      → (calls : List Call) × (new : Bytes) × (q : Res) × (save_nvdivga_inf os table r []
          ≡ ok (1, calls))
        × HasBecome v s (run v os s calls) nvdivga_inf new
        × (create_nvdivga_mode virtual memory new at i e t ≡ ok (add_mode t e.index q))
        × (q.virt_hres ≡ r.virt_hres)
        × (q.virt_vres ≡ r.virt_vres)
        × (q.hres ≡ plus_one f.visible_xres)
        × (q.vres ≡ plus_one f.visible_yres)
        × (q.mode_offset ≡ r.mode_offset)
        × (q.flags ≡ 1)
  unfolding create_nvdivga_mode nvdivga_mode
  create_nvdivga_mode-save_nvdivga_inf os s table r i at old f virtual memory e t entry few offset
        sh sv behind size read holds opens room =
      let x = word_of (r.virt_hres -ℤ pos 1) in
      let y = word_of (r.virt_vres -ℤ pos 1) in
      let d = as_default r.vmode in
      let fields =
        fields_at-edited old i d at x y few behind size f (omega arith)
          (word_of_bound (r.virt_hres -ℤ pos 1)) (word_of_bound (r.virt_vres -ℤ pos 1)) read in
      let g : Fields = record f {
        xres = word_of (r.virt_hres -ℤ pos 1);
        yres = word_of (r.virt_vres -ℤ pos 1);
        defmode = as_default r.vmode;
      } in
      let (n, below) = as_default_negative r.vmode in
      (
        _,
        edited (res_edits r i at) old,
        nvdivga_mode virtual e at g,
        save_nvdivga_inf_calls os table r i at entry offset opens,
        edited-HasBecome lawful os s nvdivga_inf old (res_edits r i at) holds
            (file_edits-AllFit old i d at x y few behind size) opens,
        rw (room, fields) refl,
        plus_one-word_of r.virt_hres sh,
        plus_one-word_of r.virt_vres sv,
        refl,
        refl,
        sym offset,
        rw below refl,
      )
