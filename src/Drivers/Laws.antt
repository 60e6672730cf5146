-- ===== src/Drivers/Laws.antt =====
-- The table of drivers behind `read_assign_sys`, and what `get_gdos_driver` finds in it.
use chgres.Base.{
  ℕ, zero, suc, ◌+◌, ◌-◌, ◌≤◌, ◌<◌, min, ◌≡◌, refl, ap, ◌∙◌, inl, inr, true, false, ◌&&◌, none,
  some, List, [], ◌∷◌, ◌++◌, arith, ltb, leb, if◌then◌else◌, Bool-cases, Option-cases, Bytes,
  length, get_elem?, set, take, drop, length-append, length-set, length-drop,
}
use mathlib.Core.List.{append_assoc, append-nil}
use chgres.Base.Int.{pos, sub_ℕ, ltb_ℤ}
use chgres.Base.Exec.{ok, fault}
use chgres.CLib.{codes, strstr, str_eq, atoi}
use chgres.Drivers.{
  Drivers, register_line, registered, line_string, name_start, short_id, assign_loop, assign_sys,
  read_assign_sys, driver_loop, get_gdos_driver,
}
use chgres.Gemdos.{Gemdos, ◌>>=◌}
use chgres.Gemdos.Load.{Loads, load_calls, load_file-Loads}
use chgres.Save.Process.{c_string}
use chgres.Text.{Line}
use chgres.CLib.{strupr}
use chgres.Text.Bounds.{no_final_cr, no_final_cr-drop, next_line-Fits}

-- `u` has as many entries as `t` and the same one at 0.
abbrev pub SameShape : Drivers → Drivers → Type 0
SameShape t u = (length u ≡ length t) × (get_elem? u 0 ≡ get_elem? t 0)

SameShape-trans : (t u v : Drivers) → SameShape t u → SameShape u v → SameShape t v
SameShape-trans t u v p q = (q.0 ∙ p.0, q.1 ∙ p.1)

set_behind :
    (t : Drivers) (id : ℕ) (name : Bytes) → get_elem? (set t (suc id) name) 0 ≡ get_elem? t 0
set_behind [] id name = refl
set_behind (s ∷ t) id name = refl

registered_total :
    (t : Drivers) (id : ℕ) (name : Bytes)
    → length t ≡ 11
    → (u : Drivers) × (registered t id name ≡ ok u) × SameShape t u
unfolding registered
registered_total t zero name n = (t, refl, (refl, refl))
registered_total t (suc id) name n = elim (Bool-cases (ltb (suc id) 11)) [
  | inl e ↦ (
    set t (suc id) (c_string 13 name),
    rw (above id, e, n, e) refl,
    (length-set t (suc id) (c_string 13 name), set_behind t id (c_string 13 name)),
  )
  | inr e ↦ (t, rw (above id, e) refl, (refl, refl))
]
  where
    above : (id : ℕ) → ltb 0 (suc id) ≡ true
    above id = ground arith

register_line_total :
    (t : Drivers) (text : Bytes)
    → length t ≡ 11
    → (u : Drivers) × (register_line t text ≡ ok u) × SameShape t u
unfolding register_line
register_line_total t text n = elim (Option-cases (strstr text (codes ".SYS"))) [
  | inl e ↦ (t, rw e refl, (refl, refl))
  | inr (k, e) ↦ elim (Option-cases (name_start text k)) [
    | inl f ↦ (t, rw (e, f) refl, (refl, refl))
    | inr (j, f) ↦
        let (u, done, same) = registered_total t (short_id (atoi text)) (drop j text) n in
        (u, rw (e, f) done, same)
  ]
]

line_string_total :
    (p : Bytes) (l : Line) → l.valid ≤ length p → (text : Bytes) × (line_string p l ≡ ok text)
unfolding line_string
line_string_total p l h =
    (strupr (c_string 512 (take (min l.valid 511) p)), rw (copied_inside l.valid (length p) h) refl)
  where
    copied_inside : (v n : ℕ) → v ≤ n → leb (if leb 512 v then 512 else v) n ≡ true
    copied_inside v n h = ground arith

assign_loop_total :
    (fuel : ℕ) (p : Bytes) (size : ℕ) (t : Drivers)
    → size ≤ length p
    → no_final_cr p ≡ true
    → length t ≡ 11
    → size < fuel
    → (u : Drivers) × (assign_loop fuel p size t ≡ ok u) × SameShape t u
unfolding assign_loop
assign_loop_total zero p size t h e n k = absurd (omega arith)
assign_loop_total (suc fuel) p size t h e n k =
    let (l, taken, f) = next_line-Fits p size h e in
    let (text, copied) = line_string_total p l (omega (arith, f.inside, f.valid-le)) in
    let (t', stored, same) = register_line_total t text n in
    elim (Bool-cases (ltb_ℤ (pos 0) (sub_ℕ size l.len) && ltb 0 l.len)) [
      | inl more ↦
          let (u, e', s) =
            assign_loop_total fuel (drop l.len p) (size - l.len) t'
              (omega (arith, length-drop l.len p)) (no_final_cr-drop l.len p e) (same.0 ∙ n)
              (ground arith) in
          (u, rw (taken, copied, stored, more) e', SameShape-trans t t' u same s)
      | inr last ↦ (t', rw (taken, copied, stored, last) refl, same)
    ]

-- If ASSIGN.SYS can be read and does not end in a carriage return, then on a table of 11 entries, as
-- `gdos_drivers` has, `read_assign_sys` ends: it copies no line from behind the file and stores no name
-- outside the table. It leaves as many entries as before, the one at 0 unchanged.
pub read_assign_sys_lem :
    (os : Gemdos) (buf : Bytes) (t : Drivers)
    → Loads os assign_sys buf
    → no_final_cr buf ≡ true
    → length t ≡ 11
    → (u : Drivers) × (read_assign_sys os t [] ≡ ok (u, load_calls os assign_sys)) × SameShape t u
unfolding read_assign_sys
read_assign_sys_lem os buf t loads e n =
    let (u, done, same) =
      assign_loop_total (suc (length buf)) buf (length buf) t (omega arith) e n (omega arith) in
    (u, rw (load_file-Loads os assign_sys buf loads, ◌>>=◌) (rw done refl), same)

-- No name of the list is `name`.
abbrev pub NotAmong : Bytes → List Bytes → Type 0
NotAmong name [] = Unit
NotAmong name (s ∷ ss) = (str_eq s name ≡ false) × NotAmong name ss

entry_behind :
    (first : List Bytes) (s : Bytes) (rest : List Bytes) (i : ℕ)
    → length first ≡ i
    → get_elem? (first ++ s ∷ rest) i ≡ some s
entry_behind [] s rest zero h = refl
entry_behind [] s rest (suc i) h = absurd (omega arith)
entry_behind (f ∷ first) s rest zero h = absurd (omega arith)
entry_behind (f ∷ first) s rest (suc i) h = entry_behind first s rest i (omega arith)

no_entry : (first : List Bytes) (i : ℕ) → length first ≡ i → get_elem? first i ≡ none
no_entry [] i h = refl
no_entry (f ∷ first) zero h = absurd (omega arith)
no_entry (f ∷ first) (suc i) h = no_entry first i (omega arith)

-- The loop from behind `first` on.
driver_loop-found :
    (before first : List Bytes) (s name : Bytes) (rest : List Bytes) (n i : ℕ)
    → length first ≡ i
    → NotAmong name before
    → str_eq s name ≡ true
    → length before < n
    → driver_loop n i (first ++ (before ++ s ∷ rest)) name ≡ ok (i + length before)
unfolding driver_loop
driver_loop-found before first s name rest zero i h b m l = absurd (omega arith)
driver_loop-found [] first s name rest (suc n) i h b m l =
    rw (entry_behind first s rest i h, m) (ap ok (i_zero i))
  where
    i_zero : (i : ℕ) → i ≡ i + 0
    i_zero i = omega arith
driver_loop-found (d ∷ before) first s name rest (suc n) i h b m l =
    let go =
      driver_loop-found before (first ++ d ∷ []) s name rest n (suc i)
        (omega (arith, length-append first (d ∷ []))) b.1 m (omega arith) in
    let count : suc i + length before ≡ i + suc (length before) = omega arith in
    rw (entry_behind first d (before ++ s ∷ rest) i h, b.0) (rw (append_assoc, count) at go)

driver_loop-missing :
    (names first : List Bytes) (name : Bytes) (n i : ℕ)
    → length first ≡ i
    → NotAmong name names
    → length names < n
    → driver_loop n i (first ++ names) name ≡ fault
unfolding driver_loop
driver_loop-missing names first name zero i h b l = absurd (omega arith)
driver_loop-missing [] first name (suc n) i h b l = rw (append-nil, no_entry first i h) refl
driver_loop-missing (d ∷ names) first name (suc n) i h b l =
    let go =
      driver_loop-missing names (first ++ d ∷ []) name n (suc i)
        (omega (arith, length-append first (d ∷ []))) b.1 (omega arith) in
    rw (entry_behind first d names i h, b.0) (rw append_assoc at go)

-- `get_gdos_driver` gives the number of the first entry behind the one at 0 that has the name, if it is
-- among the first ten.
get_gdos_driver-found :
    (zero_entry : Bytes) (before : List Bytes) (s name : Bytes) (rest : List Bytes)
    → NotAmong name before
    → str_eq s name ≡ true
    → length before < 10
    → get_gdos_driver (zero_entry ∷ (before ++ s ∷ rest)) name ≡ ok (1 + length before)
unfolding get_gdos_driver
get_gdos_driver-found z before s name rest b m l =
    driver_loop-found before (z ∷ []) s name rest 11 1 refl b m (omega arith)

-- If none of the ten entries behind the one at 0 has the name, and the table ends there,
-- `get_gdos_driver` reads an entry behind the table.
pub get_gdos_driver-missing :
    (zero_entry : Bytes) (names : List Bytes) (name : Bytes)
    → NotAmong name names
    → length names ≡ 10
    → get_gdos_driver (zero_entry ∷ names) name ≡ fault
unfolding get_gdos_driver
get_gdos_driver-missing z names name b l =
    driver_loop-missing names (z ∷ []) name 11 1 refl b (omega arith)
