-- ===== src/Mode/Table.antt =====
-- Invariants of the table of modes, and that `add_mode` keeps them.
use chgres.Base.{
  ℕ, zero, suc, ◌<◌, ◌≡◌, refl, inl, inr, Bool, true, false, ◌&&◌, Option, none, some, List, [],
  ◌∷◌, arith, Bool-cases, Bytes, length, get_elem?, drop,
}
use chgres.Base.Int.{ℤ, pos, negsuc}
use chgres.Mode.{
  modes_at, eq_ℤ, Res, Modes, Request, find_in, find_mode, add_mode, new_mode, create_mode,
}

-- `valid_planes` of chgres.c: the planes of the modes at each index.
abbrev pub valid_planes : List ℕ
valid_planes = 1 ∷ 2 ∷ 4 ∷ 8 ∷ 15 ∷ 16 ∷ 24 ∷ 32 ∷ []

abbrev pub HavePlanes : ℕ → List Res → Type 0
HavePlanes p [] = Unit
HavePlanes p (r ∷ rs) = (r.planes ≡ pos p) × HavePlanes p rs

-- The planes of the modes that `initres_falc` puts at the indices from 0 to 4.
abbrev pub falcon_planes : List ℕ
falcon_planes = 1 ∷ 2 ∷ 4 ∷ 8 ∷ 16 ∷ []

-- The modes of each list have the planes of its index.
abbrev pub ArePlaced : List ℕ → Modes → Type 0
ArePlaced ps [] = Unit
ArePlaced [] (ms ∷ t) = Unit
ArePlaced (p ∷ ps) (ms ∷ t) = HavePlanes p ms × ArePlaced ps t

-- The modes have another virtual size or other planes.
abbrev pub Differ : Res → Res → Type 0
Differ r s = ¬ ((s.virt_hres ≡ r.virt_hres) × (s.virt_vres ≡ r.virt_vres) × (s.planes ≡ r.planes))

abbrev pub AllDiffer : Res → List Res → Type 0
AllDiffer r [] = Unit
AllDiffer r (s ∷ rs) = Differ r s × AllDiffer r rs

-- No two modes of the list have the same virtual size and the same planes.
abbrev pub AreDistinct : List Res → Type 0
AreDistinct [] = Unit
AreDistinct (r ∷ rs) = AllDiffer r rs × AreDistinct rs

abbrev pub AllDistinct : Modes → Type 0
AllDistinct [] = Unit
AllDistinct (ms ∷ t) = AreDistinct ms × AllDistinct t

pub add_mode-ArePlaced :
    (ps : List ℕ) (t : Modes) (i p : ℕ) (r : Res)
    → get_elem? ps i ≡ some p
    → r.planes ≡ pos p
    → ArePlaced ps t
    → ArePlaced ps (add_mode t i r)
unfolding add_mode
add_mode-ArePlaced ps [] i p r e h w = tt
add_mode-ArePlaced [] (ms ∷ t) zero p r e h w = tt
add_mode-ArePlaced [] (ms ∷ t) (suc i) p r e h w = tt
add_mode-ArePlaced (q ∷ ps) (ms ∷ t) zero p r e h w = ((ground arith, w.0), w.1)
add_mode-ArePlaced (q ∷ ps) (ms ∷ t) (suc i) p r e h w =
    (w.0, add_mode-ArePlaced ps t i p r e h w.1)

-- A mode that is added in front of the list `n` leaves the lists from there on.
pub drop-add_mode :
    (n : ℕ) (t : Modes) (i : ℕ) (r : Res) → i < n → drop n (add_mode t i r) ≡ drop n t
unfolding add_mode
drop-add_mode zero t i r h = absurd (omega arith)
drop-add_mode (suc n) [] i r h = refl
drop-add_mode (suc n) (ms ∷ t) zero r h = refl
drop-add_mode (suc n) (ms ∷ t) (suc i) r h = drop-add_mode n t i r (omega arith)

eq_ℤ_refl : (z : ℤ) → eq_ℤ z z ≡ true
eq_ℤ_refl (pos n) = ground arith
eq_ℤ_refl (negsuc n) = ground arith

eq_ℤ-same : (x y : ℤ) → eq_ℤ x y ≡ true → x ≡ y
eq_ℤ-same (pos m) (pos n) h = ground arith
eq_ℤ-same (pos m) (negsuc n) h = absurd (ground arith)
eq_ℤ-same (negsuc m) (pos n) h = absurd (ground arith)
eq_ℤ-same (negsuc m) (negsuc n) h = ground arith

and_parts : (a b c : Bool) → a && (b && c) ≡ true → (a ≡ true) × (b ≡ true) × (c ≡ true)
and_parts true b c h = (refl, ground arith, ground arith)
and_parts false b c h = absurd (ground arith)

find_in-AllDiffer :
    (r : Res) (rs : List Res) → find_in rs r.virt_hres r.virt_vres r.planes ≡ none → AllDiffer r rs
unfolding find_in
find_in-AllDiffer r [] e = tt
find_in-AllDiffer r (s ∷ rs) e =
    elim (Bool-cases
      (eq_ℤ s.virt_hres r.virt_hres && (eq_ℤ s.virt_vres r.virt_vres && eq_ℤ s.planes r.planes))) [
        | inl hit ↦ absurd (no_mode (rw hit at e))
        | inr miss ↦ (λ same. differ_from r s same miss, find_in-AllDiffer r rs (rw miss at e))
      ]
  where
    no_mode : {s : Res} → some s ≡ none → ⊥
    no_mode e = ground arith

    differ_from :
        (r s : Res)
        → (s.virt_hres ≡ r.virt_hres) × (s.virt_vres ≡ r.virt_vres) × (s.planes ≡ r.planes)
        → (eq_ℤ s.virt_hres r.virt_hres && (eq_ℤ s.virt_vres r.virt_vres && eq_ℤ s.planes r.planes))
          ≡ false
        → ⊥
    differ_from r s (a, b, c) miss =
        let hit =
          rw (a, b, c, eq_ℤ_refl r.virt_hres, eq_ℤ_refl r.virt_vres, eq_ℤ_refl r.planes) at miss in
        absurd (ground arith)

pub add_mode-AllDistinct :
    (t : Modes) (i : ℕ) (r : Res)
    → find_mode t i r.virt_hres r.virt_vres r.planes ≡ none
    → AllDistinct t
    → AllDistinct (add_mode t i r)
unfolding add_mode find_mode
add_mode-AllDistinct [] i r e d = tt
add_mode-AllDistinct (ms ∷ t) zero r e d = ((find_in-AllDiffer r ms e, d.0), d.1)
add_mode-AllDistinct (ms ∷ t) (suc i) r e d = (d.0, add_mode-AllDistinct t i r e d.1)

abbrev pub is_some : Option Res → Bool
is_some none = false
is_some (some r) = true

-- `find_mode` gives a mode.
abbrev pub present : Modes → ℕ → ℤ → ℤ → ℤ → Bool
present t i width height planes = is_some (find_mode t i width height planes)

-- A mode of the list has the virtual size and the planes.
abbrev pub Offers : List Res → ℤ → ℤ → ℤ → Type 0
Offers ms width height planes =
    (k : ℕ) × (r : Res) × (get_elem? ms k ≡ some r)
    × (r.virt_hres ≡ width)
    × (r.virt_vres ≡ height)
    × (r.planes ≡ planes)

find_in-Offers :
    (ms : List Res) (width height planes : ℤ)
    → is_some (find_in ms width height planes) ≡ true
    → Offers ms width height planes
unfolding find_in
find_in-Offers [] width height planes e = absurd (ground arith)
find_in-Offers (r ∷ ms) width height planes e =
    elim (Bool-cases
      (eq_ℤ r.virt_hres width && (eq_ℤ r.virt_vres height && eq_ℤ r.planes planes))) [
        | inl hit ↦
            let (a, b, c) =
              and_parts (eq_ℤ r.virt_hres width) (eq_ℤ r.virt_vres height) (eq_ℤ r.planes planes)
                hit in
            (
              0,
              r,
              refl,
              eq_ℤ-same r.virt_hres width a,
              eq_ℤ-same r.virt_vres height b,
              eq_ℤ-same r.planes planes c,
            )
        | inr miss ↦
            let (k, s, at, a, b, c) = find_in-Offers ms width height planes (rw miss at e) in
            (suc k, s, at, a, b, c)
      ]

pub present-Offers :
    (t : Modes) (i : ℕ) (width height planes : ℤ)
    → present t i width height planes ≡ true
    → Offers (modes_at t i) width height planes
unfolding find_mode
present-Offers t i width height planes h = find_in-Offers (modes_at t i) width height planes h

-- What is added is present.
pub present-add_mode_self :
    (t : Modes) (i : ℕ) (r : Res)
    → i < length t
    → present (add_mode t i r) i r.virt_hres r.virt_vres r.planes ≡ true
unfolding add_mode find_mode
present-add_mode_self [] i r h = absurd (omega arith)
present-add_mode_self (ms ∷ t) zero r h =
    rw (eq_ℤ_refl r.virt_hres, eq_ℤ_refl r.virt_vres, eq_ℤ_refl r.planes) refl
present-add_mode_self (ms ∷ t) (suc i) r h = present-add_mode_self t i r (omega arith)

find_in-cons :
    (r : Res) (rs : List Res) (width height planes : ℤ)
    → is_some (find_in rs width height planes) ≡ true
    → is_some (find_in (r ∷ rs) width height planes) ≡ true
unfolding find_in
find_in-cons r rs width height planes h =
    elim (Bool-cases
      (eq_ℤ r.virt_hres width && (eq_ℤ r.virt_vres height && eq_ℤ r.planes planes))) [
        | inl e ↦ rw e refl
        | inr e ↦ rw e h
      ]

-- What was present stays so.
pub present-add_mode :
    (t : Modes) (i j : ℕ) (r : Res) (width height planes : ℤ)
    → present t i width height planes ≡ true
    → present (add_mode t j r) i width height planes ≡ true
unfolding add_mode find_mode
present-add_mode [] i j r width height planes h = h
present-add_mode (ms ∷ t) zero zero r width height planes h =
    find_in-cons r ms width height planes h
present-add_mode (ms ∷ t) zero (suc j) r width height planes h = h
present-add_mode (ms ∷ t) (suc i) zero r width height planes h = h
present-add_mode (ms ∷ t) (suc i) (suc j) r width height planes h =
    present-add_mode t i j r width height planes h

module _ (virtual : Bytes) (memory : Bool) (t : Modes) (q : Request) where
  -- `create_mode` keeps the planes of each list, if it is called with the planes of its index.
  pub create_mode-ArePlaced :
      (ps : List ℕ) (p : ℕ)
      → get_elem? ps q.idx ≡ some p
      → q.depth ≡ pos p
      → ArePlaced ps t
      → ArePlaced ps (create_mode virtual memory t q)
  unfolding create_mode new_mode
  create_mode-ArePlaced ps p e h w = elim (Bool-cases memory) [
    | inl room ↦ rw room (add_mode-ArePlaced ps t q.idx p _ e h w)
    | inr full ↦ rw full w
  ]

  pub drop-create_mode : (n : ℕ) → q.idx < n → drop n (create_mode virtual memory t q) ≡ drop n t
  unfolding create_mode new_mode
  drop-create_mode n h = elim (Bool-cases memory) [
    | inl room ↦ rw room (drop-add_mode n t q.idx _ h)
    | inr full ↦ rw full refl
  ]

  pub create_mode-AllDistinct :
      find_mode t q.idx q.width q.height q.depth ≡ none
      → AllDistinct t
      → AllDistinct (create_mode virtual memory t q)
  unfolding create_mode new_mode
  create_mode-AllDistinct e d = elim (Bool-cases memory) [
    | inl room ↦ rw room (add_mode-AllDistinct t q.idx _ e d)
    | inr full ↦ rw full d
  ]
