-- ===== src/Resolution/Placed.antt =====
-- The planes of the modes that `initres_st`, `initres_tt`, `initres_falc` and `initres_saga` put at each
-- index of the table of modes.
use chgres.Base.{
  ℕ, suc, ◌≡◌, refl, ◌∙◌, ◌⊎◌, inl, inr, Bool, true, false, ◌&&◌, Option, none, some, List, [], ◌∷◌,
  arith, ltb, ◌==◌, ltb→lt, Bool-cases, Option-cases, Bytes, get_elem?, drop,
}
use chgres.Base.Int.{ℤ, pos, negsuc}
use chgres.Machine.{has_bit}
use chgres.Mode.{Modes, Request, find_mode, create_mode}
use chgres.Mode.Table.{
  valid_planes, falcon_planes, ArePlaced, create_mode-ArePlaced, drop-create_mode,
}
use chgres.Resolution.{
  SagaRes, SagaDepth, saga_resolutions, saga_depths, Monitor, mono, color, vga, tv, tt_requests,
  falc_requests, create_all, initres_st, initres_tt, initres_falc, saga_row, saga_loop,
  initres_saga,
}
use chgres.Resolution.Tables.{
  st_requests, tt_mono_requests, tt_color_requests, falc_mono_requests, falc_vga_requests,
  falc_tv_requests, saga_atari_requests,
}

abbrev fit : Option ℕ → ℤ → Bool
fit none z = false
fit (some p) (pos n) = p == n
fit (some p) (negsuc n) = false

-- Each request has the planes of its index.
abbrev all_fit : List ℕ → List Request → Bool
all_fit ps [] = true
all_fit ps (q ∷ qs) = fit (get_elem? ps q.idx) q.depth && all_fit ps qs

-- Each depth from the index `i` on is that of its index, or 0.
abbrev AreFitDepths : ℕ → List SagaDepth → Type 0
AreFitDepths i [] = Unit
AreFitDepths i (d ∷ ds) =
    ((d.bpp ≡ 0) ⊎ (get_elem? valid_planes i ≡ some d.bpp)) × AreFitDepths (suc i) ds

fit-planes : (o : Option ℕ) (z : ℤ) → fit o z ≡ true → (p : ℕ) × (o ≡ some p) × (z ≡ pos p)
fit-planes none z h = absurd (ground arith)
fit-planes (some p) (pos n) h = (p, refl, ground arith)
fit-planes (some p) (negsuc n) h = absurd (ground arith)

and-left : (a b : Bool) → a && b ≡ true → a ≡ true
and-left true b h = refl
and-left false b h = h

and-right : (a b : Bool) → a && b ≡ true → b ≡ true
and-right true b h = h
and-right false b h = absurd (ground arith)

st_requests_fit : all_fit valid_planes st_requests ≡ true
unfolding st_requests
st_requests_fit = refl

tt_requests_fit : (m : Monitor) → all_fit valid_planes (tt_requests m) ≡ true
unfolding tt_requests tt_mono_requests tt_color_requests
tt_requests_fit mono = refl
tt_requests_fit color = refl
tt_requests_fit vga = refl
tt_requests_fit tv = refl

-- Each request is for a list in front of the list `n`.
abbrev all_below : ℕ → List Request → Bool
all_below n [] = true
all_below n (q ∷ qs) = ltb q.idx n && all_below n qs

falc_requests_below : (m : Monitor) → all_below 5 (falc_requests m) ≡ true
unfolding falc_requests falc_mono_requests falc_vga_requests falc_tv_requests
falc_requests_below mono = refl
falc_requests_below color = refl
falc_requests_below vga = refl
falc_requests_below tv = refl

falc_requests_fit : (m : Monitor) → all_fit falcon_planes (falc_requests m) ≡ true
unfolding falc_requests falc_mono_requests falc_vga_requests falc_tv_requests
falc_requests_fit mono = refl
falc_requests_fit color = refl
falc_requests_fit vga = refl
falc_requests_fit tv = refl

saga_atari_requests_fit : all_fit valid_planes saga_atari_requests ≡ true
unfolding saga_atari_requests
saga_atari_requests_fit = refl

saga_depths-AreFitDepths : (fvdi : Bool) → AreFitDepths 0 (saga_depths fvdi)
unfolding saga_depths
saga_depths-AreFitDepths true = (
  inl refl,
  (inl refl, (inl refl, (inl refl, (inl refl, (inr refl, (inl refl, (inr refl, tt))))))),
)
saga_depths-AreFitDepths false = (
  inr refl,
  (inr refl, (inr refl, (inr refl, (inl refl, (inr refl, (inl refl, (inr refl, tt))))))),
)

module _ (virtual : Bytes) (memory : Modes → Bool) where
  create_all-ArePlaced :
      (ps : List ℕ) (t : Modes) (qs : List Request)
      → all_fit ps qs ≡ true
      → ArePlaced ps t
      → ArePlaced ps (create_all virtual memory t qs)
  unfolding create_all
  create_all-ArePlaced ps t [] f w = w
  create_all-ArePlaced ps t (q ∷ qs) f w =
      let fq = fit-planes (get_elem? ps q.idx) q.depth (and-left _ (all_fit ps qs) f) in
      create_all-ArePlaced ps (create_mode virtual (memory t) t q) qs
        (and-right (fit (get_elem? ps q.idx) q.depth) _ f)
        (create_mode-ArePlaced virtual (memory t) t q ps fq.0 fq.1 fq.2 w)

  drop-create_all :
      (n : ℕ) (t : Modes) (qs : List Request)
      → all_below n qs ≡ true
      → drop n (create_all virtual memory t qs) ≡ drop n t
  unfolding create_all
  drop-create_all n t [] f = refl
  drop-create_all n t (q ∷ qs) f =
      drop-create_all n (create_mode virtual (memory t) t q) qs (and-right (ltb q.idx n) _ f)
      ∙ drop-create_mode virtual (memory t) t q n (ltb→lt q.idx n (and-left _ (all_below n qs) f))

  saga_row-ArePlaced :
      (i : ℕ) (d : SagaDepth) (ss : List SagaRes) (t : Modes)
      → get_elem? valid_planes i ≡ some d.bpp
      → ArePlaced valid_planes t
      → ArePlaced valid_planes (saga_row virtual memory i d ss t)
  unfolding saga_row
  saga_row-ArePlaced i d [] t e w = w
  saga_row-ArePlaced i d (s ∷ ss) t e w =
      elim (Option-cases (find_mode t i (pos s.width) (pos s.height) (pos d.bpp))) [
        | inl h ↦ rw h (
            saga_row-ArePlaced i d ss _ e
              (create_mode-ArePlaced virtual (memory t) t _ valid_planes d.bpp e refl w))
        | inr h ↦ rw h.1 (saga_row-ArePlaced i d ss t e w)
      ]

  saga_loop-ArePlaced :
      (i : ℕ) (ds : List SagaDepth) (t : Modes)
      → AreFitDepths i ds
      → ArePlaced valid_planes t
      → ArePlaced valid_planes (saga_loop virtual memory i ds t)
  unfolding saga_loop
  saga_loop-ArePlaced i [] t f w = w
  saga_loop-ArePlaced i (d ∷ ds) t f w = elim f.0 [
    | inl z ↦ rw z (saga_loop-ArePlaced (suc i) ds t f.1 w)
    | inr e ↦ elim (Bool-cases (ltb 0 d.bpp)) [
      | inl b ↦
          rw b
            (saga_loop-ArePlaced (suc i) ds _ f.1 (saga_row-ArePlaced i d saga_resolutions t e w))
      | inr b ↦ rw b (saga_loop-ArePlaced (suc i) ds t f.1 w)
    ]
  ]

  -- If the modes of every list of the table have the planes that `valid_planes` gives for its index,
  -- they still have them when `initres_st`, `initres_tt` or `initres_saga` has filled the table, on
  -- either monitor of the TT, with or without fVDI, and wherever the memory runs out.
  pub initres-ArePlaced :
      (monitor : Monitor) (sys_vdi : ℕ) (getrez vsetmode : ℤ) (t : Modes)
      → ArePlaced valid_planes t
      → ArePlaced valid_planes (initres_st virtual memory getrez t).modes
        × ArePlaced valid_planes (initres_tt virtual memory monitor getrez t).modes
        × ArePlaced valid_planes (initres_saga virtual memory sys_vdi vsetmode t).modes
  unfolding initres_st initres_tt initres_saga
  initres-ArePlaced monitor sys_vdi getrez vsetmode t w =
      let atari =
        create_all-ArePlaced valid_planes t saga_atari_requests saga_atari_requests_fit w in
      (
        create_all-ArePlaced valid_planes t st_requests st_requests_fit w,
        create_all-ArePlaced valid_planes t (tt_requests monitor) (tt_requests_fit monitor) w,
        elim (Bool-cases (has_bit sys_vdi 3)) [
          | inl fvdi ↦
              rw fvdi (saga_loop-ArePlaced 0 (saga_depths true) t (saga_depths-AreFitDepths true) w)
          | inr bare ↦
              rw bare
                (saga_loop-ArePlaced 0 (saga_depths false) _ (saga_depths-AreFitDepths false) atari)
        ],
      )

  -- If the modes of the first five lists of the table have the planes 1, 2, 4, 8 and 16, they still
  -- have them when `initres_falc` has filled the table, on every monitor and wherever the memory runs
  -- out: its modes of 16 planes are in the list 4, whose planes are 15 in `valid_planes`. The lists from
  -- 5 on, and with them that of 16 planes, are left as they were.
  pub initres_falc-ArePlaced :
      (monitor : Monitor) (vsetmode : ℤ) (t : Modes)
      → ArePlaced falcon_planes t
      → ArePlaced falcon_planes (initres_falc virtual memory monitor vsetmode t).modes
        × (drop 5 (initres_falc virtual memory monitor vsetmode t).modes ≡ drop 5 t)
  unfolding initres_falc
  initres_falc-ArePlaced monitor vsetmode t w = (
    create_all-ArePlaced falcon_planes t (falc_requests monitor) (falc_requests_fit monitor) w,
    drop-create_all 5 t (falc_requests monitor) (falc_requests_below monitor),
  )
