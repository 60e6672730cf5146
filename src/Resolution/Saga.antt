-- ===== src/Resolution/Saga.antt =====
-- The loops of `initres_saga`: which modes they leave in the table.
use chgres.Base.{
  ℕ, zero, suc, ◌+◌, ◌≤◌, ◌<◌, ◌≡◌, refl, sym, ap, ◌∙◌, inl, inr, Bool, true, some, List, [], ◌∷◌,
  arith, ltb, lt→ltb, Bool-cases, Option-cases, Bytes, length, get_elem?, length-set, or_else,
}
use chgres.Base.Int.{ℤ, pos}
use chgres.Mode.{modes_at, Modes, find_mode, add_mode, new_mode, create_mode}
use chgres.Mode.Table.{
  AllDistinct, present, Offers, present-Offers, present-add_mode_self, present-add_mode,
  create_mode-AllDistinct,
}
use chgres.Resolution.{SagaRes, SagaDepth, saga_resolutions, saga_row, saga_loop}

module _ (virtual : Bytes) (memory : Modes → Bool) where
  saga_row-AllDistinct :
      (i : ℕ) (d : SagaDepth) (ss : List SagaRes) (t : Modes)
      → AllDistinct t
      → AllDistinct (saga_row virtual memory i d ss t)
  unfolding saga_row
  saga_row-AllDistinct i d [] t w = w
  saga_row-AllDistinct i d (s ∷ ss) t w =
      elim (Option-cases (find_mode t i (pos s.width) (pos s.height) (pos d.bpp))) [
        | inl h ↦
            rw h
              (saga_row-AllDistinct i d ss _ (create_mode-AllDistinct virtual (memory t) t _ h w))
        | inr h ↦ rw h.1 (saga_row-AllDistinct i d ss t w)
      ]

  -- If no list of the table has two modes of one virtual size and number of planes, the loops of
  -- `initres_saga` keep it so, for any depths and wherever the memory runs out.
  pub saga_loop-AllDistinct :
      (i : ℕ) (ds : List SagaDepth) (t : Modes)
      → AllDistinct t
      → AllDistinct (saga_loop virtual memory i ds t)
  unfolding saga_loop
  saga_loop-AllDistinct i [] t w = w
  saga_loop-AllDistinct i (d ∷ ds) t w = elim (Bool-cases (ltb 0 d.bpp)) [
    | inl b ↦
        rw b (saga_loop-AllDistinct (suc i) ds _ (saga_row-AllDistinct i d saga_resolutions t w))
    | inr b ↦ rw b (saga_loop-AllDistinct (suc i) ds t w)
  ]

  -- What was present stays present.
  saga_row-present :
      (i k : ℕ) (d : SagaDepth) (ss : List SagaRes) (t : Modes) (width height planes : ℤ)
      → present t k width height planes ≡ true
      → present (saga_row virtual memory i d ss t) k width height planes ≡ true
  unfolding saga_row create_mode
  saga_row-present i k d [] t width height planes h = h
  saga_row-present i k d (s ∷ ss) t width height planes h =
      elim (Option-cases (find_mode t i (pos s.width) (pos s.height) (pos d.bpp))) [
        | inl e ↦ elim (Bool-cases (memory t)) [
          | inl room ↦
              rw (e, room)
                (saga_row-present i k d ss _ width height planes
                  (present-add_mode t k i _ width height planes h))
          | inr full ↦ rw (e, full) (saga_row-present i k d ss t width height planes h)
        ]
        | inr e ↦ rw e.1 (saga_row-present i k d ss t width height planes h)
      ]

  saga_loop-present :
      (i k : ℕ) (ds : List SagaDepth) (t : Modes) (width height planes : ℤ)
      → present t k width height planes ≡ true
      → present (saga_loop virtual memory i ds t) k width height planes ≡ true
  unfolding saga_loop
  saga_loop-present i k [] t width height planes h = h
  saga_loop-present i k (d ∷ ds) t width height planes h = elim (Bool-cases (ltb 0 d.bpp)) [
    | inl b ↦ rw b (
        saga_loop-present (suc i) k ds _ width height planes
          (saga_row-present i k d saga_resolutions t width height planes h))
    | inr b ↦ rw b (saga_loop-present (suc i) k ds t width height planes h)
  ]

  length-saga_row :
      (i : ℕ) (d : SagaDepth) (ss : List SagaRes) (t : Modes)
      → length (saga_row virtual memory i d ss t) ≡ length t
  unfolding saga_row create_mode add_mode
  length-saga_row i d [] t = refl
  length-saga_row i d (s ∷ ss) t =
      elim (Option-cases (find_mode t i (pos s.width) (pos s.height) (pos d.bpp))) [
        | inl e ↦ elim (Bool-cases (memory t)) [
          | inl room ↦ rw (e, room) (length-saga_row i d ss _ ∙ length-set t i _)
          | inr full ↦ rw (e, full) (length-saga_row i d ss t)
        ]
        | inr e ↦ rw e.1 (length-saga_row i d ss t)
      ]

  module _ (room : (t : Modes) → memory t ≡ true) where
    -- Each resolution of the row is present behind it.
    saga_row_all :
        (i : ℕ) (d : SagaDepth) (ss : List SagaRes) (t : Modes) (j : ℕ) (s : SagaRes)
        → i < length t
        → get_elem? ss j ≡ some s
        → present (saga_row virtual memory i d ss t) i (pos s.width) (pos s.height) (pos d.bpp)
          ≡ true
    unfolding saga_row create_mode new_mode add_mode
    saga_row_all i d [] t j s l e = absurd (ground arith)
    saga_row_all i d (s' ∷ ss) t zero s l e =
        let p : s' ≡ s = ap (λ o. or_else o s') e in
        rw (sym p) (elim (Option-cases (find_mode t i (pos s'.width) (pos s'.height) (pos d.bpp))) [
          | inl absent ↦
              rw (absent, room t)
                (saga_row-present i i d ss _ (pos s'.width) (pos s'.height) (pos d.bpp)
                  (present-add_mode_self t i _ l))
          | inr found ↦ rw found.1 (
              saga_row-present i i d ss t (pos s'.width) (pos s'.height) (pos d.bpp)
                (rw found.1 refl))
        ])
    saga_row_all i d (s' ∷ ss) t (suc j) s l e =
        elim (Option-cases (find_mode t i (pos s'.width) (pos s'.height) (pos d.bpp))) [
          | inl absent ↦
              rw (absent, room t) (saga_row_all i d ss _ j s (rw (length-set t i) (omega arith)) e)
          | inr found ↦ rw found.1 (saga_row_all i d ss t j s l e)
        ]

    -- Each resolution is present in each depth that is used.
    saga_loop-all_present :
        (i : ℕ) (ds : List SagaDepth) (t : Modes) (k j : ℕ) (d : SagaDepth) (s : SagaRes)
        → i + length ds ≤ length t
        → get_elem? ds k ≡ some d
        → 0 < d.bpp
        → get_elem? saga_resolutions j ≡ some s
        → present (saga_loop virtual memory i ds t) (i + k) (pos s.width) (pos s.height) (pos d.bpp)
          ≡ true
    unfolding saga_loop
    saga_loop-all_present i [] t k j d s l e n m = absurd (ground arith)
    saga_loop-all_present i (d' ∷ ds) t zero j d s l e n m =
        let p : d' ≡ d = ap (λ o. or_else o d') e in
        let n' : 0 < d'.bpp = rw p n in
        let q : i + 0 ≡ i = omega arith in
        rw (sym p, lt→ltb _ _ n', q)
          (saga_loop-present (suc i) i ds _ (pos s.width) (pos s.height) (pos d'.bpp)
            (saga_row_all i d' saga_resolutions t j s (omega arith) m))
    saga_loop-all_present i (d' ∷ ds) t (suc k) j d s l e n m =
        let q : i + suc k ≡ suc i + k = omega arith in
        elim (Bool-cases (ltb 0 d'.bpp)) [
          | inl b ↦
              rw (b, q)
                (saga_loop-all_present (suc i) ds _ k j d s
                  (rw (length-saga_row i d' saga_resolutions t) (omega arith)) e n m)
          | inr b ↦ rw (b, q) (saga_loop-all_present (suc i) ds t k j d s (omega arith) e n m)
        ]

    -- If `malloc` always has room and the table has a list for each depth, then behind the loops of
    -- `initres_saga` the list of every depth that is used has a mode of the virtual size of each
    -- resolution of the SAGA, with the planes of the depth.
    pub saga_loop_all :
        (i : ℕ) (ds : List SagaDepth) (t : Modes) (k j : ℕ) (d : SagaDepth) (s : SagaRes)
        → i + length ds ≤ length t
        → get_elem? ds k ≡ some d
        → 0 < d.bpp
        → get_elem? saga_resolutions j ≡ some s
        → Offers
            (modes_at (saga_loop virtual memory i ds t) (i + k))
            (pos s.width)
            (pos s.height)
            (pos d.bpp)
    saga_loop_all i ds t k j d s l e n m =
        present-Offers (saga_loop virtual memory i ds t) (i + k) (pos s.width) (pos s.height)
          (pos d.bpp) (saga_loop-all_present i ds t k j d s l e n m)
