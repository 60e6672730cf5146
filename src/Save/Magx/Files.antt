-- ===== src/Save/Magx/Files.antt =====
-- MAGX.INF behind a run of `save_magx_inf`, and behind two of them.
use chgres.Base.{ℕ, ◌≡◌, true, some, List, [], ◌∷◌, ◌++◌, Bytes}
use mathlib.Core.List.{append-nil}
use chgres.Base.Int.{pos}
use chgres.Base.Exec.{ok}
use chgres.Gemdos.{Gemdos, Call, positive}
use chgres.Mode.{Res}
use chgres.Save.Magx.{mode_line, save_magx_inf}
use chgres.Save.Magx.Laws.{magx_calls, save_magx_inf-replaced, save_magx_inf_again}
use chgres.Save.Magx.Steps.{magx_inf, dev}
use chgres.Text.Lines.{IsBody, TextLine, render, AreLines}
use chgres.Text.Find.{matches, NoMatch}
use chgres.Text.Whole.{around}
use chgres.Volume.{Volume, IsLawful, run, Serves, HasBecome}
use chgres.Volume.Rewrite.{created-HasBecome, HasBecome-trans}

module _ {S : Type 0} {v : Volume S} (lawful : IsLawful v) where
  pub magx_calls-HasBecome :
      (os : Gemdos) (s : S) (r : Res) (front back : Bytes)
      → positive (os.fcreate magx_inf) ≡ true
      → HasBecome v s
          (run v os s (magx_calls os r front back))
          magx_inf
          (front ++ (mode_line r ++ back))
  magx_calls-HasBecome os s r front back opens =
      let done = created-HasBecome lawful os s magx_inf (front ∷ mode_line r ∷ back ∷ []) opens in
      rw (append-nil back) at done

  -- On a volume that obeys the laws: if MAGX.INF holds a line that begins with "#_DEV", which is not
  -- the last, and can be read and created, then behind `save_magx_inf` it holds the line of the mode
  -- in the place of the first such line, and else what it held; no other file has changed.
  pub save_magx_inf-HasBecome :
      (os : Gemdos) (s : S) (r : Res) (before : List TextLine) (l : TextLine) (c : ℕ) (rest : Bytes)
      → AreLines before
      → NoMatch dev before
      → IsBody l.body
      → matches dev l ≡ true
      → v.content s magx_inf ≡ some (around (render before) l (c ∷ rest))
      → Serves v os s magx_inf
      → positive (os.fcreate magx_inf) ≡ true
      → (calls : List Call) × (save_magx_inf os r [] ≡ ok (pos 1, calls))
        × HasBecome v s (run v os s calls) magx_inf (render before ++ (mode_line r ++ c ∷ rest))
  save_magx_inf-HasBecome os s r before l c rest bs ns body hit holds serves opens = (
    magx_calls os r (render before) (c ∷ rest),
    save_magx_inf-replaced os r before l c rest bs ns body hit
        (serves (around (render before) l (c ∷ rest)) holds) opens,
    magx_calls-HasBecome os s r (render before) (c ∷ rest) opens,
  )

  -- On a volume that obeys the laws, a mode `q` is saved behind a mode `r`: if MAGX.INF holds a line
  -- that begins with "#_DEV", which is not the last, and can be read and created both times, then it
  -- holds in the end what it would hold if only `q` had been saved, and no other file has changed.
  pub save_magx_inf_twice :
      (os os' : Gemdos) (s : S) (r q : Res) (before : List TextLine) (l : TextLine) (c : ℕ)
      (rest : Bytes)
      → AreLines before
      → NoMatch dev before
      → IsBody l.body
      → matches dev l ≡ true
      → v.content s magx_inf ≡ some (around (render before) l (c ∷ rest))
      → Serves v os s magx_inf
      → positive (os.fcreate magx_inf) ≡ true
      → Serves v os' (run v os s (magx_calls os r (render before) (c ∷ rest))) magx_inf
      → positive (os'.fcreate magx_inf) ≡ true
      → (calls : List Call) × (save_magx_inf os r []
          ≡ ok (pos 1, magx_calls os r (render before) (c ∷ rest)))
        × (save_magx_inf os' q [] ≡ ok (pos 1, calls))
        × HasBecome v s
            (run v os' (run v os s (magx_calls os r (render before) (c ∷ rest))) calls)
            magx_inf
            (render before ++ (mode_line q ++ c ∷ rest))
  save_magx_inf_twice os os' s r q before l c rest bs ns body hit holds serves opens serves'
        opens' =
      let one = magx_calls-HasBecome os s r (render before) (c ∷ rest) opens in
      let s1 = run v os s (magx_calls os r (render before) (c ∷ rest)) in
      let two = magx_calls-HasBecome os' s1 q (render before) (c ∷ rest) opens' in
      (
        magx_calls os' q (render before) (c ∷ rest),
        save_magx_inf-replaced os r before l c rest bs ns body hit
            (serves (around (render before) l (c ∷ rest)) holds) opens,
        save_magx_inf_again os' r q before c rest bs ns (serves' _ one.this) opens',
        HasBecome-trans one two,
      )
