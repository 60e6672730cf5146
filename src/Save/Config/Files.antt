-- ===== src/Save/Config/Files.antt =====
-- The configuration file behind a run of `save_xaaes_inf` or `save_myaes_inf`.
use chgres.Base.{ℕ, ◌≡◌, refl, true, some, List, [], ◌∷◌, ◌++◌, Bytes}
use mathlib.Core.List.{append-nil}
use chgres.Base.Int.{ℤ, pos}
use chgres.Base.Exec.{ok}
use chgres.Gemdos.Load.{load_calls}
use chgres.Gemdos.{opened, Gemdos, Call, positive, written, closed}
use chgres.Save.Config.{save_config, front_write}
use chgres.Save.Config.Laws.{save_config-AreSet}
use chgres.Save.Config.Settings.{Setting, AreSet, stacked, keys_of}
use chgres.Text.Lines.{TextLine, render, AreLines}
use chgres.Volume.{Volume, IsLawful, run, Serves, HasBecome}
use chgres.Volume.Rewrite.{concat, writes, written_over, opened-HasBecome}

-- The pieces that are written.
abbrev pieces : Bytes → Bytes → Bytes → List Bytes
pieces [] settings back = settings ∷ back ∷ []
pieces (c ∷ s) settings back = (c ∷ s) ∷ settings ∷ back ∷ []

concat-pieces :
    (front settings back : Bytes)
    → concat (pieces front settings back) ≡ front ++ (settings ++ back)
concat-pieces [] settings back = rw append-nil refl
concat-pieces (c ∷ s) settings back = rw append-nil refl

writes-pieces :
    (fd : ℤ) (front settings back : Bytes)
    → writes fd (pieces front settings back) ++ closed fd ∷ []
      ≡ front_write fd front ++ (written fd settings ∷ written fd back ∷ closed fd ∷ [])
writes-pieces fd [] settings back = refl
writes-pieces fd (c ∷ s) settings back = refl

-- The calls of a run that finds the keys.
abbrev pub config_calls : Gemdos → Bytes → Bytes → Bytes → Bytes → List Call
config_calls os path settings front back =
    load_calls os path
    ++ (opened path 1 ∷ front_write (os.fopen path 1) front
        ++ (written (os.fopen path 1) settings
            ∷ written (os.fopen path 1) back
            ∷ closed (os.fopen path 1)
            ∷ []))

module _ {S : Type 0} {v : Volume S} (lawful : IsLawful v) where
  pub config_calls-HasBecome :
      (os : Gemdos) (s : S) (path settings front back old : Bytes)
      → v.content s path ≡ some old
      → positive (os.fopen path 1) ≡ true
      → HasBecome v s
          (run v os s (config_calls os path settings front back))
          path
          (written_over (front ++ (settings ++ back)) old)
  config_calls-HasBecome os s path settings front back old holds opens =
      let become = opened-HasBecome lawful os s path old (pieces front settings back) holds opens in
      rw (concat-pieces front settings back, writes-pieces (os.fopen path 1) front settings back) at
        become

  -- On a volume that obeys the laws: if the keys are set by lines that follow one another, with more
  -- text behind them, and no line before them sets a key, and the file can be read and opened, then
  -- behind the run it holds the new settings in the place of these lines, and else what it held;
  -- where that is shorter than before, the last bytes of the old file stay behind it. No other file
  -- has changed.
  pub save_config-HasBecome :
      (os : Gemdos) (s : S) (sn : ℤ) (path settings : Bytes) (before : List TextLine) (k : Setting)
      (ks : List Setting) (c : ℕ) (rest : Bytes)
      → AreLines before
      → AreSet before (k ∷ ks)
      → v.content s path ≡ some (render before ++ stacked (k ∷ ks) (c ∷ rest))
      → Serves v os s path
      → positive (os.fopen path 1) ≡ true
      → (calls : List Call) × (save_config os sn path (keys_of (k ∷ ks)) settings []
          ≡ ok (pos 1, calls))
        × HasBecome v s (run v os s calls) path (
            written_over
              (render before ++ (settings ++ c ∷ rest))
              (render before ++ stacked (k ∷ ks) (c ∷ rest)))
  save_config-HasBecome os s sn path settings before k ks c rest bs are holds serves opens =
      let old = render before ++ stacked (k ∷ ks) (c ∷ rest) in
      (
        config_calls os path settings (render before) (c ∷ rest),
        save_config-AreSet os sn path settings before k ks c rest bs are (serves old holds) opens,
        config_calls-HasBecome os s path settings (render before) (c ∷ rest) old holds opens,
      )
