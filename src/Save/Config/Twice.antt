-- ===== src/Save/Config/Twice.antt =====
-- xaaes.cnf behind two runs of the routine.
use chgres.Base.{ℕ, ◌≡◌, refl, ◌∙◌, true, some, List, [], ◌∷◌, ◌++◌, arith, Bytes, length, drop}
use mathlib.Core.List.{append_assoc}
use chgres.Base.Int.{ℤ, pos}
use chgres.Base.Exec.{ok}
use chgres.CLib.{codes, print_d, print_x}
use chgres.CLib.Digits.{print_d-IsBody, print_x-IsBody, IsBody-append}
use chgres.Gemdos.{Gemdos, Call, positive}
use chgres.Mode.{Res}
use chgres.Save.Config.{save_config, xaaes_keys, xaaes_settings}
use chgres.Save.Config.Settings.{Setting, AreSet, stacked, keys_of}
use chgres.Save.Config.Laws.{save_config-AreSet}
use chgres.Save.Config.Files.{config_calls, config_calls-HasBecome}
use chgres.Text.{find_str}
use chgres.Text.Lines.{TextLine, crlf, render, AreLines}
use chgres.Text.Find.{NoMatch}
use chgres.Volume.{Volume, IsLawful, run, Serves, HasBecome}
use chgres.Volume.Rewrite.{written_over, HasBecome-trans}

abbrev pub screendev : Bytes
screendev = codes "SCREENDEV"

abbrev pub modecode : Bytes
modecode = codes "MODECODE"

-- The lines that are printed for a mode.
abbrev dev_setting : Res → Setting
dev_setting r = record {
  key = screendev;
  line = record { body = codes "SCREENDEV = " ++ print_d r.rez; eol = crlf };
}

abbrev code_setting : Res → Setting
code_setting r = record {
  key = modecode;
  line = record { body = codes "MODECODE = 0x" ++ print_x 4 r.vmode; eol = crlf };
}

abbrev pub xaaes_lines : Res → List Setting
xaaes_lines r = dev_setting r ∷ code_setting r ∷ []

xaaes_lines-stacked :
    (r : Res) (back : Bytes) → xaaes_settings r ++ back ≡ stacked (xaaes_lines r) back
unfolding xaaes_settings
xaaes_lines-stacked r back = simp append_assoc

xaaes_lines-AreSet :
    (before : List TextLine) (r : Res)
    → NoMatch screendev before
    → NoMatch modecode before
    → AreSet before (xaaes_lines r)
unfolding find_str
xaaes_lines-AreSet before r s m = (
  s,
  IsBody-append (codes "SCREENDEV = ") (print_d r.rez) (omega arith) (print_d-IsBody r.rez),
  refl,
  (
    m,
    IsBody-append (codes "MODECODE = 0x") (print_x 4 r.vmode) (omega arith)
        (print_x-IsBody 4 r.vmode),
    refl,
    tt,
  ),
)

-- What the file holds behind a run: new lines, the text behind them, and the old end that stays.
abbrev pub rest_of : Bytes → Bytes → Bytes → Bytes → Bytes
rest_of front settings back old = back ++ drop (length (front ++ (settings ++ back))) old

written_over-stacked :
    (front back old : Bytes) (r : Res)
    → written_over (front ++ (xaaes_settings r ++ back)) old
      ≡ front ++ stacked (xaaes_lines r) (rest_of front (xaaes_settings r) back old)
unfolding written_over
written_over-stacked front back old r =
    rw (← xaaes_lines-stacked r (rest_of front (xaaes_settings r) back old)) (simp append_assoc)

module _ {S : Type 0} {v : Volume S} (lawful : IsLawful v) where
  -- On a volume that obeys the laws, modes `r` and then `q` are saved: if lines that follow one
  -- another set SCREENDEV and MODECODE, with more text behind them, no line before them does, and the
  -- file can be read and opened both times, then the second run finds the lines of the first, and
  -- puts those of `q` in their place; the text in front of them and behind them stays, and the old
  -- end that the first run left, and where the new text is shorter, the last bytes of that of the
  -- first run. No other file has changed.
  pub save_config_twice :
      (os os' : Gemdos) (s : S) (sn sn' : ℤ) (path : Bytes) (r q : Res) (before : List TextLine)
      (k : Setting) (ks : List Setting) (c : ℕ) (rest old text : Bytes)
      → AreLines before
      → AreSet before (k ∷ ks)
      → keys_of (k ∷ ks) ≡ xaaes_keys
      → NoMatch screendev before
      → NoMatch modecode before
      → old ≡ render before ++ stacked (k ∷ ks) (c ∷ rest)
      → text ≡ written_over (render before ++ (xaaes_settings r ++ c ∷ rest)) old
      → v.content s path ≡ some old
      → Serves v os s path
      → positive (os.fopen path 1) ≡ true
      → Serves v os'
          (run v os s (config_calls os path (xaaes_settings r) (render before) (c ∷ rest)))
          path
      → positive (os'.fopen path 1) ≡ true
      → (calls : List Call) × (save_config os sn path xaaes_keys (xaaes_settings r) []
          ≡ ok (pos 1, config_calls os path (xaaes_settings r) (render before) (c ∷ rest)))
        × (save_config os' sn' path xaaes_keys (xaaes_settings q) [] ≡ ok (pos 1, calls))
        × HasBecome v s
            (run v os'
              (run v os s (config_calls os path (xaaes_settings r) (render before) (c ∷ rest)))
              calls)
            path
            (written_over
              (render before
                ++ (xaaes_settings q ++ rest_of (render before) (xaaes_settings r) (c ∷ rest) old))
              text)
  save_config_twice os os' s sn sn' path r q before k ks c rest old text bs are keys no_dev no_code
        old_is text_is holds serves opens serves' opens' =
      let front = render before in
      let back = c ∷ rest in
      let one =
        config_calls-HasBecome lawful os s path (xaaes_settings r) front back old holds opens in
      let s1 = run v os s (config_calls os path (xaaes_settings r) front back) in
      let now : v.content s1 path ≡ some text = rw text_is one.this in
      let stacked_is : text
          ≡ front ++ stacked (xaaes_lines r) (rest_of front (xaaes_settings r) back old) =
        text_is ∙ written_over-stacked front back old r in
      let more = rest_of front (xaaes_settings r) back old in
      let two =
        config_calls-HasBecome lawful os' s1 path (xaaes_settings q) front more text now opens' in
      let first =
        save_config-AreSet os sn path (xaaes_settings r) before k ks c rest bs are
          (rw old_is at (serves old holds)) opens in
      let second =
        save_config-AreSet os' sn' path (xaaes_settings q) before (dev_setting r)
          (code_setting r ∷ []) c (rest ++ drop (length (front ++ (xaaes_settings r ++ back))) old)
          bs (xaaes_lines-AreSet before r no_dev no_code) (rw stacked_is at (serves' text now))
          opens' in
      (
        config_calls os' path (xaaes_settings q) front more,
        rw keys at first,
        second,
        HasBecome-trans one two,
      )
