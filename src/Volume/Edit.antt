-- ===== src/Volume/Edit.antt =====
-- What a file holds when bytes have been written to places inside it, by `Fseek` and `Fwrite`.
use chgres.Base.{
  ℕ, ◌+◌, ◌≤◌, ◌≡◌, refl, ◌∙◌, true, false, some, List, [], ◌∷◌, ◌++◌, arith, Bytes, length,
}
use chgres.Base.Int.{ℤ}
use chgres.Gemdos.{Gemdos, Call, opened, sought, written, closed, positive}
use chgres.Gemdos.Copy.{spliced, spliced-Patched}
use chgres.Volume.{Volume, IsLawful, run, run-append, HasBecome}

-- One `Fseek` and one `Fwrite` for each place.
abbrev pub edits : ℤ → List (ℕ × Bytes) → List Call
edits fd [] = []
edits fd ((k, b) ∷ es) = sought fd k ∷ written fd b ∷ edits fd es

abbrev pub edited : List (ℕ × Bytes) → Bytes → Bytes
edited [] text = text
edited ((k, b) ∷ es) text = edited es (spliced text k b)

-- Each of them is inside the file.
abbrev pub AllFit : List (ℕ × Bytes) → ℕ → Type 0
AllFit [] size = Unit
AllFit ((k, b) ∷ es) size = (k + length b ≤ size) × AllFit es size

pub length-spliced :
    (p : Bytes) (at : ℕ) (s : Bytes) → at + length s ≤ length p → length (spliced p at s) ≡ length p
length-spliced p at s h = (spliced-Patched p at s h).same_length

module _ {S : Type 0} {v : Volume S} (lawful : IsLawful v) (os : Gemdos) where
  -- The file `n` is open as `fd`, and holds `text`.
  record IsOpen (s0 s : S) (fd : ℤ) (n text : Bytes) : Type 0 where
    pub place : ℕ
    pub open_at : v.handle s fd ≡ some (n, place)
    pub holds : v.content s n ≡ some text
    pub others : (m : Bytes) → v.same m n ≡ false → v.content s m ≡ v.content s0 m

  IsOpen-edit :
      (s0 s : S) (fd : ℤ) (n text : Bytes) (k : ℕ) (b : Bytes)
      → k + length b ≤ length text
      → IsOpen s0 s fd n text
      → IsOpen s0 (v.step os (v.step os s (sought fd k)) (written fd b)) fd n (spliced text k b)
  IsOpen-edit s0 s fd n text k b fits w =
      let s1 = v.step os s (sought fd k) in
      let there = lawful.handle-sought os s fd n text w.place k w.open_at w.holds (omega arith) in
      let same = λ (m : Bytes). lawful.content-sought os s fd k m in
      let content = λ (m : Bytes).
        lawful.content-written os s1 fd b n text k m there (same n ∙ w.holds) (omega arith) in
      record {
        place = k + length b;
        open_at = lawful.handle-written os s1 fd b n k there;
        holds = content n ∙ rw (lawful.same_refl n) refl;
        others = λ m e. content m ∙ rw e (same m ∙ w.others m e);
      }

  IsOpen-edits :
      (s0 s : S) (fd : ℤ) (n text : Bytes) (es : List (ℕ × Bytes))
      → AllFit es (length text)
      → IsOpen s0 s fd n text
      → IsOpen s0 (run v os s (edits fd es)) fd n (edited es text)
  unfolding run
  IsOpen-edits s0 s fd n text [] fits w = w
  IsOpen-edits s0 s fd n text ((k, b) ∷ es) (fit, fits) w =
      IsOpen-edits s0 (v.step os (v.step os s (sought fd k)) (written fd b)) fd n (spliced text k b)
        es (rw (length-spliced text k b fit) fits) (IsOpen-edit s0 s fd n text k b fit w)

  -- A file that is opened and edited holds the new bytes in their places, and else what it held.
  pub edited-HasBecome :
      (s : S) (n text : Bytes) (es : List (ℕ × Bytes))
      → v.content s n ≡ some text
      → AllFit es (length text)
      → positive (os.fopen n 1) ≡ true
      → HasBecome v s
          (run v os s (opened n 1 ∷ edits (os.fopen n 1) es ++ closed (os.fopen n 1) ∷ []))
          n
          (edited es text)
  unfolding run
  edited-HasBecome s n text es holds fits p =
      let s1 = v.step os s (opened n 1) in
      let fd = os.fopen n 1 in
      let first : IsOpen s s1 fd n text = record {
        place = 0;
        open_at = lawful.handle-opened os s n 1 p;
        holds = lawful.content-opened os s n 1 n ∙ holds;
        others = λ m e. lawful.content-opened os s n 1 m;
      } in
      let w = IsOpen-edits s s1 fd n text es fits first in
      let s2 = run v os s1 (edits fd es) in
      rw (run-append v os s1 (edits fd es) (closed fd ∷ [])) (record {
        this = lawful.content-closed os s2 fd n ∙ w.holds;
        others = λ m e. lawful.content-closed os s2 fd m ∙ w.others m e;
      })
