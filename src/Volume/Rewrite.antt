-- ===== src/Volume/Rewrite.antt =====
-- What a file holds when pieces have been written to it one behind the other: in a new file, and over an
-- old one, whose end stays.
use chgres.Base.{
  ℕ, zero, suc, ◌≤◌, ◌≡◌, refl, ◌∙◌, true, false, some, List, [], ◌∷◌, ◌++◌, arith, Bytes, length,
  drop, length-append,
}
use mathlib.Core.List.{append_assoc, append-nil}
use chgres.Base.Int.{ℤ}
use chgres.Gemdos.{Gemdos, Call, opened, created, written, closed, positive}
use chgres.Gemdos.Load.{load_calls}
use chgres.Gemdos.Copy.{spliced, take_of, drop_of, drop-drop}
use chgres.Volume.{Volume, IsLawful, run, run-append, HasBecome}

abbrev pub concat : List Bytes → Bytes
concat [] = []
concat (b ∷ bs) = b ++ concat bs

-- One `Fwrite` for each piece.
abbrev pub writes : ℤ → List Bytes → List Call
writes fd [] = []
writes fd (b ∷ bs) = written fd b ∷ writes fd bs

-- The bytes `text` are written over the beginning of `old`.
unfoldable pub written_over : Bytes → Bytes → Bytes
written_over text old = text ++ drop (length text) old

drop-nothing : (k : ℕ) → drop {A = ℕ} k [] ≡ []
drop-nothing zero = refl
drop-nothing (suc k) = refl

new_file : {text : Bytes} → written_over text [] ≡ text
unfolding written_over
new_file {text} = rw (drop-nothing (length text)) (append-nil text)

spliced_end :
    (text old b : Bytes)
    → spliced (written_over text old) (length text) b ≡ written_over (text ++ b) old
unfolding written_over
spliced_end text old b =
    rw
      (
        take_of (length text) text (drop (length text) old) refl,
        drop-drop (length text) (length b) (text ++ drop (length text) old),
        drop_of (length text) text (drop (length text) old) refl,
        ← drop-drop (length text) (length b) old,
        length-append text b,
      )
      (simp append_assoc)

pub HasBecome-trans :
    {S : Type 0} {v : Volume S} {s1 s2 s3 : S} {n text new : Bytes}
    → HasBecome v s1 s2 n text
    → HasBecome v s2 s3 n new
    → HasBecome v s1 s3 n new
HasBecome-trans a b = record { this = b.this; others = λ m e. b.others m e ∙ a.others m e }

module _ {S : Type 0} {v : Volume S} (lawful : IsLawful v) (os : Gemdos) where
  -- The file `n` is open as `fd`, and `text` has been written to it.
  pub record Stands (s0 s : S) (fd : ℤ) (n text old : Bytes) : Type 0 where
    pub open_at : v.handle s fd ≡ some (n, length text)
    pub holds : v.content s n ≡ some (written_over text old)
    pub others : (m : Bytes) → v.same m n ≡ false → v.content s m ≡ v.content s0 m

  length-written_over : (text old : Bytes) → length text ≤ length (written_over text old)
  unfolding written_over
  length-written_over text old = omega (arith, length-append text (drop (length text) old))

  Stands-written :
      (s0 s : S) (fd : ℤ) (n text old b : Bytes)
      → Stands s0 s fd n text old
      → Stands s0 (v.step os s (written fd b)) fd n (text ++ b) old
  Stands-written s0 s fd n text old b w =
      let content = λ (m : Bytes).
        lawful.content-written os s fd b n (written_over text old) (length text) m w.open_at w.holds
          (length-written_over text old) in
      record {
        open_at = rw length-append (lawful.handle-written os s fd b n (length text) w.open_at);
        holds = content n ∙ rw (lawful.same_refl n, spliced_end text old b) refl;
        others = λ m e. content m ∙ rw e (w.others m e);
      }

  Stands-writes :
      (s0 s : S) (fd : ℤ) (n text old : Bytes) (bs : List Bytes)
      → Stands s0 s fd n text old
      → Stands s0 (run v os s (writes fd bs)) fd n (text ++ concat bs) old
  unfolding run
  Stands-writes s0 s fd n text old [] w = rw append-nil w
  Stands-writes s0 s fd n text old (b ∷ bs) w =
      let one = Stands-written s0 s fd n text old b w in
      let all = Stands-writes s0 (v.step os s (written fd b)) fd n (text ++ b) old bs one in
      rw append_assoc at all

  -- Nothing is written any more.
  Stands-closed :
      (s0 s : S) (fd : ℤ) (n text old : Bytes)
      → Stands s0 s fd n text old
      → HasBecome v s0 (v.step os s (closed fd)) n (written_over text old)
  Stands-closed s0 s fd n text old w = record {
    this = lawful.content-closed os s fd n ∙ w.holds;
    others = λ m e. lawful.content-closed os s fd m ∙ w.others m e;
  }

  written_closed :
      (s0 s : S) (fd : ℤ) (n old : Bytes) (bs : List Bytes)
      → Stands s0 s fd n [] old
      → HasBecome v s0
          (run v os s (writes fd bs ++ closed fd ∷ []))
          n
          (written_over (concat bs) old)
  unfolding run
  written_closed s0 s fd n old bs w = rw (run-append v os s (writes fd bs) (closed fd ∷ [])) (
      Stands-closed s0 (run v os s (writes fd bs)) fd n (concat bs) old
        (Stands-writes s0 s fd n [] old bs w))

  -- `load_file` leaves the files as they are.
  load_calls_lem :
      (s : S) (n m : Bytes) → v.content (run v os s (load_calls os n)) m ≡ v.content s m
  unfolding run
  load_calls_lem s n m =
      lawful.content-closed os (v.step os s (opened n 0)) (os.fopen n 0) m
      ∙ lawful.content-opened os s n 0 m

  pub HasBecome-load :
      (s : S) (name n text : Bytes) (cs : List Call)
      → HasBecome v
          (run v os s (load_calls os name))
          (run v os (run v os s (load_calls os name)) cs)
          n
          text
      → HasBecome v s (run v os s (load_calls os name ++ cs)) n text
  HasBecome-load s name n text cs w =
      rw (run-append v os s (load_calls os name) cs)
        (record { this = w.this; others = λ m e. w.others m e ∙ load_calls_lem s name m })

  -- A file that is loaded, created anew and written in pieces holds the pieces.
  pub created-HasBecome :
      (s : S) (n : Bytes) (bs : List Bytes)
      → positive (os.fcreate n) ≡ true
      → HasBecome v s
          (run v os s (
            load_calls os n
            ++ (created n ∷ writes (os.fcreate n) bs ++ closed (os.fcreate n) ∷ [])))
          n
          (concat bs)
  unfolding run written_over
  created-HasBecome s n bs p =
      let s1 = run v os s (load_calls os n) in
      let fd = os.fcreate n in
      let new : Stands s1 (v.step os s1 (created n)) fd n [] [] = record {
        open_at = lawful.handle-created os s1 n p;
        holds = lawful.content-created os s1 n n p ∙ rw (lawful.same_refl n) refl;
        others = λ m e. lawful.content-created os s1 n m p ∙ rw e refl;
      } in
      let done = written_closed s1 (v.step os s1 (created n)) fd n [] bs new in
      HasBecome-load s n n (concat bs) (created n ∷ writes fd bs ++ closed fd ∷ [])
        (rw new_file at done)

  -- A file that is loaded, opened and written in pieces keeps what they do not reach.
  pub opened-HasBecome :
      (s : S) (n old : Bytes) (bs : List Bytes)
      → v.content s n ≡ some old
      → positive (os.fopen n 1) ≡ true
      → HasBecome v s
          (run v os s (
            load_calls os n
            ++ (opened n 1 ∷ writes (os.fopen n 1) bs ++ closed (os.fopen n 1) ∷ [])))
          n
          (written_over (concat bs) old)
  unfolding run written_over
  opened-HasBecome s n old bs c p =
      let s1 = run v os s (load_calls os n) in
      let fd = os.fopen n 1 in
      let new : Stands s1 (v.step os s1 (opened n 1)) fd n [] old = record {
        open_at = lawful.handle-opened os s1 n 1 p;
        holds = lawful.content-opened os s1 n 1 n ∙ load_calls_lem s n n ∙ c;
        others = λ m e. lawful.content-opened os s1 n 1 m;
      } in
      HasBecome-load s n n (written_over (concat bs) old)
        (opened n 1 ∷ writes fd bs ++ closed fd ∷ [])
        (written_closed s1 (v.step os s1 (opened n 1)) fd n old bs new)
