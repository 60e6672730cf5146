-- ===== src/Volume.antt =====
-- The files behind the calls of GEMDOS that save.c and res.c make: what a call does to the contents of
-- the files and to the position of an open one, as its documentation has it. The state is unknown.
pub mod Memory
pub mod Rewrite
pub mod Edit
use chgres.Base.{
  ℕ, zero, suc, ◌+◌, ◌-◌, ◌*◌, ◌/◌, ◌%◌, ◌^◌, ◌≤◌, ◌<◌, min, ◌≡◌, refl, sym, ap, ◌∙◌, ◌≢◌, ◌↔◌, ◌⊎◌,
  inl, inr, Bool, true, false, not, ◌&&◌, ◌||◌, Option, none, some, List, [], ◌∷◌, ◌++◌, map, arith,
  ltb, leb, ◌==◌, if◌then◌else◌, ltb→lt, lt→ltb, leb→le, ==_iff, Bool-cases, Option-cases, Bytes,
  length, get_elem?, set, get_or, take, drop, replicate, length-append, length-set,
  get_elem?-set_self, get_elem?-set_ne, take-append-drop, length-take, length-drop,
  length-replicate, length-map, tests, or_else,
}
use chgres.Base.Int.{ℤ, pos}
use chgres.Gemdos.{Gemdos, Call, opened, created, sought, written, closed, positive}
use chgres.Gemdos.Load.{Loads}
use chgres.Gemdos.Copy.{spliced}

-- `content` is `none` for a file that is not there; `same` says which names are for the same file (in
-- capitals, with the drive and the directory or without); `handle` is the file and the position behind a
-- handle that is open; `step` is one call, with the handles that `Gemdos` answers.
pub record Volume (S : Type 0) : Type 0 where
  pub content : S → Bytes → Option Bytes
  pub same : Bytes → Bytes → Bool
  pub handle : S → ℤ → Option (Bytes × ℕ)
  pub step : Gemdos → S → Call → S

-- What is documented: `Fopen` keeps the files, and `Fcreate` empties one; both stand at the start of it.
-- `Fwrite` puts its bytes over those at the position, `Fseek` goes to one that is inside the file, and
-- `Fclose` keeps the files.
pub record IsLawful {S : Type 0} (v : Volume S) : Type 0 where
  pub same_refl : (n : Bytes) → v.same n n ≡ true
  pub content-opened :
      (os : Gemdos) (s : S) (n : Bytes) (mode : ℕ) (m : Bytes)
      → v.content (v.step os s (opened n mode)) m ≡ v.content s m
  pub handle-opened :
      (os : Gemdos) (s : S) (n : Bytes) (mode : ℕ)
      → positive (os.fopen n mode) ≡ true
      → v.handle (v.step os s (opened n mode)) (os.fopen n mode) ≡ some (n, 0)
  pub content-created :
      (os : Gemdos) (s : S) (n m : Bytes)
      → positive (os.fcreate n) ≡ true
      → v.content (v.step os s (created n)) m ≡ (if v.same m n then some [] else v.content s m)
  pub handle-created :
      (os : Gemdos) (s : S) (n : Bytes)
      → positive (os.fcreate n) ≡ true
      → v.handle (v.step os s (created n)) (os.fcreate n) ≡ some (n, 0)
  pub content-written :
      (os : Gemdos) (s : S) (fd : ℤ) (bytes n old : Bytes) (k : ℕ) (m : Bytes)
      → v.handle s fd ≡ some (n, k)
      → v.content s n ≡ some old
      → k ≤ length old
      → v.content (v.step os s (written fd bytes)) m
        ≡ (if v.same m n then some (spliced old k bytes) else v.content s m)
  pub handle-written :
      (os : Gemdos) (s : S) (fd : ℤ) (bytes n : Bytes) (k : ℕ)
      → v.handle s fd ≡ some (n, k)
      → v.handle (v.step os s (written fd bytes)) fd ≡ some (n, k + length bytes)
  pub content-sought :
      (os : Gemdos) (s : S) (fd : ℤ) (k : ℕ) (m : Bytes)
      → v.content (v.step os s (sought fd k)) m ≡ v.content s m
  pub handle-sought :
      (os : Gemdos) (s : S) (fd : ℤ) (n old : Bytes) (k j : ℕ)
      → v.handle s fd ≡ some (n, k)
      → v.content s n ≡ some old
      → j ≤ length old
      → v.handle (v.step os s (sought fd j)) fd ≡ some (n, j)
  pub content-closed :
      (os : Gemdos) (s : S) (fd : ℤ) (m : Bytes)
      → v.content (v.step os s (closed fd)) m ≡ v.content s m

module _ {S : Type 0} (v : Volume S) where
  -- The calls of a run, one behind the other.
  unfoldable pub run : Gemdos → S → List Call → S
  run os s [] = s
  run os s (c ∷ cs) = run os (v.step os s c) cs

  -- The answers of `os` are those for the file `n` as it is, and it can be read.
  abbrev pub Serves : Gemdos → S → Bytes → Type 0
  Serves os s n = (text : Bytes) → v.content s n ≡ some text → Loads os n text

  -- Only the file `n` has changed, and holds `text`.
  pub record HasBecome (s s' : S) (n text : Bytes) : Type 0 where
    pub this : v.content s' n ≡ some text
    pub others : (m : Bytes) → v.same m n ≡ false → v.content s' m ≡ v.content s m

  pub run-append :
      (os : Gemdos) (s : S) (cs ds : List Call) → run os s (cs ++ ds) ≡ run os (run os s cs) ds
  unfolding run
  run-append os s [] ds = refl
  run-append os s (c ∷ cs) ds = run-append os (v.step os s c) cs ds
