-- ===== src/Gemdos/Load.antt =====
-- `load_file` where every call answers as for a file that can be read, and where it fails.
use chgres.Base.{◌≡◌, true, false, none, some, List, [], ◌∷◌, ◌++◌, arith, Bytes, length}
use mathlib.Core.List.{append_assoc}
use chgres.Base.Exec.{ok}
use chgres.Gemdos.{Gemdos, Call, opened, closed, positive, load_file}

-- The file `name` can be read and holds `buf`.
pub record Loads (os : Gemdos) (name buf : Bytes) : Type 0 where
  pub open_ok : positive (os.fopen name 0) ≡ true
  pub size_is : os.fseek_end (os.fopen name 0) ≡ length buf
  pub memory : os.malloc (length buf) ≡ true
  pub content : os.fread (os.fopen name 0) (length buf) ≡ some buf

-- The calls that `load_file` makes for a file that can be opened.
abbrev pub load_calls : Gemdos → Bytes → List Call
load_calls os name = opened name 0 ∷ closed (os.fopen name 0) ∷ []

pub load_file_behind :
    (os : Gemdos) (name buf : Bytes) (old : List Call)
    → Loads os name buf
    → load_file os name old ≡ ok (some buf, old ++ load_calls os name)
unfolding load_file
load_file_behind os name buf old h =
    rw (h.open_ok, h.size_is, h.memory, h.content, append_assoc) (ground arith)

pub load_file-Loads :
    (os : Gemdos) (name buf : Bytes)
    → Loads os name buf
    → load_file os name [] ≡ ok (some buf, load_calls os name)
load_file-Loads os name buf h = load_file_behind os name buf [] h

-- A file that cannot be opened.
pub load_file_closed :
    (os : Gemdos) (name : Bytes)
    → positive (os.fopen name 0) ≡ false
    → load_file os name [] ≡ ok (none, opened name 0 ∷ [])
unfolding load_file
load_file_closed os name h = rw h
