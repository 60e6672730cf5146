-- ===== src/Volume/Memory.antt =====
-- A volume in memory: it obeys the laws.
use chgres.Base.{
  ℕ, ◌+◌, ◌≡◌, refl, true, Option, none, some, [], ◌∷◌, arith, if◌then◌else◌, Bytes, length,
}
use chgres.Base.Int.{ℤ, pos, negsuc}
use chgres.CLib.{str_eq}
use chgres.Gemdos.{Gemdos, Call, opened, created, sought, written, closed, positive}
use chgres.Gemdos.Copy.{spliced}
use chgres.Mode.{eq_ℤ}
use chgres.Volume.{Volume, IsLawful}

pub record Files : Type 0 where
  pub files : Bytes → Option Bytes
  pub handles : ℤ → Option (Bytes × ℕ)

abbrev with_file : Bytes → Option Bytes → (Bytes → Option Bytes) → Bytes → Option Bytes
with_file n c files m = if str_eq m n then c else files m

abbrev with_handle : ℤ → Option (Bytes × ℕ) → (ℤ → Option (Bytes × ℕ)) → ℤ → Option (Bytes × ℕ)
with_handle fd h handles x = if eq_ℤ x fd then h else handles x

abbrev put_at : Bytes → Option Bytes → ℕ → Bytes → (Bytes → Option Bytes) → Bytes → Option Bytes
put_at n none k bytes files = files
put_at n (some old) k bytes files = with_file n (some (spliced old k bytes)) files

abbrev write_to : Files → ℤ → Bytes → Option (Bytes × ℕ) → Files
write_to s fd bytes none = s
write_to s fd bytes (some (n, k)) = record {
  files = put_at n (s.files n) k bytes s.files;
  handles = with_handle fd (some (n, k + length bytes)) s.handles;
}

abbrev seek_to : Files → ℤ → ℕ → Option (Bytes × ℕ) → Files
seek_to s fd j none = s
seek_to s fd j (some (n, k)) = record s { handles = with_handle fd (some (n, j)) s.handles }

unfoldable pub do_call : Gemdos → Files → Call → Files
do_call os s (opened n mode) = record s {
  handles = with_handle (os.fopen n mode) (some (n, 0)) s.handles;
}
do_call os s (created n) =
    if positive (os.fcreate n)
    then record {
      files = with_file n (some []) s.files;
      handles = with_handle (os.fcreate n) (some (n, 0)) s.handles;
    }
    else s
do_call os s (sought fd j) = seek_to s fd j (s.handles fd)
do_call os s (written fd bytes) = write_to s fd bytes (s.handles fd)
do_call os s (closed fd) = record s { handles = with_handle fd none s.handles }

abbrev pub memory : Volume Files
memory = record { content = λ s. s.files; same = str_eq; handle = λ s. s.handles; step = do_call }

pub str_eq_refl : (n : Bytes) → str_eq n n ≡ true
unfolding str_eq
str_eq_refl [] = refl
str_eq_refl (c ∷ n) = ground (arith, str_eq_refl n)

eq_ℤ_refl : (z : ℤ) → eq_ℤ z z ≡ true
eq_ℤ_refl (pos n) = ground arith
eq_ℤ_refl (negsuc n) = ground arith

content-sought_lem :
    (os : Gemdos) (s : Files) (fd : ℤ) (k : ℕ) (h : Option (Bytes × ℕ)) (m : Bytes)
    → (seek_to s fd k h).files m ≡ s.files m
content-sought_lem os s fd k none m = refl
content-sought_lem os s fd k (some (n, j)) m = refl

pub memory-IsLawful : IsLawful memory
unfolding do_call
memory-IsLawful = record {
  same_refl = str_eq_refl;
  content-opened = λ os s n mode m. refl;
  handle-opened = λ os s n mode p. rw eq_ℤ_refl refl;
  content-created = λ os s n m p. rw p refl;
  handle-created = λ os s n p. rw (p, eq_ℤ_refl) refl;
  content-written = λ os s fd bytes n old k m h c l. rw (h, c) refl;
  handle-written = λ os s fd bytes n k h. rw (h, eq_ℤ_refl) refl;
  content-sought = λ os s fd k m. content-sought_lem os s fd k (s.handles fd) m;
  handle-sought = λ os s fd n old k j h c l. rw (h, eq_ℤ_refl) refl;
  content-closed = λ os s fd m. refl;
}
