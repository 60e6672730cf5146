-- ===== src/Gemdos.antt =====
-- The calls of the operating system that the save routines make, and `load_file` of utils.c. What a
-- call answers is a parameter; that it was made is recorded.
pub mod Load
pub mod Copy
pub mod Spliced
use chgres.Base.{
  ℕ, ◌+◌, Bool, Option, none, some, List, [], ◌∷◌, ◌++◌, leb, ◌==◌, if◌then◌else◌, Bytes, length,
  take, drop,
}
use chgres.Base.Int.{ℤ, pos, ltb_ℤ}
use chgres.Base.Exec.{Exec, ok, fault, timeout}

-- Calls that change something outside the program.
pub data Call : Type 0 where
  opened : Bytes → ℕ → Call
  created : Bytes → Call
  sought : ℤ → ℕ → Call
  written : ℤ → Bytes → Call
  closed : ℤ → Call

-- The answers. `fread fd n` gives the bytes read, or `none` for an error; `fseek_end` is the length
-- of the file that is open; `malloc n` says whether there is memory.
pub record Gemdos : Type 0 where
  pub fopen : Bytes → ℕ → ℤ
  pub fcreate : Bytes → ℤ
  pub fseek_end : ℤ → ℕ
  pub fread : ℤ → ℕ → Option Bytes
  pub malloc : ℕ → Bool
  pub getenv : Bytes → Option Bytes
  pub fsfirst : Bytes → ℕ → ℤ
  pub dta_name : Option Bytes

-- A run with the calls made so far.
abbrev pub Io : Type 0 → Type 0
Io A = List Call → Exec (A × List Call)

infixl 5 ◌>>=◌ ◌>>◌
abbrev pub ◌>>=◌ : {A B : Type 0} → Io A → (A → Io B) → Io B
◌>>=◌ m f calls = elim (m calls) [ ok (a, more) ↦ f a more | fault ↦ fault | timeout ↦ timeout ]

abbrev pub ◌>>◌ : {B : Type 0} → Io (Unit {0}) → Io B → Io B
m >> k = m >>= λ _. k

abbrev pub return : {A : Type 0} → A → Io A
return a calls = ok (a, calls)

abbrev pub lift : {A : Type 0} → Exec A → Io A
lift (ok a) calls = ok (a, calls)
lift fault calls = fault
lift timeout calls = timeout

abbrev pub call : Call → Io (Unit {0})
call c calls = ok (tt, calls ++ c ∷ [])

abbrev pub unless_null : {A B : Type 0} → Option A → Io B → (A → Io B) → Io B
unless_null none none_case some_case = none_case
unless_null (some a) none_case some_case = some_case a

abbrev pub positive : ℤ → Bool
positive z = ltb_ℤ (pos 0) z

module _ (os : Gemdos) where
  abbrev read_all : ℤ → ℕ → Option Bytes → Option Bytes
  read_all fd n none = none
  read_all fd n (some bytes) = if length bytes == n then some bytes else none

  -- `none` is the NULL that `load_file` returns. The block that it returns holds just the file.
  unfoldable pub load_file : Bytes → Io (Option Bytes)
  load_file filename =
      let fd = os.fopen filename 0 in
      let n = os.fseek_end fd in
      let content = if os.malloc n then read_all fd n (os.fread fd n) else none in
      if positive fd
      then (do call (opened filename 0); call (closed fd); return content)
      else (do call (opened filename 0); return none)

-- `memcpy(&p[offset], bytes, n)`: a write outside the block is a fault.
unfoldable pub overwrite : Bytes → ℕ → Bytes → Exec Bytes
overwrite p offset bytes =
    if leb (offset + length bytes) (length p)
    then ok (take offset p ++ (bytes ++ drop (offset + length bytes) p))
    else fault
