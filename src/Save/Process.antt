-- ===== src/Save/Process.antt =====
-- `get_system_drive`, `get_process_id` and `get_process_path` of utils.c.
use chgres.Base.{
  ℕ, zero, suc, ◌-◌, Bool, true, false, Option, none, some, [], ◌∷◌, ◌++◌, ltb, ◌==◌, if◌then◌else◌,
  Bytes, length, take, drop,
}
use chgres.Base.Int.{ℤ, pos, negsuc, ltb_ℤ}
use chgres.CLib.{codes, print_d, atoi, strrchr}
use chgres.Gemdos.{Gemdos, positive}

abbrev pub get_system_drive : Bytes
get_system_drive = codes "C:"

-- The bytes of `s` before the first 0 among its first `n`.
abbrev pub c_string : ℕ → Bytes → Bytes
c_string zero s = []
c_string (suc n) [] = []
c_string (suc n) (c ∷ s) = if c == 0 then [] else c ∷ c_string n s

abbrev is_zero : ℤ → Bool
is_zero (pos zero) = true
is_zero _ = false

module _ (os : Gemdos) where
  -- The extension of the entry that `Fsfirst` found.
  abbrev process_of_entry : Option Bytes → ℤ
  process_of_entry none = negsuc 0
  process_of_entry (some name) =
      let n = length (c_string 12 name) in
      if ltb 4 n then atoi (drop (length name - 3) name) else negsuc 0

  unfoldable pub get_process_id : Bytes → ℤ
  unfolding atoi
  get_process_id name =
      let filter = codes "u:/proc/" ++ (name ++ codes "*.*") in
      if is_zero (os.fsfirst filter 7) then process_of_entry os.dta_name else negsuc 0

  abbrev directory : Bytes → Option Bytes
  directory path = elim (strrchr path b'/') [
    | none ↦ none
    | some zero ↦ none
    | some (suc n) ↦ some (take (suc n) path)
  ]

  abbrev name_read : Option Bytes → Bytes
  name_read none = []
  name_read (some bytes) = c_string 255 bytes

  -- The directory of the file that the process was started from, or its working directory.
  abbrev process_path : ℤ → Bytes
  process_path pid =
      let fh = os.fopen (codes "u:/kern/" ++ (print_d pid ++ codes "/fname")) 0 in
      let cwd = codes "u:/kern/" ++ (print_d pid ++ codes "/cwd") in
      let found : Option Bytes =
        if positive fh then directory (name_read (os.fread fh 255)) else none in
      elim found [ some path ↦ path | none ↦ cwd ]

  unfoldable pub get_process_path : Bytes → Option Bytes
  unfolding get_process_id print_d strrchr
  get_process_path name =
      let pid = get_process_id name in if ltb_ℤ pid (pos 0) then none else some (process_path pid)
