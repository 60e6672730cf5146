-- ===== src/CLib.antt =====
-- The functions of the C library that the program calls, over bytes: `sprintf` with the formats that
-- occur, `strupr`, `atoi`, `strstr`, `strrchr`, `strcmp`. A C string is the list of its bytes, without the
-- terminating 0.
pub mod Digits
pub mod Hex
use Prim.Native.Char.{code}
use Prim.Native.String.{String}
use chgres.Base.{
  ℕ, zero, suc, ◌+◌, ◌-◌, ◌*◌, ◌/◌, ◌%◌, ◌^◌, Bool, true, false, ◌&&◌, ◌||◌, Option, none, some, [],
  ◌∷◌, ◌++◌, ltb, leb, ◌==◌, if◌then◌else◌, Bytes, length, replicate,
}
use chgres.Base.Int.{ℤ, pos, negsuc}

-- The bytes of a literal.
abbrev pub codes : String → Bytes
codes String.[] = []
codes (String.◌∷◌ c s) = code c ∷ codes s

abbrev pub cr_lf : Bytes
cr_lf = 0x0d ∷ 0x0a ∷ []

abbrev digit : ℕ → ℕ
digit d = if ltb d 10 then b'0' + d else 87 + d

-- The digits of `n` in a base above 1, put before `acc`. More than `n` rounds are never needed.
unfoldable pub digits_onto : ℕ → ℕ → ℕ → Bytes → Bytes
digits_onto base zero n acc = acc
digits_onto base (suc fuel) n acc =
    let rest = digits_onto base fuel (n / base) (digit (n % base) ∷ acc) in
    if ltb n base then digit n ∷ acc else rest

-- `%u` and, in base 16, `%x`.
unfoldable pub unsigned : ℕ → ℕ → Bytes
unfolding digits_onto
unsigned base n = digits_onto base (suc n) n []

-- `%d`
unfoldable pub print_d : ℤ → Bytes
unfolding unsigned
print_d (pos n) = unsigned 10 n
print_d (negsuc n) = b'-' ∷ unsigned 10 (suc n)

unfoldable pub pad : ℕ → ℕ → Bytes → Bytes
pad c width s = replicate (width - length s) c ++ s

-- `%4d` and the like.
unfoldable pub print_width_d : ℕ → ℤ → Bytes
unfolding pad print_d
print_width_d width z = pad b' ' width (print_d z)

-- An `int` as `%x` reads it.
abbrev pub to_unsigned : ℤ → ℕ
to_unsigned (pos n) = n % 2 ^ 32
to_unsigned (negsuc n) = 2 ^ 32 - 1 - n % 2 ^ 32

-- `%02x` and the like.
unfoldable pub print_x : ℕ → ℤ → Bytes
unfolding pad unsigned
print_x width z = pad b'0' width (unsigned 16 (to_unsigned z))

abbrev pub upper : ℕ → ℕ
upper c = if leb b'a' c && leb c b'z' then c - 32 else c

unfoldable pub strupr : Bytes → Bytes
strupr [] = []
strupr (c ∷ s) = upper c ∷ strupr s

abbrev pub is_digit : ℕ → Bool
is_digit c = leb b'0' c && leb c b'9'

unfoldable pub digits_value : ℕ → Bytes → ℕ
digits_value n [] = n
digits_value n (c ∷ s) =
    let rest = digits_value (n * 10 + (c - b'0')) s in if is_digit c then rest else n

abbrev negate : ℕ → ℤ
negate zero = pos 0
negate (suc n) = negsuc n

abbrev signed_value : Bytes → ℤ
signed_value [] = pos 0
signed_value (c ∷ s) =
    if c == b'-'
    then negate (digits_value 0 s)
    else if c == b'+'
    then pos (digits_value 0 s)
    else pos (digits_value 0 (c ∷ s))

unfoldable pub atoi : Bytes → ℤ
unfolding digits_value
atoi [] = pos 0
atoi (c ∷ s) =
    let rest = atoi s in
    if c == b' ' || (leb 0x09 c && leb c 0x0d) then rest else signed_value (c ∷ s)

unfoldable pub starts_with : Bytes → Bytes → Bool
starts_with s [] = true
starts_with [] (d ∷ t) = false
starts_with (c ∷ s) (d ∷ t) = c == d && starts_with s t

-- The offset of the first occurrence.
unfoldable pub strstr : Bytes → Bytes → Option ℕ
unfolding starts_with
strstr [] t = if starts_with [] t then some 0 else none
strstr (c ∷ s) t =
    let rest : Option ℕ = elim (strstr s t) [ none ↦ none | some n ↦ some (suc n) ] in
    if starts_with (c ∷ s) t then some 0 else rest

-- The offset of the last occurrence.
unfoldable pub strrchr : Bytes → ℕ → Option ℕ
strrchr [] d = none
strrchr (c ∷ s) d = elim (strrchr s d) [
  | some n ↦ some (suc n)
  | none ↦ if c == d then some 0 else none
]

-- `strcmp(s, t) == 0`
unfoldable pub str_eq : Bytes → Bytes → Bool
str_eq [] [] = true
str_eq (c ∷ s) (d ∷ t) = c == d && str_eq s t
str_eq _ _ = false
