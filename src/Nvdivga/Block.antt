-- ===== src/Nvdivga/Block.antt =====
-- A block of memory that holds a file, read and written as the big-endian words and longs of the 68000.
use chgres.Base.{
  ℕ, zero, suc, ◌+◌, ◌-◌, ◌*◌, ◌/◌, ◌%◌, ◌≤◌, ◌<◌, ◌≡◌, refl, ap, ◌∙◌, ◌⊎◌, Option, none, some, [],
  ◌∷◌, arith, ltb, leb, if◌then◌else◌, Bytes, length, get_elem?, set, length-set,
  get_elem?-set_self, get_elem?-set_ne,
}
use chgres.Base.Int.{ℤ, pos, negsuc}
use chgres.Base.Exec.{Exec, ok, fault, ◌>>=◌}

abbrev at_byte : Option ℕ → Exec ℕ
at_byte none = fault
at_byte (some b) = ok b

unfoldable pub byte_at : Bytes → ℕ → Exec ℕ
byte_at p i = at_byte (get_elem? p i)

unfoldable pub word_at : Bytes → ℕ → Exec ℕ
unfolding byte_at
word_at p i = byte_at p i >>= λ a. byte_at p (i + 1) >>= λ b. ok (a * 256 + b)

unfoldable pub long_at : Bytes → ℕ → Exec ℕ
unfolding word_at
long_at p i = word_at p i >>= λ a. word_at p (i + 2) >>= λ b. ok (a * 65536 + b)

-- The four bytes of a long.
unfoldable pub with_long : Bytes → ℕ → ℕ → Bytes
with_long p i v =
    set (set (set (set p i (v / 16777216 % 256)) (i + 1) (v / 65536 % 256)) (i + 2) (v / 256 % 256))
      (i + 3) (v % 256)

unfoldable pub put_long : Bytes → ℕ → ℕ → Exec Bytes
unfolding with_long
put_long p i v = if leb (i + 4) (length p) then ok (with_long p i v) else fault

-- A word as a `short`.
abbrev pub short_of : ℕ → ℤ
short_of n = if ltb n 32768 then pos n else negsuc (65535 - n)

-- `g` and `h` agree in the `n` bytes from `i` on.
abbrev pub Agree : Bytes → Bytes → ℕ → ℕ → Type 0
Agree g h i n = (j : ℕ) → i ≤ j → j < i + n → get_elem? g j ≡ get_elem? h j

pub word_at-Agree : (g h : Bytes) (i : ℕ) → Agree g h i 2 → word_at g i ≡ word_at h i
unfolding word_at
word_at-Agree g h i s =
    rw (s i (omega arith) (omega arith), s (i + 1) (omega arith) (omega arith)) refl

pub long_at-Agree : (g h : Bytes) (i : ℕ) → Agree g h i 4 → long_at g i ≡ long_at h i
unfolding long_at
long_at-Agree g h i s =
    rw
      (
        word_at-Agree g h i (λ j l l'. s j l (omega arith)),
        word_at-Agree g h (i + 2) (λ j l l'. s j (omega arith) (omega arith)),
      )
      refl

get_elem-bound : (p : Bytes) (i : ℕ) → i < length p → (b : ℕ) × (get_elem? p i ≡ some b)
get_elem-bound [] i l = absurd (omega arith)
get_elem-bound (b ∷ p) zero l = (b, refl)
get_elem-bound (b ∷ p) (suc i) l = get_elem-bound p i (omega arith)

pub word_at-inside : (p : Bytes) (i : ℕ) → i + 2 ≤ length p → (v : ℕ) × (word_at p i ≡ ok v)
unfolding word_at
word_at-inside p i l =
    let (a, e) = get_elem-bound p i (omega arith) in
    let (b, f) = get_elem-bound p (i + 1) (omega arith) in (a * 256 + b, rw (e, f) refl)

pub long_at-inside : (p : Bytes) (i : ℕ) → i + 4 ≤ length p → (v : ℕ) × (long_at p i ≡ ok v)
unfolding long_at
long_at-inside p i l =
    let (a, e) = word_at-inside p i (omega arith) in
    let (b, f) = word_at-inside p (i + 2) (omega arith) in (a * 65536 + b, rw (e, f) refl)

pub length-with_long : (p : Bytes) (i v : ℕ) → length (with_long p i v) ≡ length p
unfolding with_long
length-with_long p i v = rw (length-set, length-set, length-set, length-set) refl

-- A long leaves the bytes beside it.
pub with_long_ne :
    (p : Bytes) (i v j : ℕ) → (j < i) ⊎ (i + 4 ≤ j) → get_elem? (with_long p i v) j ≡ get_elem? p j
unfolding with_long
with_long_ne p i v j o =
    let p0 = set p i (v / 16777216 % 256) in
    let p1 = set p0 (i + 1) (v / 65536 % 256) in
    let p2 = set p1 (i + 2) (v / 256 % 256) in
    get_elem?-set_ne p2 {i = i + 3} {j = j} (v % 256) (ground arith)
    ∙ get_elem?-set_ne p1 {i = i + 2} {j = j} (v / 256 % 256) (ground arith)
    ∙ get_elem?-set_ne p0 {i = i + 1} {j = j} (v / 65536 % 256) (ground arith)
    ∙ get_elem?-set_ne p {i = i} {j = j} (v / 16777216 % 256) (ground arith)

same_long :
    (v : ℕ)
    → v < 4294967296
    → (v / 16777216 % 256 * 256 + v / 65536 % 256) * 65536 + (v / 256 % 256 * 256 + v % 256) ≡ v
same_long v l = omega arith

-- What is written is read again.
pub long_at-with_long :
    (p : Bytes) (i v : ℕ) → i + 4 ≤ length p → v < 4294967296 → long_at (with_long p i v) i ≡ ok v
unfolding long_at with_long word_at byte_at
long_at-with_long p i v l lv =
    let p0 = set p i (v / 16777216 % 256) in
    let p1 = set p0 (i + 1) (v / 65536 % 256) in
    let p2 = set p1 (i + 2) (v / 256 % 256) in
    let l0 : length p0 ≡ length p = length-set p i _ in
    let l1 : length p1 ≡ length p = length-set p0 (i + 1) _ ∙ l0 in
    let l2 : length p2 ≡ length p = length-set p1 (i + 2) _ ∙ l1 in
    let b0 : get_elem? (set p2 (i + 3) (v % 256)) i ≡ some (v / 16777216 % 256) =
      get_elem?-set_ne p2 _ (omega arith)
      ∙ get_elem?-set_ne p1 _ (omega arith)
      ∙ get_elem?-set_ne p0 _ (omega arith)
      ∙ get_elem?-set_self p i _ (omega arith) in
    let b1 : get_elem? (set p2 (i + 3) (v % 256)) (i + 1) ≡ some (v / 65536 % 256) =
      get_elem?-set_ne p2 _ (omega arith)
      ∙ get_elem?-set_ne p1 _ (omega arith)
      ∙ get_elem?-set_self p0 (i + 1) _ (omega arith) in
    let b2 : get_elem? (set p2 (i + 3) (v % 256)) (i + 2) ≡ some (v / 256 % 256) =
      get_elem?-set_ne p2 _ (omega arith) ∙ get_elem?-set_self p1 (i + 2) _ (omega arith) in
    let b3 : get_elem? (set p2 (i + 3) (v % 256)) (i + 3) ≡ some (v % 256) =
      get_elem?-set_self p2 (i + 3) _ (omega arith) in
    let end : i + 2 + 1 ≡ i + 3 = omega arith in rw (end, b0, b1, b2, b3) (ap ok (same_long v lv))
