-- ===== src/Text.antt =====
-- The line scanner of utils.c: `skip_white`, `find_str`, `next_line`, `find_line`, `remove_line`.
-- A pointer into a buffer is the list of the bytes from there on, those behind the loaded file
-- included, as far as memory may be read; a read past the list is a `fault`. A `long` that the code
-- counts down is a natural number while it is not below 0, and an integer where it may fall to -1.
pub mod Bounds
pub mod Lines
pub mod Find
pub mod Remove
pub mod Whole
use chgres.Base.{
  ℕ, zero, suc, ◌+◌, ◌-◌, min, Bool, true, false, not, ◌&&◌, ◌||◌, Option, none, some, List, [],
  ◌∷◌, ◌++◌, ltb, ◌==◌, if◌then◌else◌, Bytes, take, drop,
}
use chgres.Base.Int.{ℤ, pos, negsuc, sub_ℕ, ltb_ℤ}
use chgres.Base.Exec.{Exec, ok, fault, timeout, ◌>>=◌}

-- The end of the list stands for the terminating 0 of a C string.
unfoldable pub skip_white : Bytes → Bytes
skip_white [] = []
skip_white (c ∷ s) = let rest = skip_white s in if c == b' ' || c == b'\t' then rest else c ∷ s

-- The loop of `find_str`, and its test: whether `str` is used up.
unfoldable pub is_prefix : Bytes → Bytes → Bool
is_prefix p [] = true
is_prefix [] (d ∷ str) = d == 0
is_prefix (c ∷ p) (d ∷ str) =
    let rest = is_prefix p str in if not (c == 0) && c == d then rest else d == 0

-- `find_str` returns a pointer that its only caller compares with NULL.
unfoldable pub find_str : Bytes → Bytes → Bool
unfolding skip_white is_prefix
find_str line str = is_prefix (skip_white line) str

-- The length of a line with its end, and the number of its bytes before a comment: the result of
-- `next_line` and what it stores through `valid`.
pub record Line : Type 0 where
  pub len : ℕ
  pub valid : ℕ

-- Behind a carriage return; the next byte is read whether or not `maxlen` is used up.
after_cr : Bytes → Exec Line
after_cr [] = fault
after_cr (d ∷ s) = ok (record { len = if d == 0x0a then 2 else 1; valid = 0 })

abbrev pub counted : Bool → Line → Exec Line
counted comment l =
    ok (record { len = suc l.len; valid = if comment then l.valid else suc l.valid })

-- The loop of `next_line` from `p` on, with `maxlen` bytes left.
unfoldable pub next_line_loop : Bytes → ℕ → Bool → Exec Line
unfolding after_cr
next_line_loop p zero comment = ok (record { len = 0; valid = 0 })
next_line_loop [] (suc maxlen) comment = fault
next_line_loop (c ∷ p) (suc maxlen) comment =
    let comment' = comment || (c == b';' || c == b'*') in
    let rest = next_line_loop p maxlen comment' >>= counted comment' in
    if c == 0x0d then after_cr p else if c == 0x0a then ok (record { len = 1; valid = 0 }) else rest

unfoldable pub next_line : Bytes → ℕ → Exec Line
unfolding next_line_loop
next_line s maxlen = next_line_loop s maxlen false

-- What `find_line` returns, as an offset into the buffer, and what it stores.
pub record Found : Type 0 where
  pub offset : ℕ
  pub remain : ℤ
  pub linesize : ℕ

-- `linebuf`, without its terminating 0.
abbrev pub line_text : Bytes → Line → Bytes
line_text p l = take (min l.valid 511) p

-- The loop of `find_line`, at `offset` in the buffer. `size` is not below 0 at its head.
unfoldable pub find_line_loop : ℕ → Bytes → Bytes → ℕ → ℕ → Exec Found
find_line_loop zero p str size offset = timeout
find_line_loop (suc fuel) p str size offset = next_line p size >>= λ l.
    let remain = sub_ℕ size l.len in
    let rest = find_line_loop fuel (drop l.len p) str (size - l.len) (offset + l.len) in
    if find_str (line_text p l) str
    then ok (record { offset = offset; remain = remain; linesize = l.len })
    else if ltb_ℤ (pos 0) remain && ltb 0 l.len
    then rest
    else ok (record { offset = offset + l.len; remain = remain; linesize = l.len })

unfoldable pub find_line : Bytes → Bytes → ℕ → Exec Found
unfolding find_line_loop next_line find_str
find_line p str size = find_line_loop (suc size) p str size 0

-- The buffer after `memmove(fl, nl, remain)`.
abbrev pub moved : Bytes → Found → ℕ → Bytes
moved p f n = take f.offset p ++ (take n (drop (f.offset + f.linesize) p) ++ drop (f.offset + n) p)

-- What `remove_line` returns and stores: the offset of the line that is gone, `newsize`, and the
-- buffer.
pub record Removed : Type 0 where
  pub offset : ℕ
  pub newsize : ℕ
  pub buffer : Bytes

-- A `remain` below 0 is a huge `size_t` to `memmove`.
unfoldable pub remove_found : Bytes → ℕ → Found → ℤ → Exec (Option Removed)
remove_found p size f (pos zero) = ok none
remove_found p size f (pos (suc n)) =
    ok
      (some (record { offset = f.offset; newsize = size - f.linesize; buffer = moved p f (suc n) }))
remove_found p size f (negsuc n) = fault

unfoldable pub remove_line : Bytes → Bytes → ℕ → Exec (Option Removed)
unfolding remove_found
remove_line p str size = find_line p str size >>= λ f. remove_found p size f f.remain
