-- ===== src/Base/Exec.antt =====
-- How a piece of C code ends: with a value, with a read or write outside its object, or not
-- within the rounds given to its loop.

pub data Exec {ℓ} (A : Type ℓ) : Type ℓ where
  ok : A → Exec A
  fault : Exec A
  timeout : Exec A

infixl 5 ◌>>=◌ ◌>>◌
abbrev pub ◌>>=◌ {ℓ κ} : {A : Type ℓ} {B : Type κ} → Exec A → (A → Exec B) → Exec B
ok a >>= f = f a
fault >>= f = fault
timeout >>= f = timeout

abbrev pub ◌>>◌ {ℓ} : {B : Type ℓ} → Exec (Unit {0}) → Exec B → Exec B
m >> k = m >>= λ _. k

-- The same as a function, where another monad has the operator.
abbrev pub and_then {ℓ κ} : {A : Type ℓ} {B : Type κ} → Exec A → (A → Exec B) → Exec B
and_then (ok a) f = f a
and_then fault f = fault
and_then timeout f = timeout
