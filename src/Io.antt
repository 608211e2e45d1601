-- ===== src/Io.antt =====
-- `io::Result` and the error kinds that the source tells apart.
use nesso.Base.{Option}

pub data ErrorKind : Type 0 where
  not_found permission_denied invalid_data unexpected_eof other_error : ErrorKind

pub data Result {ℓ} (A : Type ℓ) : Type ℓ where
  ok : A → Result A
  err : ErrorKind → Result A

infixl 5 ◌>>=◌
abbrev pub ◌>>=◌ {ℓ κ} : {A : Type ℓ} {B : Type κ} → Result A → (A → Result B) → Result B
ok a >>= f = f a
err e >>= f = err e

-- What the environment answers to one call of the operating system: no error, or this one.
abbrev pub Outcome : Type 0
Outcome = Option ErrorKind
