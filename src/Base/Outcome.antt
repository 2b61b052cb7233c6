-- ===== src/Base/Outcome.antt =====
-- What a piece of kernel code does: it returns, or it stops the machine, by a call of `panic` or by a
-- CPU exception (a null dereference, a division by zero).

pub data Exec {ℓ} (A : Type ℓ) : Type ℓ where
  ok : A → Exec A
  panic : Exec A
  fault : Exec A

infixl 5 ◌>>=◌
abbrev pub ◌>>=◌ {ℓ κ} : {A : Type ℓ} {B : Type κ} → Exec A → (A → Exec B) → Exec B
ok a >>= f = f a
panic >>= f = panic
fault >>= f = fault
