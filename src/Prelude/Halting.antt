-- ===== src/Prelude/Halting.antt =====
-- Code that either returns or halts the machine: `die`, `die_reason` and `NOT_YET_IMPLEMENTED` do
-- not return to their caller.

pub data Exec {ℓ} (A : Type ℓ) : Type ℓ where
  ret : A → Exec A
  die : Exec A

infixl 5 ◌>>=◌
abbrev pub ◌>>=◌ {ℓ κ} : {A : Type ℓ} {B : Type κ} → Exec A → (A → Exec B) → Exec B
ret a >>= f = f a
die >>= f = die
