-- ===== src/Common/Outcome.antt =====
-- What a call of the kernel comes to: it returns, or an assertion fails and the kernel panics
-- (`ccos_assert_impl` of kernel/assert/assert_action_backend.c halts the machine).

use mathlib.Core.Path.{◌≡◌, ap}
use mathlib.Core.Bool.{Bool, true, false}

pub data Exec {ℓ} (A : Type ℓ) : Type ℓ where
  done : A → Exec A
  panic : Exec A

infixl 5 ◌>>=◌ ◌>>◌
abbrev pub ◌>>=◌ {ℓ κ} : {A : Type ℓ} {B : Type κ} → Exec A → (A → Exec B) → Exec B
done a >>= f = f a
panic >>= f = panic

abbrev pub ◌>>◌ {ℓ} : {B : Type ℓ} → Exec (Unit {0}) → Exec B → Exec B
m >> k = m >>= λ _. k

-- `CCOS_ASSERT`
abbrev pub assert : Bool → Exec (Unit {0})
assert true = done tt
assert false = panic

abbrev or_else {ℓ} : {A : Type ℓ} → A → Exec A → A
or_else d (done a) = a
or_else d panic = d

pub done-injective {ℓ} : {A : Type ℓ} (a b : A) → done a ≡ done b → a ≡ b
done-injective a b e = ap (or_else a) e
