-- ===== src/Exec/Fallible.antt =====
-- Sequencing of fallible computations that change no state.
use autonomous_software_engi.Prelude.{◌≡◌, refl}
use autonomous_software_engi.Exec.{Result, ok, err}

infixl 10 ◌>>=◌ ◌>>◌
unfoldable pub ◌>>=◌ {ℓ κ} : {A : Type ℓ} {B : Type κ} → Result A → (A → Result B) → Result B
ok a >>= f = f a
err e >>= f = err e

abbrev pub ◌>>◌ {ℓ κ} : {A : Type ℓ} {B : Type κ} → Result A → Result B → Result B
m >> n = m >>= λ _. n

-- What holds of the value of a computation that succeeds.
pub record WhenOk {ℓ κ} {A : Type ℓ} (P : A → Type κ) (r : Result A) : Type (ℓ ⊔ κ) where
  pub at : (a : A) → r ≡ ok a → P a

pub WhenOk-bind {ℓ κ μ} :
    {A : Type ℓ} {B : Type κ} {P : B → Type μ} (m : Result A) (f : A → Result B)
    → ((a : A) → WhenOk P (f a))
    → WhenOk P (m >>= f)
unfolding ◌>>=◌
WhenOk-bind (ok a) f h = h a
WhenOk-bind (err e) f h = record { at = λ b p. cc }

-- The same, where the rest may use what the first part returned.
pub WhenOk-bind-eq {ℓ κ μ} :
    {A : Type ℓ} {B : Type κ} {P : B → Type μ} (m : Result A) (f : A → Result B)
    → ((a : A) → m ≡ ok a → WhenOk P (f a))
    → WhenOk P (m >>= f)
unfolding ◌>>=◌
WhenOk-bind-eq (ok a) f h = h a refl
WhenOk-bind-eq (err e) f h = record { at = λ b p. cc }
