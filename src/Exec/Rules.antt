-- ===== src/Exec/Rules.antt =====
-- Rules of `Ensures` that use what the plain actions return.
use autonomous_software_engi.Prelude.{◌≡◌, refl, subst, Bool, true, false, Option, none, some}
use autonomous_software_engi.Exec.{
  Exec, Result, ok, err, Error, lift, gets, raise, raise_if, modify, pure, continue, Ensures,
  Ensures-raise, Ensures-pure, Ensures-bind, ◌>>=◌, ◌>>◌,
}

module _ {S A B : Type 0} {P : S → Type 0} {Q : B → S → Type 0} where
  pub Ensures-lift :
      (r : Result A) (f : A → Exec S B)
      → ((a : A) → r ≡ ok a → Ensures P (f a) Q)
      → Ensures P (lift r >>= f) Q
  unfolding ◌>>=◌ raise
  Ensures-lift (ok a) f h = h a refl
  Ensures-lift (err e) f h = Ensures-raise e

  pub Ensures-gets :
      (g : S → A) (f : A → Exec S B)
      → ((a : A) → Ensures (λ s. (g s ≡ a) × P s) (f a) Q)
      → Ensures P (gets g >>= f) Q
  unfolding ◌>>=◌
  Ensures-gets g f h = record { at = λ s s' b p e. (h (g s)).at s s' b (refl, p) e }

module _ {S B : Type 0} {P : S → Type 0} {Q : B → S → Type 0} where
  pub Ensures-guard :
      (b : Bool) (e : Error) (m : Exec S B)
      → (b ≡ false → Ensures P m Q)
      → Ensures P (raise_if b e >> m) Q
  unfolding ◌>>=◌ raise
  Ensures-guard true e m h = Ensures-raise e
  Ensures-guard false e m h = h refl

  pub Ensures-modify :
      (f : S → S) (b : B) → ((s : S) → P s → Q b (f s)) → Ensures P (modify f >> pure b) Q
  unfolding ◌>>=◌ pure
  Ensures-modify f b h = record {
    at = λ s s' c p e. (Ensures-pure {P = Q b} {Q = Q} b λ t q. q).at (f s) s' c (h s p) e;
  }

module _ {S A B : Type 0} {Q : B → S → Type 0} where
  -- From a known state, what the first part has returned and the state it left are known too.
  pub Ensures-from :
      (s : S) (m : Exec S A) (f : A → Exec S B)
      → ((a : A) (t : S) → m s ≡ (ok a, t) → Ensures (λ x. x ≡ t) (f a) Q)
      → Ensures (λ x. x ≡ s) (m >>= f) Q
  Ensures-from s m f h =
      Ensures-bind {R = λ a t. m s ≡ (ok a, t)} m f
        (record { at = λ x x' a q e. subst (λ y. m y ≡ (ok a, x')) q e })
        λ a. record { at = λ t s' b ran e. (h a t ran).at t s' b refl e }

module _ {S A B : Type 0} {P : S → Type 0} {Q : B → S → Type 0} where
  -- An action that always returns the same and changes nothing.
  pub Ensures-steady :
      (m : Exec S A) (a : A) (f : A → Exec S B)
      → ((s : S) → m s ≡ (ok a, s))
      → Ensures P (f a) Q
      → Ensures P (m >>= f) Q
  unfolding ◌>>=◌
  Ensures-steady m a f k h = record {
    at = λ s s' b p e.
        h.at s s' b p (subst (λ (r : Result A × S). continue r.0 f r.1 ≡ (ok b, s')) (k s) e);
  }

  -- A branch may use what the option is.
  pub Ensures-option_eq :
      (o : Option A) (m : Exec S B) (f : A → Exec S B)
      → (o ≡ none → Ensures P m Q)
      → ((a : A) → o ≡ some a → Ensures P (f a) Q)
      → Ensures P (elim o [ none ↦ m | some a ↦ f a ]) Q
  Ensures-option_eq none m f h k = h refl
  Ensures-option_eq (some a) m f h k = k a refl
