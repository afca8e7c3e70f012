-- ===== src/Exec.antt =====
-- Code that changes a state and may raise: what was written before a raise stays written, so the
-- state comes back beside the error too. A program's exceptions are the constructors of `Error`.
pub mod Fallible
pub mod Relates
pub mod Rules
use autonomous_software_engi.Prelude.{
  if◌then◌else◌, String, ◌≡◌, refl, ap, subst, Bool, true, false, Option, none, some,
}
use mathlib.Core.Bool.{false≢true}

pub data Error : Type 0 where
  key_error : String → Error
  value_error : String → Error
  type_error : String → Error
  runtime_error : String → Error
  invalid_transition : String → Error
  authority_denied : String → Error
  not_implemented : String → Error
  command_denied : String → Error
  tool_error : String → Error
  -- raised by a collaborator outside the model: the model service, git, the sandbox, the network
  external : String → Error

pub data Result {ℓ} (A : Type ℓ) : Type ℓ where
  ok : A → Result A
  err : Error → Result A

-- Sequencing of fallible computations that change no state.
infixl 10 ◌⋆◌
abbrev pub ◌⋆◌ {ℓ κ} : {A : Type ℓ} {B : Type κ} → Result A → (A → Result B) → Result B
ok a ⋆ f = f a
err e ⋆ f = err e

abbrev pub Exec : Type 0 → Type 0 → Type 0
Exec S A = S → Result A × S

module _ {S A : Type 0} where
  pub pure : A → Exec S A
  pure a s = (ok a, s)

  pub lift : Result A → Exec S A
  lift r s = (r, s)

  pub gets : (S → A) → Exec S A
  gets f s = (ok (f s), s)

  pub raise : Error → Exec S A
  raise e s = (err e, s)

module _ {S : Type 0} where
  pub modify : (S → S) → Exec S (Unit {0})
  modify f s = (ok tt, f s)

  pub raise_if : Bool → Error → Exec S (Unit {0})
  raise_if true e s = (err e, s)
  raise_if false e s = (ok tt, s)

module _ {S A B : Type 0} where
  abbrev pub continue : Result A → (A → Exec S B) → Exec S B
  continue (ok a) f s = f a s
  continue (err e) f s = (err e, s)

  infixl 10 ◌>>=◌ ◌>>◌
  -- Opening this opens the plain actions too.
  unfoldable pub ◌>>=◌ : Exec S A → (A → Exec S B) → Exec S B
  unfolding pure raise lift gets modify raise_if
  ◌>>=◌ m f s = let (r, s') = m s in continue r f s'

  abbrev pub ◌>>◌ : Exec S A → Exec S B → Exec S B
  m >> n = m >>= λ _. n

-- What a run that returns has made of the state, from any state that satisfies `P`.
pub record Ensures {S A : Type 0} (P : S → Type 0) (m : Exec S A) (Q : A → S → Type 0)
    : Type 0 where
  pub at : (s s' : S) (a : A) → P s → m s ≡ (ok a, s') → Q a s'

module _ {S A B : Type 0} {R : A → S → Type 0} {Q : B → S → Type 0} where
  continue-Ensures :
      (f : A → Exec S B)
      → ((a : A) → Ensures (R a) (f a) Q)
      → (r : Result A) (s s' : S) (b : B) → ((a : A) → r ≡ ok a → R a s)
      → continue r f s ≡ (ok b, s')
      → Q b s'
  continue-Ensures f kf (ok a) s s' b h e = (kf a).at s s' b (h a refl) e
  continue-Ensures f kf (err x) s s' b h e = cc (ap (λ (r : Result B × S). r.0) e)

module _ {S A B : Type 0} {P : S → Type 0} {R : A → S → Type 0} {Q : B → S → Type 0} where
  -- The rule of a sequence: what the first part ensures is what the rest may assume.
  pub Ensures-bind :
      (m : Exec S A) (f : A → Exec S B)
      → Ensures P m R
      → ((a : A) → Ensures (R a) (f a) Q)
      → Ensures P (m >>= f) Q
  unfolding ◌>>=◌
  Ensures-bind m f km kf = record {
    at = λ s s' b p e.
        continue-Ensures f kf (m s).0 (m s).1 s' b
          (λ a h. km.at s (m s).1 a p (λ i. (h i, (m s).1))) e;
  }

module _ {S A B C : Type 0} where
  -- A fallible computation lifted in two parts, or at once.
  pub lift-bind :
      (r : Result A) (f : A → Result B) (k : B → Exec S C)
      → (lift (r ⋆ f) >>= k) ≡ (lift r >>= λ a. lift (f a) >>= k)
  unfolding ◌>>=◌
  lift-bind (ok a) f k = refl
  lift-bind (err e) f k = refl

-- Nothing is known of the state.
abbrev pub Anything : {S : Type 0} → S → Type 0
Anything s = Unit

module _ {S A B : Type 0} {P : S → Type 0} {Q : B → S → Type 0} where
  -- The first part is of no concern.
  pub Ensures-after :
      (m : Exec S A) (f : A → Exec S B)
      → ((a : A) → Ensures Anything (f a) Q)
      → Ensures P (m >>= f) Q
  Ensures-after m f k = Ensures-bind {R = λ a s. Unit} m f (record { at = λ s s' a p e. tt }) k

module _ {S A : Type 0} {P : S → Type 0} {Q : A → S → Type 0} where
  pub Ensures-pure : (a : A) → ((s : S) → P s → Q a s) → Ensures P (pure a) Q
  unfolding pure
  Ensures-pure a h = record { at = λ s s' b p e. subst (λ (x : Result A × S). at_ok Q x) e (h s p) }
    where
      at_ok : (A → S → Type 0) → Result A × S → Type 0
      at_ok Q (ok a, s) = Q a s
      at_ok Q (err x, s) = Unit

  -- A fact that holds of no state in particular, taken out of what is assumed.
  pub Ensures-given : {X : Type 0} (m : Exec S A) → (X → Ensures P m Q) → Ensures (λ s. X × P s) m Q
  Ensures-given m h = record { at = λ s s' a p e. (h p.0).at s s' a p.1 e }

  -- What is assumed may be stronger, and what is ensured weaker.
  pub Ensures-weaken :
      {P' : S → Type 0} {Q' : A → S → Type 0} (m : Exec S A)
      → ((s : S) → P' s → P s)
      → ((a : A) (s : S) → Q a s → Q' a s)
      → Ensures P m Q
      → Ensures P' m Q'
  Ensures-weaken m f g h = record { at = λ s s' a p e. g a s' (h.at s s' a (f s p) e) }

module _ {S A : Type 0} {Q : A → S → Type 0} where
  -- A fact about no state, known before the action.
  pub Ensures-known :
      {X : Type 0} (m : Exec S A) → (X → Ensures Anything m Q) → Ensures (λ s. X) m Q
  Ensures-known m h = record { at = λ s s' a p e. (h p).at s s' a tt e }

module _ {S A : Type 0} {P : S → Type 0} {Q : A → S → Type 0} where
  pub Ensures-if :
      (b : Bool) (m n : Exec S A) → Ensures P m Q → Ensures P n Q → Ensures P (if b then m else n) Q
  Ensures-if true m n h k = h
  Ensures-if false m n h k = k

  -- A branch may use its test.
  pub Ensures-if_eq :
      (b : Bool) (m n : Exec S A)
      → (b ≡ true → Ensures P m Q)
      → (b ≡ false → Ensures P n Q)
      → Ensures P (if b then m else n) Q
  Ensures-if_eq true m n h k = h refl
  Ensures-if_eq false m n h k = k refl

module _ {S A B : Type 0} {P : S → Type 0} {Q : B → S → Type 0} where
  pub Ensures-option :
      (o : Option A) (m : Exec S B) (f : A → Exec S B)
      → Ensures P m Q
      → ((a : A) → Ensures P (f a) Q)
      → Ensures P (elim o [ none ↦ m | some a ↦ f a ]) Q
  Ensures-option none m f h k = h
  Ensures-option (some a) m f h k = k a

module _ {S A : Type 0} {P : S → Type 0} {Q : A → S → Type 0} where
  -- A raise does not return.
  pub Ensures-raise : (e : Error) → Ensures P (raise e) Q
  unfolding raise
  Ensures-raise e = record {
    at = λ s s' a p h. absurd (false≢true (ap (λ (x : Result A × S). returns x.0) h));
  }
    where
      returns : Result A → Bool
      returns (ok a) = true
      returns (err x) = false
