-- ===== src/Exec/Relates.antt =====
-- What a run may do to the state, whether it returns or raises.
use autonomous_software_engi.Prelude.{if◌then◌else◌, ◌≡◌, refl, sym, subst, Bool, true, false}
use autonomous_software_engi.Exec.{
  Error, Exec, Result, ok, err, pure, lift, gets, raise, raise_if, modify, continue, ◌>>=◌, ◌>>◌,
}

-- Every run takes a state to one that is related to it.
pub record Relates {S A : Type 0} (R : S → S → Type 0) (m : Exec S A) : Type 0 where
  pub at : (s : S) → R s (m s).1

-- No run changes the state.
abbrev pub Keeps : {S A : Type 0} → Exec S A → Type 0
Keeps m = Relates (λ s t. s ≡ t) m

module _ {S A : Type 0} where
  pub pure-Keeps : (a : A) → Keeps (pure {S = S} a)
  unfolding pure
  pure-Keeps a = record { at = λ s. refl }

  pub lift-Keeps : (r : Result A) → Keeps (lift {S = S} r)
  unfolding lift
  lift-Keeps r = record { at = λ s. refl }

  pub gets-Keeps : (f : S → A) → Keeps (gets f)
  unfolding gets
  gets-Keeps f = record { at = λ s. refl }

  pub raise-Keeps : (e : Error) → Keeps (raise {S = S} {A = A} e)
  unfolding raise
  raise-Keeps e = record { at = λ s. refl }

module _ {S A : Type 0} {R : S → S → Type 0} where
  pub Relates-if :
      (b : Bool) (m n : Exec S A) → Relates R m → Relates R n → Relates R (if b then m else n)
  Relates-if true m n h k = h
  Relates-if false m n h k = k

  -- The second branch, where the test is false.
  pub Relates-else :
      (b : Bool) (m n : Exec S A) → b ≡ false → Relates R n → Relates R (if b then m else n)
  Relates-else true m n e h = cc
  Relates-else false m n e h = h

module _ {S A B : Type 0} {R : S → S → Type 0} (R-refl : (s : S) → R s s) where
  continue-R :
      (r : Result A) (f : A → Exec S B) (s s' : S)
      → s ≡ s'
      → ((a : A) → Relates R (f a))
      → R s (continue r f s').1
  continue-R (ok a) f s s' e h = subst (λ x. R x (f a s').1) (sym e) ((h a).at s')
  continue-R (err x) f s s' e h = subst (λ y. R s y) e (R-refl s)

  -- A first part that changes nothing is of no concern.
  pub Relates-after :
      (m : Exec S A) (f : A → Exec S B)
      → Keeps m
      → ((a : A) → Relates R (f a))
      → Relates R (m >>= f)
  unfolding ◌>>=◌
  Relates-after m f k h = record { at = λ s. continue-R (m s).0 f s (m s).1 (k.at s) h }

module _ {S B : Type 0} {R : S → S → Type 0} (R-refl : (s : S) → R s s) where
  -- After a guard, its test is false.
  pub Relates-guard :
      (b : Bool) (e : Error) (m : Exec S B)
      → (b ≡ false → Relates R m)
      → Relates R (raise_if b e >> m)
  unfolding ◌>>=◌
  Relates-guard true e m h = record { at = λ s. R-refl s }
  Relates-guard false e m h = h refl

module _ {S B : Type 0} {R : S → S → Type 0} where
  -- A change, and then nothing more.
  pub Relates-modify : (f : S → S) (b : B) → ((s : S) → R s (f s)) → Relates R (modify f >> pure b)
  unfolding ◌>>=◌
  Relates-modify f b h = record { at = h }

module _ {S A : Type 0} {R : S → S → Type 0} (R-refl : (s : S) → R s s) where
  pub Keeps-Relates : (m : Exec S A) → Keeps m → Relates R m
  Keeps-Relates m k = record { at = λ s. subst (λ t. R s t) (k.at s) (R-refl s) }

module _ {S A B : Type 0} where
  continue-kept :
      (R : S → S → Type 0) (r : Result A) (f : A → Exec S B) (s s' : S)
      → R s s'
      → ((a : A) → Keeps (f a))
      → R s (continue r f s').1
  continue-kept R (ok a) f s s' h k = subst (λ x. R s x) ((k a).at s') h
  continue-kept R (err x) f s s' h k = h

module _ {S A B : Type 0} {R : S → S → Type 0} where
  -- Nothing changes after the first part.
  pub Relates-before :
      (m : Exec S A) (f : A → Exec S B)
      → Relates R m
      → ((a : A) → Keeps (f a))
      → Relates R (m >>= f)
  unfolding ◌>>=◌
  Relates-before m f h k = record { at = λ s. continue-kept R (m s).0 f s (m s).1 (h.at s) k }
