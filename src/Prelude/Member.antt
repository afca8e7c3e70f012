-- ===== src/Prelude/Member.antt =====
-- Membership as a proposition by recursion, and the Boolean tests that decide it.
use Prim.Native.String.{String}
use mathlib.Core.Path.{◌≡◌}
use mathlib.Core.Logic.{◌⊎◌}
use mathlib.Core.Bool.{true, false}
use mathlib.Core.List.{List, [], ◌∷◌}
use native.Mathlib.Omega.{arith}
use text.Mathlib.TextEquality.{eq_iff}
use autonomous_software_engi.Prelude.Text.{mem}

-- `a` is one of the elements.
abbrev pub Member : {A : Type 0} → A → List A → Type 0
Member a [] = ⊥
Member a (x ∷ xs) = (x ≡ a) ⊎ Member a xs

-- No element stands twice.
abbrev pub Distinct : {A : Type 0} → List A → Type 0
Distinct [] = Unit
Distinct (x ∷ xs) = (¬ Member x xs) × Distinct xs

pub mem→Member : (s : String) (xs : List String) → mem s xs ≡ true → Member s xs
unfolding mem
mem→Member s [] h = ground arith
mem→Member s (x ∷ xs) h = ground (arith, eq_iff x s, mem→Member s xs)

pub Member→mem : (s : String) (xs : List String) → Member s xs → mem s xs ≡ true
unfolding mem
Member→mem s [] h = absurd h
Member→mem s (x ∷ xs) h = ground (arith, eq_iff x s, Member→mem s xs)

pub not_mem→not_Member : (s : String) (xs : List String) → mem s xs ≡ false → ¬ Member s xs
not_mem→not_Member s xs h m = cc (Member→mem s xs m)

pub not_Member→not_mem : (s : String) (xs : List String) → ¬ Member s xs → mem s xs ≡ false
not_Member→not_mem s xs h = ground (arith, mem→Member s xs)
