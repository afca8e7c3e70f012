-- ===== src/Prelude/Sorting.antt =====
-- Insertion sort by a number, as `ORDER BY` does; rows of the same number keep their order.
use Prim.Native.Nat.{ℕ, ◌≤◌}
use mathlib.Core.Path.{◌≡◌, refl, ap, ◌∙◌}
use mathlib.Core.Bool.{Bool, true, false}
use mathlib.Core.List.{List, [], ◌∷◌, ◌++◌, Perm}
use mathlib.Core.List.Perm
use native.Mathlib.Omega.{arith}
use autonomous_software_engi.Prelude.Tests.{leb, if◌then◌else◌}
use autonomous_software_engi.Prelude.Lists.{All, select}

module _ {ℓ} {A : Type ℓ} where
  unfoldable pub insert_by : (A → ℕ) → A → List A → List A
  insert_by key x [] = x ∷ []
  insert_by key x (y ∷ ys) =
      let rest = insert_by key x ys in if leb (key x) (key y) then x ∷ y ∷ ys else y ∷ rest

  unfoldable pub sort_by : (A → ℕ) → List A → List A
  unfolding insert_by
  sort_by key [] = []
  sort_by key (x ∷ xs) = insert_by key x (sort_by key xs)

  -- Every element is related to every later one.
  abbrev pub AllPairs {κ} : (A → A → Type κ) → List A → Type κ
  AllPairs R [] = Unit
  AllPairs R (x ∷ xs) = All (R x) xs × AllPairs R xs

  pub AllPairs-append {κ} :
      (R : A → A → Type κ) (xs : List A) (y : A)
      → AllPairs R xs
      → All (λ x. R x y) xs
      → AllPairs R (xs ++ y ∷ [])
  AllPairs-append R [] y p a = (tt, tt)
  AllPairs-append R (x ∷ xs) y p a = (last xs p.0 a.0, AllPairs-append R xs y p.1 a.1)
    where
      last : (zs : List A) → All (R x) zs → R x y → All (R x) (zs ++ y ∷ [])
      last [] q r = (r, tt)
      last (z ∷ zs) q r = (q.0, last zs q.1 r)

  pub All-select {κ} :
      (P : A → Type κ) (p : A → Bool) (xs : List A) → All P xs → All P (select p xs)
  All-select P p [] a = tt
  All-select P p (x ∷ xs) a =
      elim (p x) as (λ b. All P (if b then x ∷ select p xs else select p xs)) [
        | true ↦ (a.0, All-select P p xs a.1)
        | false ↦ All-select P p xs a.1
      ]

  insert_by-first :
      (key : A → ℕ) (x : A) (xs : List A)
      → All (λ y. key x ≤ key y) xs
      → insert_by key x xs ≡ x ∷ xs
  unfolding insert_by
  insert_by-first key x [] a = refl
  insert_by-first key x (y ∷ ys) a = ground (arith, a.0)

  -- Rows that are in order are not moved.
  pub sort_by-ordered :
      (key : A → ℕ) (xs : List A) → AllPairs (λ x y. key x ≤ key y) xs → sort_by key xs ≡ xs
  unfolding sort_by
  sort_by-ordered key [] p = refl
  sort_by-ordered key (x ∷ xs) p =
      ap (insert_by key x) (sort_by-ordered key xs p.1) ∙ insert_by-first key x xs p.0

  insert_by-Perm : (key : A → ℕ) (x : A) (xs : List A) → Perm (insert_by key x xs) (x ∷ xs)
  unfolding insert_by
  insert_by-Perm key x [] = Perm.refl _
  insert_by-Perm key x (y ∷ ys) =
      elim (leb (key x) (key y))
        as (λ b. Perm (if b then x ∷ y ∷ ys else y ∷ insert_by key x ys) (x ∷ y ∷ ys)) [
          | true ↦ Perm.refl _
          | false ↦ Perm.trans (Perm.cons y (insert_by-Perm key x ys)) (Perm.swap x y ys)
        ]

  -- Sorting only changes the order.
  pub sort_by-Perm : (key : A → ℕ) (xs : List A) → Perm (sort_by key xs) xs
  unfolding sort_by
  sort_by-Perm key [] = Perm.refl _
  sort_by-Perm key (x ∷ xs) =
      Perm.trans (insert_by-Perm key x (sort_by key xs)) (Perm.cons x (sort_by-Perm key xs))

  -- `xs[::-1]`
  unfoldable pub reversed : List A → List A
  reversed [] = []
  reversed (x ∷ xs) = reversed xs ++ x ∷ []

  append_one-Perm : (xs : List A) (y : A) → Perm (xs ++ y ∷ []) (y ∷ xs)
  append_one-Perm [] y = Perm.refl _
  append_one-Perm (x ∷ xs) y = Perm.trans (Perm.cons x (append_one-Perm xs y)) (Perm.swap y x xs)

  pub reversed-Perm : (xs : List A) → Perm (reversed xs) xs
  unfolding reversed
  reversed-Perm [] = Perm.refl _
  reversed-Perm (x ∷ xs) =
      Perm.trans (append_one-Perm (reversed xs) x) (Perm.cons x (reversed-Perm xs))
