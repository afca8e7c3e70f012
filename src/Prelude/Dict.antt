-- ===== src/Prelude/Dict.antt =====
-- Python's `dict` with text keys: entries in order of insertion, an update in place.
use autonomous_software_engi.Prelude.Tests.{if◌then◌else◌}
use Prim.Native.String.{String}
use mathlib.Core.Path.{◌≡◌, refl}
use mathlib.Core.Option.{Option, none, some}
use mathlib.Core.List.{List, [], ◌∷◌}
use native.Mathlib.Omega.{arith}
use text.Mathlib.Text.{◌==◌ as str_eq}
use text.Mathlib.TextEquality.{eq_iff}

abbrev pub Dict {ℓ} : Type ℓ → Type ℓ
Dict V = List (String × V)

module _ {ℓ} {V : Type ℓ} where
  -- `d[key] = value`
  unfoldable pub insert : String → V → Dict V → Dict V
  insert key value [] = (key, value) ∷ []
  insert key value ((name, old) ∷ rest) =
      if str_eq name key then (name, value) ∷ rest else (name, old) ∷ insert key value rest

  abbrev pub values : Dict V → List V
  values [] = []
  values ((name, value) ∷ rest) = value ∷ values rest

  abbrev pub keys : Dict V → List String
  keys [] = []
  keys ((name, value) ∷ rest) = name ∷ keys rest

  -- `d.get(key)`
  unfoldable pub lookup : String → Dict V → Option V
  lookup key [] = none
  lookup key ((name, value) ∷ rest) = if str_eq name key then some value else lookup key rest

  -- A look-up after an update: the new value at its key, and the old one at any other.
  pub lookup-insert :
      (key other : String) (value : V) (m : Dict V)
      → lookup other (insert key value m)
        ≡ (if str_eq key other then some value else lookup other m)
  unfolding insert lookup
  lookup-insert key other value [] = refl
  lookup-insert key other value ((name, old) ∷ rest) = ground (
    arith,
    lookup-insert key other value rest,
    eq_iff name key,
    eq_iff name other,
    eq_iff key other,
  )
