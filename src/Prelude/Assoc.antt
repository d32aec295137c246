-- ===== src/Prelude/Assoc.antt =====
-- A Go map with text keys as an association list.
use Prim.Native.String.{String}
use mathlib.Core.Path.{◌≡◌, refl}
use mathlib.Core.Bool.{Bool, not}
use mathlib.Core.List.{List, [], ◌∷◌}
use mathlib.Core.Option.{Option, none, some}
use native.Mathlib.Omega.{arith}
use text.Mathlib.Text.{◌==◌}
use text.Mathlib.TextEquality.{eq_iff}
use bandolier.Prelude.Tests.{if◌then◌else◌}
use bandolier.Prelude.Lists.{keep}

module _ {ℓ} {V : Type ℓ} where
  -- The first entry of the key counts; `insert` keeps one entry for each.
  unfoldable pub lookup : String → List (String × V) → Option V
  lookup key [] = none
  lookup key (entry ∷ rest) = if entry.0 == key then some entry.1 else lookup key rest

  -- The value, or the zero value of a missing key.
  unfoldable pub get_or : String → V → List (String × V) → V
  get_or key zero_value [] = zero_value
  get_or key zero_value (entry ∷ rest) =
      if entry.0 == key then entry.1 else get_or key zero_value rest

  unfoldable pub insert : String → V → List (String × V) → List (String × V)
  insert key value [] = (key, value) ∷ []
  insert key value (entry ∷ rest) =
      let others = insert key value rest in
      if entry.0 == key then (key, value) ∷ rest else entry ∷ others

  abbrev other_key : String → String × V → Bool
  other_key key entry = not (entry.0 == key)

  unfoldable pub erase : String → List (String × V) → List (String × V)
  erase key entries = keep (other_key key) entries

  -- What is found at `asked` after the key `set` was given a value.
  pub lookup-insert :
      (set asked : String) (value : V) (entries : List (String × V))
      → lookup asked (insert set value entries)
        ≡ (if set == asked then some value else lookup asked entries)
  unfolding lookup insert
  lookup-insert set asked value [] = refl
  lookup-insert set asked value (entry ∷ rest) = ground (
    arith,
    lookup-insert set asked value rest,
    eq_iff entry.0 asked,
    eq_iff entry.0 set,
    eq_iff set asked,
  )

  pub get_or-insert :
      (set asked : String) (zero_value value : V) (entries : List (String × V))
      → get_or asked zero_value (insert set value entries)
        ≡ (if set == asked then value else get_or asked zero_value entries)
  unfolding get_or insert
  get_or-insert set asked zero_value value [] = refl
  get_or-insert set asked zero_value value (entry ∷ rest) = ground (
    arith,
    get_or-insert set asked zero_value value rest,
    eq_iff entry.0 asked,
    eq_iff entry.0 set,
    eq_iff set asked,
  )

  pub lookup-erase :
      (gone asked : String) (entries : List (String × V))
      → lookup asked (erase gone entries) ≡ (if gone == asked then none else lookup asked entries)
  unfolding lookup erase
  lookup-erase gone asked [] = ground arith
  lookup-erase gone asked (entry ∷ rest) = ground (
    arith,
    lookup-erase gone asked rest,
    eq_iff entry.0 asked,
    eq_iff entry.0 gone,
    eq_iff gone asked,
  )
