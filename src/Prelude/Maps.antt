-- ===== src/Prelude/Maps.antt =====
-- A Go map with string keys: an association list with one entry for a key.
use mathlib.Core.Path.{◌≡◌, refl}
use mathlib.Core.Option.{Option, none, some}
use mathlib.Core.List.{List, [], ◌∷◌}
use native.Mathlib.Omega.{arith}
use sovereign_core.Prelude.Tests.{if◌then◌else◌}
use sovereign_core.Prelude.Strings.{Text, ◌==◌, ==_iff}

abbrev pub Dict {ℓ} : Type ℓ → Type ℓ
Dict V = List (Text × V)

-- Two entries are compared by their keys; `insert` writes over the entry of the key or adds one at
-- the end, and `remove` drops it.
module _ {ℓ} {V : Type ℓ} where
  unfoldable pub lookup : Text → Dict V → Option V
  lookup key [] = none
  lookup key ((key', value) ∷ rest) = if key' == key then some value else lookup key rest

  unfoldable pub insert : Text → V → Dict V → Dict V
  insert key new [] = (key, new) ∷ []
  insert key new ((key', old) ∷ rest) =
      let later = insert key new rest in
      if key' == key then (key, new) ∷ rest else (key', old) ∷ later

  unfoldable pub remove : Text → Dict V → Dict V
  remove key [] = []
  remove key ((key', old) ∷ rest) =
      let later = remove key rest in if key' == key then later else (key', old) ∷ later

  pub lookup-insert :
      (key asked : Text) (new : V) (dict : Dict V)
      → lookup asked (insert key new dict) ≡ (if key == asked then some new else lookup asked dict)
  unfolding lookup insert
  lookup-insert key asked new [] = refl
  lookup-insert key asked new ((key', old) ∷ rest) = ground (
    arith,
    lookup-insert key asked new rest,
    ==_iff key' key,
    ==_iff key asked,
    ==_iff key' asked,
  )

  pub lookup-remove :
      (key asked : Text) (dict : Dict V)
      → lookup asked (remove key dict) ≡ (if key == asked then none else lookup asked dict)
  unfolding lookup remove
  lookup-remove key asked [] = ground arith
  lookup-remove key asked ((key', old) ∷ rest) =
      ground
        (arith, lookup-remove key asked rest, ==_iff key' key, ==_iff key asked, ==_iff key' asked)

pub ruleset dict_laws = (lookup-insert, lookup-remove)
