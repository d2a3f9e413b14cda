-- ===== src/Base/Dict.antt =====
-- Go's maps keyed by strings, as association lists.
pub mod Entries
use mathlib.Core.Path.{◌≡◌, refl}
use mathlib.Core.List.{List, [], ◌∷◌}
use mathlib.Core.Option.{Option, none, some}
use native.Mathlib.Omega.{arith}
use laitos.Base.Tests.{if◌then◌else◌}
use laitos.Base.Ascii.{Bytes, equal, equal_iff}

module _ {ℓ} {V : Type ℓ} where
  unfoldable pub lookup : Bytes → List (Bytes × V) → Option V
  lookup key [] = none
  lookup key ((name, value) ∷ rest) = if equal name key then some value else lookup key rest

  unfoldable pub insert : Bytes → V → List (Bytes × V) → List (Bytes × V)
  insert key new [] = (key, new) ∷ []
  insert key new ((name, old) ∷ rest) =
      if equal name key then (key, new) ∷ rest else (name, old) ∷ insert key new rest

  pub lookup-insert :
      (key other : Bytes) (new : V) (dict : List (Bytes × V))
      → lookup other (insert key new dict)
        ≡ (if equal key other then some new else lookup other dict)
  unfolding lookup insert
  lookup-insert key other new [] = refl
  lookup-insert key other new ((name, old) ∷ rest) =
      let behind = lookup-insert key other new rest in
      ground
        (arith, equal_iff other key, equal_iff name other, equal_iff key name, equal_iff other name)

  -- `delete(dict, key)`
  unfoldable pub delete : Bytes → List (Bytes × V) → List (Bytes × V)
  delete key [] = []
  delete key ((name, value) ∷ rest) =
      let kept = delete key rest in if equal key name then kept else (name, value) ∷ kept

  pub lookup-delete :
      (key other : Bytes) (dict : List (Bytes × V))
      → lookup other (delete key dict) ≡ (if equal key other then none else lookup other dict)
  unfolding lookup delete
  lookup-delete key other [] = ground arith
  lookup-delete key other ((name, value) ∷ rest) =
      let behind = lookup-delete key other rest in
      ground (arith, equal_iff key other, equal_iff name other, equal_iff key name)
