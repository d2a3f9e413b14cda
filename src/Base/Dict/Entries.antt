-- ===== src/Base/Dict/Entries.antt =====
-- Predicates over the entries of a map, and what insertion and deletion do to them.
use mathlib.Core.Path.{◌≡◌, refl, sym, ap, ◌∙◌, subst}
use mathlib.Core.Logic.{inl, inr}
use mathlib.Core.List.{List, [], ◌∷◌}
use mathlib.Core.Option.{Option, none, some}
use native.Mathlib.Omega.{arith}
use laitos.Base.Tests.{Bool-cases}
use laitos.Base.Ascii.{Bytes, equal, equal_iff}
use laitos.Base.Dict.{lookup, insert, delete, lookup-insert, lookup-delete}

module _ {ℓ} {V : Type ℓ} where
  -- No key stands twice.
  abbrev pub Distinct : List (Bytes × V) → Type ℓ
  Distinct [] = Unit
  Distinct ((key, _) ∷ rest) = (lookup key rest ≡ none) × Distinct rest

  pub insert-Distinct :
      (key : Bytes) (new : V) (dict : List (Bytes × V))
      → Distinct dict
      → Distinct (insert key new dict)
  unfolding insert lookup
  insert-Distinct key new [] d = (refl, tt)
  insert-Distinct key new ((name, old) ∷ rest) (n, d) = elim (Bool-cases (equal name key)) [
    | inl y ↦ rw y (ap (λ k. lookup k rest) (sym ((equal_iff name key).0 y)) ∙ n, d)
    | inr m ↦ rw m (
      lookup-insert key name new rest ∙ ground (arith, equal_iff name key, equal_iff key name, n),
      insert-Distinct key new rest d,
    )
  ]

  pub delete-Distinct :
      (key : Bytes) (dict : List (Bytes × V)) → Distinct dict → Distinct (delete key dict)
  unfolding delete
  delete-Distinct key [] d = tt
  delete-Distinct key ((name, old) ∷ rest) (n, d) = elim (Bool-cases (equal key name)) [
    | inl y ↦ rw y (delete-Distinct key rest d)
    | inr m ↦ rw m (lookup-delete key name rest ∙ ground (arith, n), delete-Distinct key rest d)
  ]

  module _ {κ} (P : V → Type κ) where
    -- Every value of the map.
    abbrev pub AllValues : List (Bytes × V) → Type κ
    AllValues [] = Unit
    AllValues ((_, value) ∷ rest) = P value × AllValues rest

    pub insert-AllValues :
        (key : Bytes) (new : V) (dict : List (Bytes × V))
        → P new
        → AllValues dict
        → AllValues (insert key new dict)
    unfolding insert
    insert-AllValues key new [] p a = (p, tt)
    insert-AllValues key new ((name, old) ∷ rest) p (q, a) = elim (Bool-cases (equal name key)) [
      | inl y ↦ rw y (p, a)
      | inr m ↦ rw m (q, insert-AllValues key new rest p a)
    ]

    pub delete-AllValues :
        (key : Bytes) (dict : List (Bytes × V)) → AllValues dict → AllValues (delete key dict)
    unfolding delete
    delete-AllValues key [] a = tt
    delete-AllValues key ((name, old) ∷ rest) (q, a) = elim (Bool-cases (equal key name)) [
      | inl y ↦ rw y (delete-AllValues key rest a)
      | inr m ↦ rw m (q, delete-AllValues key rest a)
    ]

    pub lookup-AllValues :
        (key : Bytes) (dict : List (Bytes × V)) {value : V}
        → AllValues dict
        → lookup key dict ≡ some value
        → P value
    unfolding lookup
    lookup-AllValues key [] a e = absurd (cc)
    lookup-AllValues key ((name, old) ∷ rest) {value} (q, a) e =
        elim (Bool-cases (equal name key)) [
          | inl y ↦
              let e' : ◌≡◌ {A = Option V} (some old) (some value) = rw y at e in
              let same : old ≡ value = cc in subst P same q
          | inr m ↦ lookup-AllValues key rest a (rw m at e)
        ]
