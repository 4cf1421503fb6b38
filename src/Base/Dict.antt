-- ===== src/Base/Dict.antt =====
-- Python's `dict` in insertion order.
use mathlib.Core.Path.{◌≡◌, refl}
use mathlib.Core.Option.{Option, none, some}
use mathlib.Core.List.{List, [], ◌∷◌}
use native.Mathlib.Omega.{arith}
use apatchy.Base.Tests.{if◌then◌else◌}
use apatchy.Base.Equality.{Eq, ◌==◌}

abbrev pub Dict {ℓ κ} : Type ℓ → Type κ → Type (ℓ ⊔ κ)
Dict K V = List (K × V)

abbrev pub keys {ℓ κ} : {K : Type ℓ} {V : Type κ} → Dict K V → List K
keys [] = []
keys ((k, _) ∷ d) = k ∷ keys d

module _ {ℓ κ} {K : Type ℓ} {V : Type κ} ⦃e : Eq K⦄ where
  -- `d.get(k)`
  abbrev pub lookup : K → Dict K V → Option V
  lookup k [] = none
  lookup k ((j, v) ∷ d) = if k == j then some v else lookup k d

  -- `d.get(k, default)`
  abbrev pub get_or : K → Dict K V → V → V
  get_or k d default = elim (lookup k d) [ none ↦ default | some v ↦ v ]

  -- `d[k] = v`
  unfoldable pub insert : K → V → Dict K V → Dict K V
  insert k v [] = (k, v) ∷ []
  insert k v ((j, w) ∷ d) = if k == j then (j, v) ∷ d else (j, w) ∷ insert k v d

  -- `d.update(items)`
  abbrev pub insert_all : List (K × V) → Dict K V → Dict K V
  insert_all [] d = d
  insert_all ((k, v) ∷ items) d = insert_all items (insert k v d)

  pub lookup-insert :
      (j k : K) (v : V) (d : Dict K V)
      → lookup j (insert k v d) ≡ (if j == k then some v else lookup j d)
  unfolding insert
  lookup-insert j k v [] = refl
  lookup-insert j k v ((i, w) ∷ d) = ground (arith, lookup-insert j k v d)
