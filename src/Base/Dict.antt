-- ===== src/Base/Dict.antt =====
-- Go's `map[K]V` as an association list. A key stands at the place of its first insertion.
use mathlib.Core.Path.{◌≡◌, refl}
use mathlib.Core.List.{List, [], ◌∷◌}
use mathlib.Core.Option.{Option, none, some}
use native.Mathlib.Omega.{arith}
use telemetry_one_backend.Base.Tests.{if◌then◌else◌, EqTest, ◌==◌, beq_refl}

abbrev pub Dict {ℓ κ} : Type ℓ → Type κ → Type (ℓ ⊔ κ)
Dict K V = List (K × V)

module _ {ℓ κ} {K : Type ℓ} {V : Type κ} ⦃e : EqTest K⦄ where
  -- `v, ok := m[k]`
  unfoldable pub lookup : K → Dict K V → Option V
  lookup k [] = none
  lookup k ((j, v) ∷ m) = if j == k then some v else lookup k m

  -- `m[k] = v`
  unfoldable pub insert : K → V → Dict K V → Dict K V
  insert k v [] = (k, v) ∷ []
  insert k v ((j, w) ∷ m) = if j == k then (j, v) ∷ m else (j, w) ∷ insert k v m

  pub lookup-insert :
      (key other : K) (value : V) (m : Dict K V)
      → lookup other (insert key value m) ≡ (if key == other then some value else lookup other m)
  unfolding insert lookup
  lookup-insert key other value [] = refl
  lookup-insert key other value ((first, w) ∷ m) = ground (
    arith,
    e.test_iff first key,
    e.test_iff first other,
    e.test_iff key other,
    lookup-insert key other value m,
  )

  pub lookup-insert_self :
      (key : K) (value : V) (m : Dict K V) → lookup key (insert key value m) ≡ some value
  lookup-insert_self key value m = rw (lookup-insert, beq_refl key)
