-- ===== src/Base/Maps.antt =====
-- Go's `map[K]V`: an association list that holds each key once. A read of a missing key gives
-- `none`, which the callers turn into the zero value where the source does.
use mathlib.Core.Path.{◌≡◌, refl}
use mathlib.Core.Option.{Option, none, some}
use mathlib.Core.List.{List, [], ◌∷◌}
use native.Mathlib.Omega.{arith}
use async_agreement_protocol.Base.Tests.{if◌then◌else◌}
use async_agreement_protocol.Base.Equality.{Comparable, ◌==◌}

abbrev pub Map {ℓ κ} : Type ℓ → Type κ → Type (ℓ ⊔ κ)
Map K V = List (K × V)

module _ {ℓ κ} {K : Type ℓ} {V : Type κ} ⦃c : Comparable K⦄ where
  -- `v, ok := m[key]`
  unfoldable pub lookup : K → Map K V → Option V
  lookup key [] = none
  lookup key ((stored, value) ∷ rest) = if stored == key then some value else lookup key rest

  -- `m[key] = value`
  unfoldable pub insert : K → V → Map K V → Map K V
  insert key value [] = (key, value) ∷ []
  insert key value ((stored, old) ∷ rest) =
      if stored == key then (key, value) ∷ rest else (stored, old) ∷ insert key value rest

  -- `delete(m, key)`
  unfoldable pub erase : K → Map K V → Map K V
  erase key [] = []
  erase key ((stored, old) ∷ rest) =
      if stored == key then erase key rest else (stored, old) ∷ erase key rest

  pub lookup-insert :
      (key other : K) (value : V) (m : Map K V)
      → lookup other (insert key value m) ≡ (if key == other then some value else lookup other m)
  unfolding lookup insert
  lookup-insert key other value [] = refl
  lookup-insert key other value ((stored, old) ∷ rest) = ground (
    arith,
    c.equal_iff stored key,
    c.equal_iff stored other,
    c.equal_iff key other,
    lookup-insert key other value rest,
  )

  pub lookup-erase :
      (key other : K) (m : Map K V)
      → lookup other (erase key m) ≡ (if key == other then none else lookup other m)
  unfolding lookup erase
  lookup-erase key other [] = ground arith
  lookup-erase key other ((stored, old) ∷ rest) = ground (
    arith,
    c.equal_iff stored key,
    c.equal_iff stored other,
    c.equal_iff key other,
    lookup-erase key other rest,
  )
