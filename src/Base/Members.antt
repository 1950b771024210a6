-- ===== src/Base/Members.antt =====
-- Go's `map[int]bool` used as a set: every value ever stored is `true`, so the map is the list of
-- its keys, each once, and `len` is the length of the list.
use mathlib.Core.Path.{◌≡◌, refl}
use mathlib.Core.Bool.{Bool, false, ◌||◌}
use mathlib.Core.List.{List, [], ◌∷◌, ◌++◌}
use native.Mathlib.Omega.{arith}
use async_agreement_protocol.Base.Tests.{if◌then◌else◌}
use async_agreement_protocol.Base.Equality.{Comparable, ◌==◌}

module _ {ℓ} {A : Type ℓ} ⦃c : Comparable A⦄ where
  abbrev pub contains : List A → A → Bool
  contains [] sought = false
  contains (x ∷ xs) sought = x == sought || contains xs sought

  -- `m[a] = true`
  unfoldable pub add : A → List A → List A
  add a xs = if contains xs a then xs else a ∷ xs

  -- No key stands twice.
  abbrev pub Distinct : List A → Type 0
  Distinct [] = Unit {0}
  Distinct (x ∷ xs) = (contains xs x ≡ false) × Distinct xs

  pub contains-add : (a b : A) (xs : List A) → contains (add a xs) b ≡ (a == b || contains xs b)
  unfolding add
  contains-add a b xs = ground (arith, c.equal_iff a b)

  pub add-Distinct : (a : A) (xs : List A) → Distinct xs → Distinct (add a xs)
  unfolding add
  add-Distinct a xs d = ground arith

  pub contains-append :
      (xs ys : List A) (a : A) → contains (xs ++ ys) a ≡ (contains xs a || contains ys a)
  contains-append [] ys a = refl
  contains-append (x ∷ xs) ys a = ground (arith, contains-append xs ys a)
