-- ===== src/Base/Sorting.antt =====
-- Go's `sort.Ints`: the same numbers in ascending order.
use Prim.Native.Nat.{ℕ, suc}
use mathlib.Core.Path.{◌≡◌, refl}
use mathlib.Core.Bool.{false, ◌||◌}
use mathlib.Core.List.{List, [], ◌∷◌}
use native.Mathlib.Omega.{arith}
use async_agreement_protocol.Base.Tests.{leb, eqb, if◌then◌else◌}
use async_agreement_protocol.Base.Lists.{length}
use async_agreement_protocol.Base.Equality.{nat_comparable}
use async_agreement_protocol.Base.Members.{contains, Distinct}
use async_agreement_protocol.Base.Counting.{IsId, AllIds}

unfoldable pub insert_sorted : ℕ → List ℕ → List ℕ
insert_sorted a [] = a ∷ []
insert_sorted a (x ∷ xs) = if leb a x then a ∷ x ∷ xs else x ∷ insert_sorted a xs

unfoldable pub sort : List ℕ → List ℕ
sort [] = []
sort (x ∷ xs) = insert_sorted x (sort xs)

contains-insert_sorted :
    (a i : ℕ) (xs : List ℕ) → contains (insert_sorted a xs) i ≡ (eqb a i || contains xs i)
unfolding insert_sorted
contains-insert_sorted a i [] = refl
contains-insert_sorted a i (x ∷ xs) = ground (arith, contains-insert_sorted a i xs)

pub contains-sort : (i : ℕ) (xs : List ℕ) → contains (sort xs) i ≡ contains xs i
unfolding sort
contains-sort i [] = refl
contains-sort i (x ∷ xs) = ground (arith, contains-insert_sorted x i (sort xs), contains-sort i xs)

length-insert_sorted : (a : ℕ) (xs : List ℕ) → length (insert_sorted a xs) ≡ suc (length xs)
unfolding insert_sorted
length-insert_sorted a [] = refl
length-insert_sorted a (x ∷ xs) = ground (arith, length-insert_sorted a xs)

pub length-sort : (xs : List ℕ) → length (sort xs) ≡ length xs
unfolding sort
length-sort [] = refl
length-sort (x ∷ xs) = omega (arith, length-insert_sorted x (sort xs), length-sort xs)

insert_sorted-Distinct :
    (a : ℕ) (xs : List ℕ) → contains xs a ≡ false → Distinct xs → Distinct (insert_sorted a xs)
unfolding insert_sorted
insert_sorted-Distinct a [] h d = (refl, tt)
insert_sorted-Distinct a (x ∷ xs) h d =
    ground (arith, insert_sorted-Distinct a xs, contains-insert_sorted a x xs)

pub sort-Distinct : (xs : List ℕ) → Distinct xs → Distinct (sort xs)
unfolding sort
sort-Distinct [] d = tt
sort-Distinct (x ∷ xs) d =
    insert_sorted-Distinct x (sort xs) (ground (arith, contains-sort x xs, d.0))
      (sort-Distinct xs d.1)

insert_sorted-AllIds :
    (n a : ℕ) (xs : List ℕ) → IsId n a → AllIds n xs → AllIds n (insert_sorted a xs)
unfolding insert_sorted
insert_sorted-AllIds n a [] h d = (h, tt)
insert_sorted-AllIds n a (x ∷ xs) h d = ground (arith, insert_sorted-AllIds n a xs)

pub sort-AllIds : (n : ℕ) (xs : List ℕ) → AllIds n xs → AllIds n (sort xs)
unfolding sort
sort-AllIds n [] d = tt
sort-AllIds n (x ∷ xs) d = insert_sorted-AllIds n x (sort xs) d.0 (sort-AllIds n xs d.1)
