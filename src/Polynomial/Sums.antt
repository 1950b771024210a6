-- ===== src/Polynomial/Sums.antt =====
-- Finite sums of natural numbers, and their residues.
use native.Mathlib.Nat.{add-mod, add-mul-mod_self_left, div-add-mod}
use async_agreement_protocol.Base.{ℕ, zero, suc, ◌+◌, ◌*◌, ◌/◌, ◌%◌, ◌≡◌, refl, sym, ap, ◌∙◌, arith}

-- f 0 + ... + f (n - 1)
pub sum_to : ℕ → (ℕ → ℕ) → ℕ
sum_to zero f = 0
sum_to (suc n) f = f 0 + sum_to n (λ i. f (suc i))

pub sum_to-zero : (f : ℕ → ℕ) → sum_to 0 f ≡ 0
unfolding sum_to
sum_to-zero f = refl

pub sum_to-suc : (n : ℕ) (f : ℕ → ℕ) → sum_to (suc n) f ≡ f 0 + sum_to n (λ i. f (suc i))
unfolding sum_to
sum_to-suc n f = refl

pub sum_to_ext : (n : ℕ) (f g : ℕ → ℕ) → ((i : ℕ) → f i ≡ g i) → sum_to n f ≡ sum_to n g
unfolding sum_to
sum_to_ext zero f g h = refl
sum_to_ext (suc n) f g h =
    omega (arith, h 0, sum_to_ext n (λ i. f (suc i)) (λ i. g (suc i)) (λ i. h (suc i)))

sum_to_zeros : (n : ℕ) → sum_to n (λ i. 0) ≡ 0
unfolding sum_to
sum_to_zeros zero = refl
sum_to_zeros (suc n) = omega (arith, sum_to_zeros n)

sum_to-add : (n : ℕ) (f g : ℕ → ℕ) → sum_to n (λ i. f i + g i) ≡ sum_to n f + sum_to n g
unfolding sum_to
sum_to-add zero f g = refl
sum_to-add (suc n) f g = omega (arith, sum_to-add n (λ i. f (suc i)) (λ i. g (suc i)))

pub sum_to-mul : (n c : ℕ) (f : ℕ → ℕ) → c * sum_to n f ≡ sum_to n (λ i. c * f i)
unfolding sum_to
sum_to-mul zero c f = omega arith
sum_to-mul (suc n) c f = omega (arith, sum_to-mul n c (λ i. f (suc i)))

-- The order of two sums may be changed.
pub sum_to_swap :
    (n m : ℕ) (f : ℕ → ℕ → ℕ)
    → sum_to n (λ i. sum_to m (λ j. f i j)) ≡ sum_to m (λ j. sum_to n (λ i. f i j))
sum_to_swap zero m f =
    sum_to-zero _ ∙ sym (sum_to_ext m _ _ (λ j. sum_to-zero (λ i. f i j)) ∙ sum_to_zeros m)
sum_to_swap (suc n) m f =
    sum_to-suc n _
    ∙ ap (λ s. sum_to m (λ j. f 0 j) + s) (sum_to_swap n m (λ i. f (suc i)))
    ∙ sym (
        sum_to_ext m _ _ (λ j. sum_to-suc n (λ i. f i j))
        ∙ sum_to-add m (f 0) (λ j. sum_to n (λ i. f (suc i) j)))

split_mul : (a b m : ℕ) → a * b ≡ a % m * b + m * (a / m * b)
split_mul a b m = grind (arith, div-add-mod a m)

pub mod-mul-mod : (a b m : ℕ) → (a % m * b) % m ≡ (a * b) % m
mod-mul-mod a b m =
    sym (ap (λ x. x % m) (split_mul a b m) ∙ add-mul-mod_self_left (a % m * b) m (a / m * b))

-- Residues of sums of equal residues.
pub sum_to_mod :
    (p n : ℕ) (f g : ℕ → ℕ) → ((i : ℕ) → f i % p ≡ g i % p) → sum_to n f % p ≡ sum_to n g % p
unfolding sum_to
sum_to_mod p zero f g h = refl
sum_to_mod p (suc n) f g h =
    add-mod (f 0) _ p
    ∙ ap (λ x. (x + sum_to n (λ i. f (suc i)) % p) % p) (h 0)
    ∙ ap (λ x. (g 0 % p + x) % p)
        (sum_to_mod p n (λ i. f (suc i)) (λ i. g (suc i)) (λ i. h (suc i)))
    ∙ sym (add-mod (g 0) _ p)
