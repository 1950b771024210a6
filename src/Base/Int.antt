-- ===== src/Base/Int.antt =====
-- Go's signed `int`, where a value may be -1: the integers, over the native numbers.
use Prim.Native.Nat.{ℕ}
use mathlib.Core.Path.{◌≡◌}
use mathlib.Core.Logic.{◌↔◌}
use mathlib.Core.Bool.{Bool, true, false}
use native.Mathlib.Omega.{arith}
use async_agreement_protocol.Base.Tests.{eqb}
use async_agreement_protocol.Base.Equality.{Comparable}

-- `negsuc n` is -(n + 1).
pub data ℤ : Type 0 where
  pos : ℕ → ℤ
  negsuc : ℕ → ℤ

abbrev pub int_eq : ℤ → ℤ → Bool
int_eq (pos a) (pos b) = eqb a b
int_eq (negsuc a) (negsuc b) = eqb a b
int_eq (pos a) (negsuc b) = false
int_eq (negsuc a) (pos b) = false

pub int_eq_iff : (a b : ℤ) → (int_eq a b ≡ true) ↔ (a ≡ b)
int_eq_iff a b = ground arith

instance abbrev pub int_comparable : Comparable ℤ
int_comparable = record { equal = int_eq; equal_iff = int_eq_iff }

abbrev pub minus_one : ℤ
minus_one = negsuc 0
