-- ===== src/Common/Ints.antt =====
-- Integers in two halves, with the order of Go's `int`.
use Prim.Native.Nat.{ℕ}
use mathlib.Core.Bool.{Bool, true, false}
use mathlib.Core.Path.{◌≡◌, refl}
use mathlib.Core.Logic.{◌↔◌, ◌⊎◌, inl, inr}
use native.Mathlib.Omega.{arith}
use vel.Common.Tests.{ltb, eqb}

pub data ℤ : Type 0 where
  pos : ℕ → ℤ
  negsuc : ℕ → ℤ

unfoldable pub int_ltb : ℤ → ℤ → Bool
int_ltb (pos m) (pos n) = ltb m n
int_ltb (pos m) (negsuc n) = false
int_ltb (negsuc m) (pos n) = true
int_ltb (negsuc m) (negsuc n) = ltb n m

unfoldable pub int_eqb : ℤ → ℤ → Bool
int_eqb (pos m) (pos n) = eqb m n
int_eqb (pos m) (negsuc n) = false
int_eqb (negsuc m) (pos n) = false
int_eqb (negsuc m) (negsuc n) = eqb m n

pub int_eqb_iff : (i j : ℤ) → (int_eqb i j ≡ true) ↔ (i ≡ j)
unfolding int_eqb
int_eqb_iff (pos m) (pos n) = ground arith
int_eqb_iff (pos m) (negsuc n) = ground arith
int_eqb_iff (negsuc m) (pos n) = ground arith
int_eqb_iff (negsuc m) (negsuc n) = ground arith

pub int_ltb_irrefl : (i : ℤ) → int_ltb i i ≡ false
unfolding int_ltb
int_ltb_irrefl (pos m) = ground arith
int_ltb_irrefl (negsuc m) = ground arith

pub int_ltb_trans : (i j k : ℤ) → int_ltb i j ≡ true → int_ltb j k ≡ true → int_ltb i k ≡ true
unfolding int_ltb
int_ltb_trans (pos m) (pos n) (pos o) p q = ground arith
int_ltb_trans (pos m) (pos n) (negsuc o) p q = absurd (ground arith)
int_ltb_trans (pos m) (negsuc n) k p q = absurd (ground arith)
int_ltb_trans (negsuc m) (pos n) (pos o) p q = refl
int_ltb_trans (negsuc m) (pos n) (negsuc o) p q = absurd (ground arith)
int_ltb_trans (negsuc m) (negsuc n) (pos o) p q = refl
int_ltb_trans (negsuc m) (negsuc n) (negsuc o) p q = ground arith

pub int_ltb-total : (i j : ℤ) → (i ≡ j) ⊎ (int_ltb i j ≡ true) ⊎ (int_ltb j i ≡ true)
unfolding int_ltb
int_ltb-total (pos m) (pos n) = ground arith
int_ltb-total (pos m) (negsuc n) = inr (inr refl)
int_ltb-total (negsuc m) (pos n) = inr (inl refl)
int_ltb-total (negsuc m) (negsuc n) = ground arith
