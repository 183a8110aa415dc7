-- ===== src/Prelude/Int.antt =====
-- Integers over the native numbers: the identifiers of users and of API keys.
use Prim.Native.Nat.{ℕ, zero, suc}
use mathlib.Core.Path.{◌≡◌, ap}
use mathlib.Core.Bool.{Bool, true, false}
use native.Mathlib.Omega.{arith}
use open_vtl.Prelude.Tests.{◌==◌, ==_iff}

pub data ℤ : Type 0 where
  pos negsuc : ℕ → ℤ

-- -k
abbrev pub neg : ℕ → ℤ
neg zero = pos 0
neg (suc k) = negsuc k

abbrev pub int_eq : ℤ → ℤ → Bool
int_eq (pos m) (pos n) = m == n
int_eq (negsuc m) (negsuc n) = m == n
int_eq (pos m) (negsuc n) = false
int_eq (negsuc m) (pos n) = false

pub int_eq_sound : (a b : ℤ) → int_eq a b ≡ true → a ≡ b
int_eq_sound (pos m) (pos n) h = ap pos ((==_iff m n).0 h)
int_eq_sound (negsuc m) (negsuc n) h = ap negsuc ((==_iff m n).0 h)
int_eq_sound (pos m) (negsuc n) h = cc
int_eq_sound (negsuc m) (pos n) h = cc

pub int_eq_refl : (a : ℤ) → int_eq a a ≡ true
int_eq_refl (pos m) = ground arith
int_eq_refl (negsuc m) = ground arith
