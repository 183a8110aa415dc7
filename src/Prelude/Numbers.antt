-- ===== src/Prelude/Numbers.antt =====
-- Division rounded up.
use Prim.Native.Nat.{ℕ, ◌+◌, ◌-◌, ◌*◌, ◌/◌, ◌<◌}
use mathlib.Core.Path.{◌≡◌}
use native.Mathlib.Nat.{div-eq_of_lt-le}
use native.Mathlib.Omega.{arith}

pub round_up_exact : (i s n : ℕ) → 0 < s → i * s ≡ n → (n + (s - 1)) / s ≡ i
round_up_exact i s n pos e = div-eq_of_lt-le {k = i} s (omega arith) (omega arith)

pub round_up_rest : (i s r n : ℕ) → 0 < r → r < s → i * s + r ≡ n → (n + (s - 1)) / s ≡ i + 1
round_up_rest i s r n more room e = div-eq_of_lt-le {k = i + 1} s (omega arith) (omega arith)
