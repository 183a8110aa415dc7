-- ===== src/Prelude/Distinct.antt =====
-- Lists of numbers without repetition.
use Prim.Native.Nat.{ℕ, ◌+◌, ◌≤◌, ◌<◌}
use mathlib.Core.Logic.{◌≢◌}
use mathlib.Core.List.{List, [], ◌∷◌, ◌++◌}
use native.Mathlib.Omega.{arith}

abbrev pub Ascends : ℕ → List ℕ → Type 0
Ascends k [] = Unit {0}
Ascends k (n ∷ ns) = (k ≤ n) × Ascends (n + 1) ns

pub Ascends-weaken : (j k : ℕ) (ns : List ℕ) → j ≤ k → Ascends k ns → Ascends j ns
Ascends-weaken j k [] h a = tt
Ascends-weaken j k (n ∷ ns) h a = (omega arith, a.1)

abbrev pub Lacks : ℕ → List ℕ → Type 0
Lacks m [] = Unit {0}
Lacks m (n ∷ ns) = (n ≢ m) × Lacks m ns

abbrev pub Distinct : List ℕ → Type 0
Distinct [] = Unit {0}
Distinct (n ∷ ns) = Lacks n ns × Distinct ns

-- Every number is below `k`.
abbrev pub Under : ℕ → List ℕ → Type 0
Under k [] = Unit {0}
Under k (n ∷ ns) = (n < k) × Under k ns

pub Under-weaken : (j k : ℕ) (ns : List ℕ) → j ≤ k → Under j ns → Under k ns
Under-weaken j k [] h u = tt
Under-weaken j k (n ∷ ns) h u = (omega arith, Under-weaken j k ns h u.1)

pub Under-append : (k : ℕ) (ms ns : List ℕ) → Under k ms → Under k ns → Under k (ms ++ ns)
Under-append k [] ns u v = v
Under-append k (m ∷ ms) ns u v = (u.0, Under-append k ms ns u.1 v)

Ascends-Lacks : (m k : ℕ) (ns : List ℕ) → m < k → Ascends k ns → Lacks m ns
Ascends-Lacks m k [] h a = tt
Ascends-Lacks m k (n ∷ ns) h a = (omega arith, Ascends-Lacks m (n + 1) ns (omega arith) a.1)

Lacks-append : (m : ℕ) (ms ns : List ℕ) → Lacks m ms → Lacks m ns → Lacks m (ms ++ ns)
Lacks-append m [] ns g h = h
Lacks-append m (x ∷ xs) ns g h = (g.0, Lacks-append m xs ns g.1 h)

pub Ascends-Distinct : (k : ℕ) (ns : List ℕ) → Ascends k ns → Distinct ns
Ascends-Distinct k [] a = tt
Ascends-Distinct k (n ∷ ns) a =
    (Ascends-Lacks n (n + 1) ns (omega arith) a.1, Ascends-Distinct (n + 1) ns a.1)

-- Numbers above all others may follow them.
pub Distinct-append :
    (k : ℕ) (ms ns : List ℕ) → Under k ms → Distinct ms → Ascends k ns → Distinct (ms ++ ns)
Distinct-append k [] ns u d a = Ascends-Distinct k ns a
Distinct-append k (m ∷ ms) ns u d a =
    (Lacks-append m ms ns d.0 (Ascends-Lacks m k ns u.0 a), Distinct-append k ms ns u.1 d.1 a)
