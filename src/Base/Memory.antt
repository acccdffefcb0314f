-- ===== src/Base/Memory.antt =====
-- Memory as a function from addresses, or from offsets into one object, to bytes.
use Prim.Native.Nat.{ℕ, zero, suc, ◌+◌, ◌≤◌, ◌<◌}
use mathlib.Core.Path.{◌≡◌, refl, ap₂}
use mathlib.Core.List.{List, [], ◌∷◌}
use native.Mathlib.Omega.{arith}
use psych_os.Base.Tests.{◌==◌, if◌then◌else◌}

abbrev pub Mem : Type 0
Mem = ℕ → ℕ

abbrev pub store : Mem → ℕ → ℕ → Mem
store m a v x = if a == x then v else m x

-- The `n` bytes from address `a` on.
abbrev pub bytes : Mem → ℕ → ℕ → List ℕ
bytes m a zero = []
bytes m a (suc n) = m a ∷ bytes m (a + 1) n

-- Two memories that agree on a range hold the same bytes there.
pub bytes-congr :
    (m m' : Mem) (a n : ℕ) → ((x : ℕ) → a ≤ x → x < a + n → m' x ≡ m x) → bytes m' a n ≡ bytes m a n
bytes-congr m m' a zero same = refl
bytes-congr m m' a (suc n) same =
    ap₂ ◌∷◌ (same a (omega arith) (omega arith))
      (bytes-congr m m' (a + 1) n (λ x l h. same x (omega arith) (omega arith)))

-- A family with one member replaced.
abbrev pub update {ℓ} : {A : Type ℓ} → (ℕ → A) → ℕ → A → ℕ → A
update f i a j = if i == j then a else f j
