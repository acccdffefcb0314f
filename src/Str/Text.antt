-- ===== src/Str/Text.antt =====
-- What a NUL-terminated buffer says, and `strlen`.
use psych_os.Base.{
  ℕ, zero, suc, ◌+◌, ◌≤◌, ◌<◌, ◌≡◌, ◌≢◌, ◌↔◌, ◌∙◌, refl, ap, subst, arith, some, List, [], ◌∷◌, Mem,
  ◌==◌, if◌then◌else◌, eq-or-ne, lt-or-le, inl, inr,
}
use psych_os.Str.{strlen_from, strlen}

-- The bytes from offset `i` up to the first NUL, at most `n`.
abbrev pub text : Mem → ℕ → ℕ → List ℕ
text s i zero = []
text s i (suc n) = if s i == 0 then [] else s i ∷ text s (i + 1) n

-- The first NUL at or behind offset `i` is at `n`.
pub record EndsFrom (s : Mem) (i n : ℕ) : Type 0 where
  pub reached : i ≤ n
  pub ends : s n ≡ 0
  pub before : (j : ℕ) → i ≤ j → j < n → s j ≢ 0

pub EndsFrom-suc : (s : Mem) (i n : ℕ) → s i ≢ 0 → EndsFrom s i n → EndsFrom s (i + 1) n
EndsFrom-suc s i n h e = record {
  reached = elim (eq-or-ne i n) [ inl p ↦ absurd (h (ap s p ∙ e.ends)) | inr p ↦ omega arith ];
  ends = e.ends;
  before = λ j l k. e.before j (omega arith) k;
}

pub EndsFrom-pred : (s : Mem) (i n : ℕ) → s i ≢ 0 → EndsFrom s (i + 1) n → EndsFrom s i n
EndsFrom-pred s i n h e = record {
  reached = omega arith;
  ends = e.ends;
  before = λ j l k. elim (eq-or-ne i j) [
    | inl p ↦ subst (λ t. s t ≢ 0) p h
    | inr p ↦ e.before j (omega arith) k
  ];
}

pub EndsFrom-zero : (s : Mem) (i n : ℕ) → s i ≡ 0 → EndsFrom s i n → i ≡ n
EndsFrom-zero s i n z e = elim (lt-or-le i n) [
  | inl l ↦ absurd (e.before i (omega arith) l z)
  | inr l ↦ omega (arith, e.reached)
]

strlen_from-EndsFrom :
    (fuel : ℕ) (s : Mem) (i n : ℕ) → strlen_from fuel s i ≡ some n → EndsFrom s i n × (n < i + fuel)
unfolding strlen_from
strlen_from-EndsFrom zero s i n h = cc
strlen_from-EndsFrom (suc fuel) s i n h = elim (eq-or-ne (s i) 0) [
  | inl z ↦
      let e : i ≡ n = ground arith in
      (
        record { reached = omega arith; ends = rw (← e) z; before = λ j l k. absurd (omega arith) },
        omega arith,
      )
  | inr z ↦
      let r : EndsFrom s (i + 1) n × (n < (i + 1) + fuel) =
        strlen_from-EndsFrom fuel s (i + 1) n (ground arith) in
      (EndsFrom-pred s i n z (r.0), omega (arith, r.1))
]

EndsFrom-strlen_from :
    (fuel : ℕ) (s : Mem) (i n : ℕ) → EndsFrom s i n → n < i + fuel → strlen_from fuel s i ≡ some n
unfolding strlen_from
EndsFrom-strlen_from zero s i n e l = absurd (omega (arith, e.reached))
EndsFrom-strlen_from (suc fuel) s i n e l = elim (eq-or-ne (s i) 0) [
  | inl z ↦ ground (arith, EndsFrom-zero s i n z e)
  | inr z ↦
      ground (arith, EndsFrom-strlen_from fuel s (i + 1) n (EndsFrom-suc s i n z e) (omega arith))
]

-- `strlen` returns `n` exactly when the first NUL is at offset `n` and the fuel is above `n`.
pub strlen_iff :
    (fuel : ℕ) (s : Mem) (n : ℕ) → (strlen fuel s ≡ some n) ↔ (EndsFrom s 0 n × (n < fuel))
unfolding strlen
strlen_iff fuel s n = (
  λ h.
      let r : EndsFrom s 0 n × (n < 0 + fuel) = strlen_from-EndsFrom fuel s 0 n h in
      (r.0, omega (arith, r.1)),
  λ r. EndsFrom-strlen_from fuel s 0 n r.0 (omega (arith, r.1)),
)

-- Two ways to a text.
pub text-congr :
    (s t : Mem) (i n : ℕ) → ((j : ℕ) → i ≤ j → j < i + n → t j ≡ s j) → text t i n ≡ text s i n
text-congr s t i zero h = refl
text-congr s t i (suc n) h =
    ground (arith, h i, text-congr s t (i + 1) n (λ j l k. h j (omega arith) (omega arith)))
