-- ===== src/Printf/Laid.antt =====
-- Lists of bytes and of words in memory.
use psych_os.Base.{
  ℕ, suc, ◌+◌, ◌-◌, ◌≡◌, ◌≢◌, refl, ap, ap₂, sym, subst, ◌∙◌, arith, List, [], ◌∷◌, ◌++◌, Mem,
  bytes, length, get_or, lt-or-le, inl, inr,
}
use psych_os.Printf.Puts.{IsString}
use psych_os.Printf.Pieces.{StandsAt}

abbrev pub NoNul : List ℕ → Type 0
NoNul [] = Unit
NoNul (c ∷ cs) = (c ≢ 0) × NoNul cs

-- The list stands in memory from `a` on.
abbrev pub StandsIn : Mem → ℕ → List ℕ → Type 0
StandsIn m a [] = Unit
StandsIn m a (c ∷ cs) = (m a ≡ c) × StandsIn m (a + 1) cs

StandsIn-suc :
    (m m' : Mem) (a : ℕ) (cs : List ℕ)
    → ((j : ℕ) → m (suc j) ≡ m' j)
    → StandsIn m' a cs
    → StandsIn m (suc a) cs
StandsIn-suc m m' a [] e h = tt
StandsIn-suc m m' a (c ∷ cs) e h =
    let next : suc (a + 1) ≡ suc a + 1 = omega arith in
    (e a ∙ h.0, subst (λ t. StandsIn m t cs) next (StandsIn-suc m m' (a + 1) cs e h.1))

get_or-StandsIn : (cs : List ℕ) → StandsIn (λ i. get_or cs i 0) 0 cs
get_or-StandsIn [] = tt
get_or-StandsIn (c ∷ cs) =
    (refl, StandsIn-suc _ (λ i. get_or cs i 0) 0 cs (λ j. refl) (get_or-StandsIn cs))

-- Behind a first part.
pub append-StandsIn :
    (front cs : List ℕ) → StandsIn (λ i. get_or (front ++ cs) i 0) (length front) cs
append-StandsIn [] cs = get_or-StandsIn cs
append-StandsIn (c ∷ front) cs =
    StandsIn-suc _ (λ i. get_or (front ++ cs) i 0) (length front) cs (λ j. refl)
      (append-StandsIn front cs)

pub front-StandsIn : (front cs : List ℕ) → StandsIn (λ i. get_or (front ++ cs) i 0) 0 (front ++ cs)
front-StandsIn front cs = get_or-StandsIn (front ++ cs)

pub StandsAt-of_StandsIn :
    (m : Mem) (a : ℕ) (cs rest : List ℕ) → StandsIn m a (cs ++ 0 ∷ rest) → StandsAt m a cs
StandsAt-of_StandsIn m a [] rest h = h.0
StandsAt-of_StandsIn m a (c ∷ cs) rest h = (h.0, StandsAt-of_StandsIn m (a + 1) cs rest h.1)

module _ (m : Mem) where
  IsString-suc : (a k : ℕ) → m a ≢ 0 → IsString m (a + 1) k → IsString m a (suc k)
  IsString-suc a k n i = record {
    before = λ j l. elim (lt-or-le j 1) [
      | inl first ↦ λ z. n (ap m (omega arith) ∙ z)
      | inr later ↦
          let e : j ≡ suc (j - 1) = omega arith in
          λ z. i.before (j - 1) (omega arith) (ap m (omega arith) ∙ z)
    ];
    ends = ap m (omega arith) ∙ i.ends;
  }

  pub StandsAt-IsString :
      (a : ℕ) (cs : List ℕ) → NoNul cs → StandsAt m a cs → IsString m a (length cs)
  StandsAt-IsString a [] n h = record {
    before = λ j l. absurd (omega arith);
    ends = ap m (omega arith) ∙ h;
  }
  StandsAt-IsString a (c ∷ cs) n h =
      IsString-suc a (length cs) (λ z. n.0 (sym h.0 ∙ z)) (StandsAt-IsString (a + 1) cs n.1 h.1)

  pub StandsAt-bytes : (a : ℕ) (cs : List ℕ) → StandsAt m a cs → bytes m a (length cs) ≡ cs
  StandsAt-bytes a [] h = refl
  StandsAt-bytes a (c ∷ cs) h = ap₂ ◌∷◌ h.0 (StandsAt-bytes (a + 1) cs h.1)

  pub IsString-unique : (a j k : ℕ) → IsString m a j → IsString m a k → j ≡ k
  IsString-unique a j k i i' = elim (lt-or-le j k) [
    | inl l ↦ absurd (i'.before j l (i.ends))
    | inr l ↦ elim (lt-or-le k j) [
      | inl l' ↦ absurd (i.before k l' (i'.ends))
      | inr l' ↦ omega arith
    ]
  ]

  pub StandsIn-behind :
      (a : ℕ) (cs rest : List ℕ)
      → StandsIn m a (cs ++ 0 ∷ rest)
      → StandsIn m (a + length cs + 1) rest
  StandsIn-behind a [] rest h =
      let e : a + 1 ≡ a + 0 + 1 = omega arith in subst (λ t. StandsIn m t rest) e h.1
  StandsIn-behind a (c ∷ cs) rest h =
      let e : a + 1 + length cs + 1 ≡ a + suc (length cs) + 1 = omega arith in
      subst (λ t. StandsIn m t rest) e (StandsIn-behind (a + 1) cs rest h.1)
