-- ===== src/Str/Reverse.antt =====
-- `strrev` reverses a string in place.
use psych_os.Base.{
  ℕ, zero, suc, ◌+◌, ◌-◌, ◌≤◌, ◌<◌, ◌≡◌, ◌⊎◌, inl, inr, ◌∙◌, refl, ap, arith, some, Mem, store,
  eq-or-ne, lt-or-le,
}
use psych_os.Str.{strrev_loop, strrev}
use psych_os.Str.Text.{EndsFrom, strlen_iff}

-- `out` is `s` with the offsets from `beg` up to `stop` in reverse order.
record Reversed (s out : Mem) (beg stop : ℕ) : Type 0 where
  inside : (j : ℕ) → beg ≤ j → j < stop → out j ≡ s (beg + stop - 1 - j)
  outside : (j : ℕ) → (j < beg) ⊎ (stop ≤ j) → out j ≡ s j

abbrev swapped : Mem → ℕ → ℕ → Mem
swapped s beg stop = store (store s (stop - 1) (s beg)) beg (s (stop - 1))

Reversed-swapped :
    (s out : Mem) (beg stop : ℕ)
    → beg + 1 < stop
    → Reversed (swapped s beg stop) out (beg + 1) (stop - 1)
    → Reversed s out beg stop
Reversed-swapped s out beg stop l r = record {
  inside = λ j a b. elim (eq-or-ne beg j) [
    | inl p ↦ r.outside j (inl (omega arith)) ∙ ground arith
    | inr p ↦ elim (eq-or-ne (stop - 1) j) [
      | inl q ↦ r.outside j (inr (omega arith)) ∙ swapped_last j q
      | inr q ↦
          r.inside j (omega arith) (omega arith)
          ∙ (let e : beg + 1 + (stop - 1) - 1 - j ≡ beg + stop - 1 - j = omega arith in
              ap (swapped s beg stop) e ∙ ground arith)
    ]
  ];
  outside = λ j o. r.outside j (ground arith) ∙ ground arith;
}
  where
    swapped_last : (j : ℕ) → stop - 1 ≡ j → swapped s beg stop j ≡ s (beg + stop - 1 - j)
    swapped_last j q = let e : beg ≡ beg + stop - 1 - j = omega arith in ground (arith, ap s e)

strrev_loop-Reversed :
    (fuel : ℕ) (s : Mem) (beg stop : ℕ)
    → beg ≤ stop
    → stop < beg + fuel
    → (out : Mem) × (strrev_loop fuel s beg stop ≡ some out) × Reversed s out beg stop
unfolding strrev_loop
strrev_loop-Reversed zero s beg stop b l = absurd (omega arith)
strrev_loop-Reversed (suc fuel) s beg stop b l = elim (lt-or-le stop (beg + 2)) [
  | inl few ↦
      (s, ground arith, record { inside = λ j a c. ap s (omega arith); outside = λ j o. refl })
  | inr more ↦
      let (out, run, r) =
        strrev_loop-Reversed fuel (swapped s beg stop) (beg + 1) (stop - 1) (omega arith)
          (omega arith) in
      (out, ground arith, Reversed-swapped s out beg stop (omega arith) r)
]

-- `strrev` with fuel above the length reverses the bytes in front of the first NUL, and writes
-- nothing else.
pub strrev_lem :
    (fuel : ℕ) (s : Mem) (n : ℕ)
    → EndsFrom s 0 n
    → n < fuel
    → (out : Mem) × (strrev fuel s ≡ some out)
      × ((j : ℕ) → j < n → out j ≡ s (n - 1 - j))
      × ((j : ℕ) → n ≤ j → out j ≡ s j)
unfolding strrev
strrev_lem fuel s n e l =
    let (out, run, r) = strrev_loop-Reversed fuel s 0 n (omega arith) (omega arith) in
    (
      out,
      rw ((strlen_iff fuel s n).1 (e, l), strrev) run,
      λ j b. r.inside j (omega arith) b ∙ ap s (omega arith),
      λ j b. r.outside j (inr b),
    )
