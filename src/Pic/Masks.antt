-- ===== src/Pic/Masks.antt =====
-- Enabling and disabling an interrupt line changes its bit of the masks and no other.
use Prim.Native.Nat.{bit_and, bit_or}
use psych_os.Base.{
  ℕ, ◌-◌, ◌/◌, ◌%◌, ◌^◌, ◌<◌, ◌≡◌, ◌∙◌, refl, arith, Bool, true, false, ◌==◌, ltb, if◌then◌else◌,
  all_below, all_below_sound, eq_of_test, inl, inr, lt-or-le,
}
use psych_os.Pic.{Pic, not8, enable_irq, disable_irq}

abbrev pub bit : ℕ → ℕ → ℕ
bit m j = m / 2 ^ j % 2

-- Line `j` is masked: its bit in the mask of the controller that it hangs on.
abbrev pub masked : Pic → ℕ → ℕ
masked p j = if ltb j 8 then bit p.master_mask j else bit p.slave_mask (j - 8)

pub record IsByte (p : Pic) : Type 0 where
  pub master : p.master_mask < 256
  pub slave : p.slave_mask < 256

abbrev clears : ℕ → ℕ → ℕ → Bool
clears m i j = bit (bit_and m (not8 (2 ^ i))) j == (if i == j then 0 else bit m j)

abbrev sets : ℕ → ℕ → ℕ → Bool
sets m i j = bit (bit_or m (2 ^ i) % 256) j == (if i == j then 1 else bit m j)

clears_all : all_below 256 (λ m. all_below 8 (λ i. all_below 8 (λ j. clears m i j))) ≡ true
clears_all = refl

sets_all : all_below 256 (λ m. all_below 8 (λ i. all_below 8 (λ j. sets m i j))) ≡ true
sets_all = refl

clears_lem :
    (m i j : ℕ)
    → m < 256
    → i < 8
    → j < 8
    → bit (bit_and m (not8 (2 ^ i))) j ≡ (if i == j then 0 else bit m j)
clears_lem m i j a b c = eq_of_test _ _ (
    all_below_sound 8 (clears m i) j
      (all_below_sound 8 (λ i. all_below 8 (clears m i)) i
        (all_below_sound 256 (λ m. all_below 8 (λ i. all_below 8 (clears m i))) m clears_all a) b)
      c)

sets_lem :
    (m i j : ℕ)
    → m < 256
    → i < 8
    → j < 8
    → bit (bit_or m (2 ^ i) % 256) j ≡ (if i == j then 1 else bit m j)
sets_lem m i j a b c = eq_of_test _ _ (
    all_below_sound 8 (sets m i) j
      (all_below_sound 8 (λ i. all_below 8 (sets m i)) i
        (all_below_sound 256 (λ m. all_below 8 (λ i. all_below 8 (sets m i))) m sets_all a) b)
      c)

-- The test on `SLAVE_BIT` for the sixteen lines.
abbrev on_master : ℕ → Bool
on_master n = if ltb n 8 then bit_and n 8 == 0 else ltb 0 (bit_and n 8)

on_master_all : all_below 16 on_master ≡ true
on_master_all = refl

master_test : (n : ℕ) → n < 16 → (bit_and n 8 == 0) ≡ ltb n 8
master_test n l = ground (arith, all_below_sound 16 on_master n on_master_all l)

-- For the sixteen lines, over masks that are bytes, `enable_irq` clears the mask bit of its line,
-- `disable_irq` sets it, and both leave the bit of every other line as it was.
pub irq_masks :
    (p : Pic) (n j : ℕ)
    → IsByte p
    → n < 16
    → j < 16
    → (masked (enable_irq p n) j ≡ (if n == j then 0 else masked p j))
      × (masked (disable_irq p n) j ≡ (if n == j then 1 else masked p j))
unfolding enable_irq disable_irq
irq_masks p n j v a b = elim (lt-or-le n 8) [
  | inl l ↦
      let t : (bit_and n 8 == 0) ≡ true = master_test n a ∙ ground arith in
      elim (lt-or-le j 8) [
        | inl k ↦
            let u : ltb j 8 ≡ true = ground arith in
            rw (t, u)
              (clears_lem p.master_mask n j v.master l k, sets_lem p.master_mask n j v.master l k)
        | inr k ↦
            let u : ltb j 8 ≡ false = ground arith in
            let w : (n == j) ≡ false = ground arith in rw (t, u, w) (refl, refl)
      ]
  | inr l ↦
      let t : (bit_and n 8 == 0) ≡ false = master_test n a ∙ ground arith in
      elim (lt-or-le j 8) [
        | inl k ↦
            let u : ltb j 8 ≡ true = ground arith in
            let w : (n == j) ≡ false = ground arith in rw (t, u, w) (refl, refl)
        | inr k ↦
            let u : ltb j 8 ≡ false = ground arith in
            let w : (n == j) ≡ (n - 8 == j - 8) = ground arith in
            rw (t, u, w)
              (
                clears_lem p.slave_mask (n - 8) (j - 8) v.slave (omega arith) (omega arith),
                sets_lem p.slave_mask (n - 8) (j - 8) v.slave (omega arith) (omega arith),
              )
      ]
]
