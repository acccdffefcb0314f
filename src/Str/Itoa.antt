-- ===== src/Str/Itoa.antt =====
-- `itoa` prints a number that reads back as itself.

use native.Mathlib.Nat.{div-add-mod, pow-suc, div-lt_iff_lt-mul}
use psych_os.Base.{
  ℕ, zero, suc, ◌+◌, ◌-◌, ◌*◌, ◌/◌, ◌%◌, ◌^◌, ◌≤◌, ◌<◌, ◌≡◌, ◌≢◌, inl, inr, ◌∙◌, refl, ap, ap₂, sym,
  subst, arith, Bool, true, false, some, Mem, store, ◌==◌, ◌&&◌, if◌then◌else◌, eq-or-ne, ltb,
  get_or, all_below, all_below_sound, and_parts, eq_of_test, lt_of_test,
}
use psych_os.Str.{itoa_loop, itoa, digit_chars}
use psych_os.Str.Text.{EndsFrom, EndsFrom-pred}
use psych_os.Str.Reverse.{strrev_lem}

-- The digit that a character stands for.
abbrev pub digit_of : ℕ → ℕ
digit_of c = if ltb c 58 then c - 48 else c - 55

-- The number that the `n` digits from the front stand for.
abbrev pub number : ℕ → Mem → ℕ → ℕ
number radix s zero = 0
number radix s (suc n) = number radix s n * radix + digit_of (s n)

-- A character that stands for a digit of the base, and is the one that the table has for it.
abbrev pub IsDigit : ℕ → ℕ → Type 0
IsDigit radix c = (digit_of c < radix) × (get_or digit_chars (digit_of c) 0 ≡ c)

-- The same with the lowest digit first, from offset `i` on.
number_low : ℕ → Mem → ℕ → ℕ → ℕ
number_low radix s i zero = 0
number_low radix s i (suc n) = number_low radix s (i + 1) n * radix + digit_of (s i)

digit_char_ok : ℕ → Bool
digit_char_ok d = (digit_of (get_or digit_chars d 0) == d) && ltb 0 (get_or digit_chars d 0)

digits_table : all_below 36 digit_char_ok ≡ true
unfolding digit_char_ok
digits_table = refl

digit_char :
    (d : ℕ) → d < 36 → (digit_of (get_or digit_chars d 0) ≡ d) × (0 < get_or digit_chars d 0)
unfolding digit_char_ok
digit_char d l =
    let (e, z) = and_parts _ _ (all_below_sound 36 digit_char_ok d digits_table l) in
    (eq_of_test _ _ e, lt_of_test _ _ z)

div_halves : (v r k : ℕ) → 2 ≤ r → v < 2 ^ suc k → v / r < 2 ^ k
div_halves v r k h l = (div-lt_iff_lt-mul {k = r} (omega arith)).1 (grind (arith, pow-suc 2 k))

-- What the loop leaves: `k` digits of `v` from `at` on, and a NUL.
record Printed (radix v : ℕ) (buf out : Mem) (at k : ℕ) : Type 0 where
  value : number_low radix out at k ≡ v
  ends : EndsFrom out at (at + k)
  outside : (j : ℕ) → j < at → out j ≡ buf j
  leading : 0 < k → out (at + k - 1) ≢ b'0'
  digits : (j : ℕ) → at ≤ j → j < at + k → IsDigit radix (out j)

-- A digit `c` in front of the digits of the quotient.
module _ (radix v c : ℕ) (buf out : Mem) (at : ℕ) (h : 2 ≤ radix) (u : radix ≤ 36) (z : 0 < v)
    (digit : digit_of c ≡ v % radix) (printable : 0 < c) (canonical : IsDigit radix c) where
  leading_digit :
      (k : ℕ)
      → Printed radix (v / radix) (store buf at c) out (at + 1) k
      → out at ≡ c
      → out (at + suc k - 1) ≢ b'0'
  unfolding number_low
  leading_digit zero p o e =
      let w : c ≡ 48 = sym o ∙ ap out (omega arith) ∙ e in
      let q : v % radix ≡ 0 = sym digit ∙ ap digit_of w in
      absurd (omega (arith, div-add-mod v radix, q, ap (λ t. radix * t) (p.value)))
  leading_digit (suc k) p o e = p.leading (omega arith) (ap out (omega arith) ∙ e)

  Printed-suc :
      (k : ℕ)
      → Printed radix (v / radix) (store buf at c) out (at + 1) k
      → Printed radix v buf out at (suc k)
  unfolding number_low
  Printed-suc k p =
      let o : out at ≡ c = p.outside at (omega arith) ∙ ground arith in
      let e : EndsFrom out (at + 1) (at + suc k) =
        subst (EndsFrom out (at + 1)) (omega arith) p.ends in
      record {
        value = rw (p.value, o, digit) (omega (arith, div-add-mod v radix));
        ends = EndsFrom-pred out at (at + suc k) (λ n. omega (arith, sym o ∙ n)) e;
        outside = λ j l. p.outside j (omega arith) ∙ ground arith;
        leading = λ l. leading_digit k p o;
        digits = λ j a b. elim (eq-or-ne j at) [
          | inl same ↦ subst (IsDigit radix) (sym (ap out same ∙ o)) canonical
          | inr other ↦ p.digits j (omega arith) (omega arith)
        ];
      }

Printed-zero : (radix : ℕ) (buf : Mem) (at : ℕ) → Printed radix 0 buf (store buf at 0) at 0
unfolding number_low
Printed-zero radix buf at = record {
  value = refl;
  ends = record {
    reached = omega arith;
    ends = ground arith;
    before = λ j a b. absurd (omega arith);
  };
  outside = λ j l. ground arith;
  leading = λ l. absurd (omega arith);
  digits = λ j a b. absurd (omega arith);
}

itoa_loop-Printed :
    (fuel v : ℕ) (buf : Mem) (at radix : ℕ)
    → 2 ≤ radix
    → radix ≤ 36
    → v < 2 ^ fuel
    → (out : Mem) × (k : ℕ) × (itoa_loop (suc fuel) v buf at radix ≡ some out)
      × Printed radix v buf out at k
      × (0 < v → 0 < k)
      × (k ≤ fuel)
unfolding itoa_loop
itoa_loop-Printed zero v buf at radix h u l =
    let e : v ≡ 0 = omega arith in
    (
      store buf at 0,
      0,
      ground arith,
      rw e (Printed-zero radix buf at),
      λ z. absurd (omega arith),
      omega arith,
    )
itoa_loop-Printed (suc fuel) v buf at radix h u l = elim (eq-or-ne v 0) [
  | inl e ↦ (
    store buf at 0,
    0,
    rw e,
    rw e (Printed-zero radix buf at),
    λ z. absurd (omega arith),
    omega arith,
  )
  | inr n ↦
      let c : ℕ = get_or digit_chars (v % radix) 0 in
      let (digit, printable) = digit_char (v % radix) (omega arith) in
      let (out, k, run, p, some_digit, few) =
        itoa_loop-Printed fuel (v / radix) (store buf at c) (at + 1) radix h u
          (div_halves v radix fuel h l) in
      (
        out,
        suc k,
        (let t : ltb 0 v ≡ true = ground arith in rw t run),
        Printed-suc radix v c buf out at h u (omega arith) digit printable
            (omega (arith, digit), ap (λ d. get_or digit_chars d 0) digit) k p,
        λ z. omega arith,
        omega arith,
      )
]

-- Digits in reverse order stand for the same number.
number-low :
    (radix : ℕ) (s out : Mem) (at n : ℕ)
    → ((j : ℕ) → j < n → out j ≡ s (at + n - 1 - j))
    → number radix out n ≡ number_low radix s at n
unfolding number_low
number-low radix s out at zero h = refl
number-low radix s out at (suc n) h =
    ap₂ (λ a c. a * radix + digit_of c)
      (number-low radix s out (at + 1) n (λ j l. h j (omega arith) ∙ ap s (omega arith)))
      (h n (omega arith) ∙ ap s (omega arith))

-- What `itoa` returns: a string of at most `fuel` digits that stands for `value`.
pub record Prints (radix value fuel : ℕ) (out : Mem) (n : ℕ) : Type 0 where
  pub ends : EndsFrom out 0 n
  pub value_of : number radix out n ≡ value
  pub few : n ≤ fuel
  pub some_digit : 0 < n
  pub leading : 1 < n → out 0 ≢ b'0'
  pub digits : (j : ℕ) → j < n → IsDigit radix (out j)

reversed-Prints :
    (radix value fuel k : ℕ) (buf s out : Mem)
    → Printed radix value buf s 0 k
    → 0 < k
    → k ≤ fuel
    → ((j : ℕ) → j < k → out j ≡ s (k - 1 - j))
    → ((j : ℕ) → k ≤ j → out j ≡ s j)
    → Prints radix value fuel out k
reversed-Prints radix value fuel k buf s out p z f r o = record {
  ends = record {
    reached = omega arith;
    ends = o k (omega arith) ∙ ap s (omega arith) ∙ p.ends.ends;
    before = λ j a b e. p.ends.before (k - 1 - j) (omega arith) (omega arith) (sym (r j b) ∙ e);
  };
  value_of = number-low radix s out 0 k (λ j l. r j l ∙ ap s (omega arith)) ∙ p.value;
  few = f;
  some_digit = z;
  leading = λ nz e. p.leading z (ap s (omega arith) ∙ sym (r 0 z) ∙ e);
  digits =
      λ j l. subst (IsDigit radix) (sym (r j l)) (p.digits (k - 1 - j) (omega arith) (omega arith));
}

-- `itoa` in a base from 2 to 36, of a value below 2^`fuel` and with one more round of fuel,
-- returns a string of at most `fuel` digits of that base, and at least one, that stands for the
-- value, with no leading zero unless it is the only digit.
pub itoa_lem :
    (fuel value : ℕ) (buf : Mem) (radix : ℕ)
    → 2 ≤ radix
    → radix ≤ 36
    → 0 < fuel
    → value < 2 ^ fuel
    → (out : Mem) × (n : ℕ) × (itoa (suc fuel) value buf radix ≡ some out)
      × Prints radix value fuel out n
unfolding itoa
itoa_lem fuel value buf radix h u f l = elim (eq-or-ne value 0) [
  | inl e ↦ (
    store (store buf 0 b'0') 1 0,
    1,
    rw e refl,
    rw e (record {
      ends = record { reached = omega arith; ends = refl; before = λ j a b. ground arith };
      value_of = omega arith;
      few = f;
      some_digit = omega arith;
      leading = λ z. absurd (omega arith);
      digits = λ j l. (ground arith, ground arith);
    }),
  )
  | inr z ↦
      let (s, k, run, p, some_digit, few) = itoa_loop-Printed fuel value buf 0 radix h u l in
      let (out, back, r, o) =
        strrev_lem (suc fuel) s k (subst (EndsFrom s 0) (omega arith) p.ends) (omega arith) in
      let t : (value == 0) ≡ false = ground arith in
      (
        out,
        k,
        rw t (rw run back),
        reversed-Prints radix value fuel k buf s out p (some_digit (omega arith)) few r o,
      )
]
