-- ===== src/Printf/Padding.antt =====
-- The eight digits of `%#x`.
use native.Mathlib.Nat.{pow-suc, pow-zero, mul-le-mul_right}
use psych_os.Base.{
  ℕ, zero, suc, ◌+◌, ◌-◌, ◌*◌, ◌^◌, ◌≤◌, ◌<◌, ◌≡◌, ◌≢◌, inl, inr, refl, ap, ap₂, sym, subst, ◌∙◌,
  arith, Mem, store, ltb, leb, ◌&&◌, if◌then◌else◌, lt-or-le, get_or,
}
use psych_os.Str.{digit_chars}
use psych_os.Str.Text.{EndsFrom}
use psych_os.Str.Itoa.{digit_of, number, IsDigit, Prints}
use psych_os.Printf.{joined_at, fill_zeros}
use psych_os.Printf.Puts.{IsString}

number-zeros : (radix : ℕ) (z : Mem) (p : ℕ) → ((j : ℕ) → j < p → z j ≡ b'0') → number radix z p ≡ 0
number-zeros radix z zero h = refl
number-zeros radix z (suc p) h =
    let e : number radix z p ≡ 0 = number-zeros radix z p (λ j l. h j (omega arith)) in
    let d : digit_of (z p) ≡ 0 = ap digit_of (h p (omega arith)) in rw (e, d) (omega arith)

-- Zeros in front do not change a number.
number-behind_zeros :
    (radix : ℕ) (z out : Mem) (p n : ℕ)
    → ((j : ℕ) → j < p → z j ≡ b'0')
    → ((j : ℕ) → j < n → z (p + j) ≡ out j)
    → number radix z (p + n) ≡ number radix out n
number-behind_zeros radix z out p zero h s =
    let e : p + 0 ≡ p = omega arith in ap (number radix z) e ∙ number-zeros radix z p h
number-behind_zeros radix z out p (suc n) h s =
    let e : p + suc n ≡ suc (p + n) = omega arith in
    ap (number radix z) e
    ∙ ap₂ (λ m c. m * radix + digit_of c)
        (number-behind_zeros radix z out p n h (λ j l. s j (omega arith))) (s n (omega arith))

nonzero_digit : (radix c : ℕ) → IsDigit radix c → c ≢ b'0' → 0 < digit_of c
nonzero_digit radix c d h = elim (lt-or-le 0 (digit_of c)) [
  | inl l ↦ l
  | inr z ↦
      let e : digit_of c ≡ 0 = omega arith in
      absurd (h (sym (sym (ap (λ t. get_or digit_chars t 0) e) ∙ d.1)))
]

pow-le-number :
    (radix : ℕ) (s : Mem) (n : ℕ) → 0 < digit_of (s 0) → radix ^ n ≤ number radix s (suc n)
pow-le-number radix s zero h = let e : radix ^ 0 ≡ 1 = pow-zero radix in rw e (omega (arith, h))
pow-le-number radix s (suc n) h =
    let product : radix ^ n * radix ≤ number radix s (suc n) * radix =
      mul-le-mul_right radix (pow-le-number radix s n h) in
    rw pow-suc (omega (arith, product))

number-grows : (s : Mem) (m k : ℕ) → number 16 s m ≤ number 16 s (m + k)
number-grows s m zero = let e : m + 0 ≡ m = omega arith in rw e (omega arith)
number-grows s m (suc k) =
    let e : m + suc k ≡ suc (m + k) = omega arith in rw e (omega (arith, number-grows s m k))

few_digits : (w n : ℕ) (out : Mem) → Prints 16 w 32 out n → w < 2 ^ 32 → n ≤ 8
few_digits w n out p l = elim (lt-or-le n 9) [
  | inl few ↦ omega arith
  | inr many ↦
      let d : 0 < digit_of (out 0) =
        nonzero_digit 16 (out 0) (p.digits 0 (omega arith)) (p.leading (omega arith)) in
      let e : 9 + (n - 9) ≡ n = omega arith in
      let low : 16 ^ 8 ≤ number 16 out 9 = pow-le-number 16 out 8 d in
      let high : number 16 out 9 ≤ w =
        subst (λ t. number 16 out 9 ≤ t) (ap (number 16 out) e ∙ p.value_of)
          (number-grows out 9 (n - 9)) in
      absurd (omega (arith, low, high))
]

fill_zeros_lem :
    (n : ℕ) (buf : Mem) (i x : ℕ)
    → fill_zeros n buf i x ≡ (if leb i x && ltb x (i + n) then b'0' else buf x)
unfolding fill_zeros
fill_zeros_lem zero buf i x = ground arith
fill_zeros_lem (suc n) buf i x = fill_zeros_lem n (store buf i b'0') (i + 1) x ∙ ground arith

-- Eight hexadecimal digits that stand for `w`.
pub record IsPadded (w : ℕ) (out : Mem) : Type 0 where
  pub value_of : number 16 out 8 ≡ w
  pub digits : (j : ℕ) → j < 8 → IsDigit 16 (out j)

pub IsDigit-ne-zero : (radix c : ℕ) → IsDigit radix c → c ≢ 0
IsDigit-ne-zero radix c d e =
    let zero_char : get_or digit_chars (digit_of 0) 0 ≡ 0 =
      subst (λ t. get_or digit_chars (digit_of t) 0 ≡ t) e d.1 in
    absurd (omega (arith, zero_char))

module _ (w n : ℕ) (front out : Mem) (p : Prints 16 w 32 out n) (l : w < 2 ^ 32) where
  abbrev pub padding : Mem
  padding = fill_zeros (8 - n) (joined_at 8 front out) n

  padding_zero : (x : ℕ) → n ≤ x → x < 8 → padding x ≡ b'0'
  padding_zero x a b = fill_zeros_lem (8 - n) (joined_at 8 front out) n x ∙ ground arith

  padding_digit : (x : ℕ) → padding (8 + x) ≡ out x
  padding_digit x =
      let few : n ≤ 8 = few_digits w n out p l in
      let back : out (8 + x - 8) ≡ out x = ap out (omega arith) in
      fill_zeros_lem (8 - n) (joined_at 8 front out) n (8 + x) ∙ ground arith

  abbrev pub printed : Mem
  printed j = padding (n + j)

  printed_zero : (j : ℕ) → j < 8 - n → printed j ≡ b'0'
  printed_zero j b = padding_zero (n + j) (omega arith) (omega arith)

  printed_digit : (j : ℕ) → printed (8 - n + j) ≡ out j
  printed_digit j =
      let few : n ≤ 8 = few_digits w n out p l in ap padding (omega arith) ∙ padding_digit j

  printed-IsDigit : (j : ℕ) → j < 8 → IsDigit 16 (printed j)
  printed-IsDigit j b = elim (lt-or-le j (8 - n)) [
    | inl front ↦
        let e : printed j ≡ b'0' = printed_zero j front in
        subst (IsDigit 16) (sym e) (omega arith, refl)
    | inr back ↦
        let e : printed j ≡ out (j - (8 - n)) =
          ap printed (omega arith) ∙ printed_digit (j - (8 - n)) in
        subst (IsDigit 16) (sym e) (p.digits (j - (8 - n)) (omega arith))
  ]

  pub printed-IsPadded : IsPadded w printed
  printed-IsPadded =
      let few : n ≤ 8 = few_digits w n out p l in
      let split : 8 ≡ 8 - n + n = omega arith in
      record {
        value_of =
            ap (number 16 printed) split
            ∙ number-behind_zeros 16 printed out (8 - n) n printed_zero (λ j b. printed_digit j)
            ∙ p.value_of;
        digits = printed-IsDigit;
      }

  pub padding-IsString : IsString padding n 8
  padding-IsString = record {
    before = λ j b. IsDigit-ne-zero 16 (printed j) (printed-IsDigit j b);
    ends = let e : EndsFrom out 0 n = p.ends in ap padding (omega arith) ∙ padding_digit n ∙ e.ends;
  }
