-- ===== src/Printf/Numbers.antt =====
-- The numbers that `%x`, `%#x`, `%u` and `%d` print.
use psych_os.Base.{
  ℕ, zero, suc, ◌+◌, ◌-◌, ◌^◌, ◌≤◌, ◌<◌, ◌≡◌, refl, ap, ap₂, ◌∙◌, arith, true, false, Option, some,
  List, ◌∷◌, Mem, store, leb, ltb, lt-or-le, inl, inr, bytes, eq-or-ne, sym,
}
use psych_os.Base.Int.{ℤ, pos, negsuc, signed32}
use psych_os.Str.{strlen, itoa}
use psych_os.Str.Text.{EndsFrom, strlen_iff}
use psych_os.Str.Itoa.{Prints, itoa_lem}
use psych_os.Tty.State.{Tty}
use psych_os.Tty.Calls.{put_all}
use psych_os.Printf.{
  joined_at, padded, padded_from, put_string, print_hex, print_unsigned, print_signed, negated,
}
use psych_os.Printf.Puts.{IsString, IsString-of_end, put_string_lem}
use psych_os.Printf.Padding.{IsPadded, padding, printed, printed-IsPadded, padding-IsString}

-- The two buffers hold the same from different offsets on.
bytes-shifted :
    (m m' : Mem) (a b n : ℕ)
    → ((j : ℕ) → j < n → m (a + j) ≡ m' (b + j))
    → bytes m a n ≡ bytes m' b n
bytes-shifted m m' a b zero h = refl
bytes-shifted m m' a b (suc n) h =
    ap₂ ◌∷◌
      (let e : m (a + 0) ≡ m' (b + 0) = h 0 (omega arith) in
        ap m (omega arith) ∙ e ∙ ap m' (omega arith))
      (bytes-shifted m m' (a + 1) (b + 1) n (λ j l.
        let e : m (a + (j + 1)) ≡ m' (b + (j + 1)) = h (j + 1) (omega arith) in
        ap m (omega arith) ∙ e ∙ ap m' (omega arith)))

-- The digits of `w` in the base, with no leading zero.
pub record IsNumeral (radix w : ℕ) (out : List ℕ) : Type 0 where
  pub digits : Mem
  pub count_of : ℕ
  pub prints : Prints radix w 32 digits count_of
  pub text_of : out ≡ bytes digits 0 count_of

abbrev pub IsSigned : ℤ → List ℕ → Type 0
IsSigned (pos n) out = IsNumeral 10 n out
IsSigned (negsuc n) out = (rest : List ℕ) × (out ≡ b'-' ∷ rest) × IsNumeral 10 (n + 1) rest

pub record IsEight (w : ℕ) (out : List ℕ) : Type 0 where
  pub digits : Mem
  pub prints : IsPadded w digits
  pub text_of : out ≡ bytes digits 0 8

-- What a conversion prints, and that it ends.
abbrev pub Writes : Option Tty → Tty → (List ℕ → Type 0) → Type 0
Writes result s P = (out : List ℕ) × P out × (result ≡ some (put_all out s 0))

itoa-Writes :
    (radix w : ℕ) (s : Tty) (conv_buf : Mem)
    → 2 ≤ radix
    → radix ≤ 36
    → w < 2 ^ 32
    → Writes (put_string 33 s (itoa 33 w conv_buf radix) 0) s (IsNumeral radix w)
itoa-Writes radix w s conv_buf h u l =
    let (digits, n, run, p) = itoa_lem 32 w conv_buf radix h u (omega arith) l in
    (
      bytes digits 0 n,
      record { digits = digits; count_of = n; prints = p; text_of = refl },
      rw run (
          put_string_lem 33 s digits 0 n (IsString-of_end digits n (p.ends))
            (omega (arith, p.few))),
    )

pub print_hex-Writes :
    (w : ℕ) (s : Tty) (conv_buf : Mem)
    → w < 2 ^ 32
    → Writes (print_hex s conv_buf false w) s (IsNumeral 16 w)
unfolding print_hex
print_hex-Writes w s conv_buf l = itoa-Writes 16 w s conv_buf (omega arith) (omega arith) l

pub print_unsigned-Writes :
    (w : ℕ) (s : Tty) (conv_buf : Mem)
    → w < 2 ^ 32
    → Writes (print_unsigned s conv_buf w) s (IsNumeral 10 w)
unfolding print_unsigned
print_unsigned-Writes w s conv_buf l = itoa-Writes 10 w s conv_buf (omega arith) (omega arith) l

pub print_padded-Writes :
    (w : ℕ) (s : Tty) (conv_buf : Mem)
    → w < 2 ^ 32
    → Writes (print_hex s conv_buf true w) s (IsEight w)
unfolding print_hex padded padded_from
print_padded-Writes w s conv_buf l =
    let (digits, n, run, p) =
      itoa_lem 32 w (λ i. conv_buf (8 + i)) 16 (omega arith) (omega arith) (omega arith) l in
    let length_is : strlen 33 digits ≡ some n =
      (strlen_iff 33 digits n).1 (p.ends, omega (arith, p.few)) in
    (
      bytes (printed w n conv_buf digits p l) 0 8,
      record {
        digits = printed w n conv_buf digits p l;
        prints = printed-IsPadded w n conv_buf digits p l;
        text_of = refl;
      },
      rw run (
          rw length_is (
            put_string_lem 64 s (padding w n conv_buf digits p l) n 8
              (padding-IsString w n conv_buf digits p l) (omega arith)
            ∙ ap (λ t. some (put_all t s 0))
                (bytes-shifted (padding w n conv_buf digits p l) (printed w n conv_buf digits p l) n
                  0 8 (λ j b. ap (padding w n conv_buf digits p l) (omega arith))))),
    )

-- A minus sign in front of the digits.
minus-IsString :
    (n : ℕ) (front digits : Mem)
    → EndsFrom digits 0 n
    → IsString (joined_at 1 (store front 0 b'-') digits) 0 (suc n)
minus-IsString n front digits e = record {
  before = λ j l. elim (eq-or-ne j 0) [
    | inl first ↦ rw first (ground arith)
    | inr later ↦ λ z. e.before (j - 1) (omega arith) (omega arith) (
        (let t : ltb (0 + j) 1 ≡ false = ground arith in
          let back : joined_at 1 (store front 0 b'-') digits (0 + j) ≡ digits (0 + j - 1) = rw t in
          ap digits (omega arith) ∙ sym back ∙ z))
  ];
  ends =
      let t : ltb (0 + suc n) 1 ≡ false = ground arith in
      let back : joined_at 1 (store front 0 b'-') digits (0 + suc n) ≡ digits (0 + suc n - 1) =
        rw t in
      back ∙ ap digits (omega arith) ∙ e.ends;
}

minus-bytes :
    (n : ℕ) (front digits : Mem)
    → bytes (joined_at 1 (store front 0 b'-') digits) 0 (suc n) ≡ b'-' ∷ bytes digits 0 n
minus-bytes n front digits = ap₂ ◌∷◌ refl (
    bytes-shifted (joined_at 1 (store front 0 b'-') digits) digits (0 + 1) 0 n (λ j l.
      let t : ltb (0 + 1 + j) 1 ≡ false = ground arith in
      let back : joined_at 1 (store front 0 b'-') digits (0 + 1 + j) ≡ digits (0 + 1 + j - 1) =
        rw t in
      back ∙ ap digits (omega arith)))

-- What is printed for an integer, from its two's complement.
pub print_signed-Writes :
    (w : ℕ) (s : Tty) (conv_buf : Mem)
    → w < 2 ^ 32
    → Writes (print_signed s conv_buf w) s (IsSigned (signed32 w))
unfolding print_signed negated
print_signed-Writes w s conv_buf l = elim (lt-or-le w (2 ^ 31)) [
  | inl small ↦
      let t : leb (2 ^ 31) w ≡ false = ground arith in
      let u : ltb w (2 ^ 31) ≡ true = ground arith in
      rw (t, u) (itoa-Writes 10 w s conv_buf (omega arith) (omega arith) l)
  | inr large ↦
      let t : leb (2 ^ 31) w ≡ true = ground arith in
      let u : ltb w (2 ^ 31) ≡ false = ground arith in
      let (digits, n, run, p) =
        itoa_lem 32 (2 ^ 32 - w) (λ i. conv_buf (1 + i)) 10 (omega arith) (omega arith)
          (omega arith) (omega arith) in
      let value : 2 ^ 32 - w - 1 + 1 ≡ 2 ^ 32 - w = omega arith in
      let written : IsSigned (negsuc (2 ^ 32 - w - 1)) (b'-' ∷ bytes digits 0 n) = (
        bytes digits 0 n,
        refl,
        rw value (record { digits = digits; count_of = n; prints = p; text_of = refl }),
      ) in
      rw (t, u)
        (
          b'-' ∷ bytes digits 0 n,
          written,
          rw run (
              put_string_lem 34 s (joined_at 1 (store conv_buf 0 b'-') digits) 0 (suc n)
                (minus-IsString n conv_buf digits (p.ends)) (omega (arith, p.few))
              ∙ ap (λ t. some (put_all t s 0)) (minus-bytes n conv_buf digits)),
        )
]
