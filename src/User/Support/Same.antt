-- ===== src/User/Support/Same.antt =====
-- The string library of the programs does what the kernel's does.
use psych_os.Base.{
  ℕ, zero, suc, ◌+◌, ◌-◌, ◌/◌, ◌%◌, ◌≡◌, refl, ap, ◌∙◌, arith, true, Option, none, some, Mem, store,
  leb, get_or, Bool-cases, inl, inr,
}
use psych_os.Str.{
  digit_chars, strlen, strlen_from, strcpy, strcpy_from, strrev, strrev_loop, itoa, itoa_loop,
  ◌>>=◌,
}
use psych_os.User.Support.{
  length_from, ece391_strlen, copy_from, ece391_strcpy, swap_loop, reversed, ece391_strrev,
  digits_from, turned, ece391_itoa,
}

length_from-strlen_from : (fuel : ℕ) (s : Mem) (n : ℕ) → length_from fuel s n ≡ strlen_from fuel s n
unfolding length_from strlen_from
length_from-strlen_from zero s n = refl
length_from-strlen_from (suc fuel) s n =
    let rest = length_from-strlen_from fuel s (n + 1) in ground (arith, rest)

copy_from-strcpy_from :
    (fuel : ℕ) (dst src : Mem) (i : ℕ) → copy_from fuel dst src i ≡ strcpy_from fuel dst src i
unfolding copy_from strcpy_from
copy_from-strcpy_from zero dst src i = refl
copy_from-strcpy_from (suc fuel) dst src i =
    let rest = copy_from-strcpy_from fuel (store dst i (src i)) src (i + 1) in grind (arith, rest)

swap_loop-strrev_loop :
    (fuel : ℕ) (s : Mem) (beg stop : ℕ) → swap_loop fuel s beg stop ≡ strrev_loop fuel s beg stop
unfolding swap_loop strrev_loop
swap_loop-strrev_loop zero s beg stop = refl
swap_loop-strrev_loop (suc fuel) s beg stop =
    let rest =
      swap_loop-strrev_loop fuel (store (store s (stop - 1) (s beg)) beg (s (stop - 1))) (beg + 1)
        (stop - 1) in
    ground (arith, rest)

digits_from-itoa_loop :
    (fuel value : ℕ) (buf : Mem) (i radix : ℕ)
    → digits_from fuel value buf i radix ≡ itoa_loop fuel value buf i radix
unfolding digits_from itoa_loop
digits_from-itoa_loop zero value buf i radix = refl
digits_from-itoa_loop (suc fuel) value buf i radix =
    let rest =
      digits_from-itoa_loop fuel (value / radix)
        (store buf i (get_or digit_chars (value % radix) 0)) (i + 1) radix in
    ground (arith, rest)

strlen-same : (fuel : ℕ) (s : Mem) → ece391_strlen fuel s ≡ strlen fuel s
unfolding ece391_strlen strlen
strlen-same fuel s = length_from-strlen_from fuel s 0

loop_of_short : (fuel n : ℕ) (s : Mem) → leb n 1 ≡ true → strrev_loop (suc fuel) s 0 n ≡ some s
unfolding strrev_loop
loop_of_short fuel n s short = ground arith

reversed_lem :
    (fuel : ℕ) (s : Mem) (len : Option ℕ)
    → reversed (suc fuel) s len ≡ elim len [ none ↦ none | some n ↦ strrev_loop (suc fuel) s 0 n ]
unfolding reversed
reversed_lem fuel s none = refl
reversed_lem fuel s (some n) =
    let loop = swap_loop-strrev_loop (suc fuel) s 0 n in
    elim (Bool-cases (leb n 1)) [
      | inl short ↦ let stays = loop_of_short fuel n s short in ground (arith, short, stays)
      | inr long ↦ ground (arith, long, loop)
    ]

strrev-same : (fuel : ℕ) (s : Mem) → ece391_strrev fuel s ≡ strrev fuel s
unfolding ece391_strrev strrev
strrev-same zero s = refl
strrev-same (suc fuel) s =
    ap (reversed (suc fuel) s) (strlen-same (suc fuel) s)
    ∙ reversed_lem fuel s (strlen (suc fuel) s)

turned_lem : (fuel : ℕ) (s : Option Mem) → turned fuel s ≡ s >>= strrev fuel
unfolding turned
turned_lem fuel none = refl
turned_lem fuel (some s) = strrev-same fuel s

itoa-same :
    (fuel value : ℕ) (buf : Mem) (radix : ℕ)
    → ece391_itoa fuel value buf radix ≡ itoa fuel value buf radix
unfolding ece391_itoa itoa
itoa-same fuel value buf radix =
    let digits = digits_from-itoa_loop fuel value buf 0 radix in
    let turn = turned_lem fuel (itoa_loop fuel value buf 0 radix) in rw (digits, turn) refl

-- With the same fuel, the string library of the programs does what the kernel's does: the length,
-- the copy, the reversal and the digits of a number are the same, or both run out of fuel.
pub ece391_support_lem :
    (fuel value radix : ℕ) (s buf : Mem)
    → (ece391_strlen fuel s ≡ strlen fuel s)
      × (ece391_strcpy fuel buf s ≡ strcpy fuel buf s)
      × (ece391_strrev fuel s ≡ strrev fuel s)
      × (ece391_itoa fuel value buf radix ≡ itoa fuel value buf radix)
unfolding ece391_strcpy strcpy
ece391_support_lem fuel value radix s buf = (
  strlen-same fuel s,
  copy_from-strcpy_from fuel buf s 0,
  strrev-same fuel s,
  itoa-same fuel value buf radix,
)
