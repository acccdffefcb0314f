-- ===== src/Str.antt =====
-- The string functions of student-distrib/lib/lib.c. A string or a buffer is the function from
-- offsets behind its pointer to bytes; a function that writes a buffer returns it. An `int8_t` is
-- the byte that holds it. A loop up to a NUL takes fuel, and is `none` where the fuel ran out.
pub mod Text
pub mod Compare
pub mod Copy
pub mod Reverse
pub mod Itoa
mod Tests
use psych_os.Base.{
  ℕ, zero, suc, ◌+◌, ◌-◌, ◌/◌, ◌%◌, Bool, Option, none, some, List, [], ◌∷◌, Mem, store, ltb, ◌==◌,
  not, ◌||◌, if◌then◌else◌, get_or,
}
use psych_os.Base.Int.{ℤ, pos, negsuc, sub_ℕ}

infixl 5 ◌>>=◌
abbrev pub ◌>>=◌ : Option Mem → (Mem → Option Mem) → Option Mem
none >>= f = none
some s >>= f = f s

unfoldable pub strlen_from : ℕ → Mem → ℕ → Option ℕ
strlen_from zero s len = none
strlen_from (suc fuel) s len =
    let rest = strlen_from fuel s (len + 1) in if s len == 0 then some len else rest

unfoldable pub strlen : ℕ → Mem → Option ℕ
unfolding strlen_from
strlen fuel s = strlen_from fuel s 0

-- The difference of two bytes read as `int8_t`.
abbrev pub char_diff : ℕ → ℕ → ℤ
char_diff a b = sub_ℕ ((a + 128) % 256) ((b + 128) % 256)

unfoldable pub strncmp_from : ℕ → Mem → Mem → ℕ → ℤ
strncmp_from zero s1 s2 i = pos 0
strncmp_from (suc n) s1 s2 i =
    let rest = strncmp_from n s1 s2 (i + 1) in
    if not (s1 i == s2 i) || (s1 i == 0) then char_diff (s1 i) (s2 i) else rest

unfoldable pub strncmp : Mem → Mem → ℕ → ℤ
unfolding strncmp_from
strncmp s1 s2 n = strncmp_from n s1 s2 0

unfoldable pub strcpy_from : ℕ → Mem → Mem → ℕ → Option Mem
strcpy_from zero dest src i = none
strcpy_from (suc fuel) dest src i =
    let rest = strcpy_from fuel (store dest i (src i)) src (i + 1) in
    if src i == 0 then some (store dest i 0) else rest

unfoldable pub strcpy : ℕ → Mem → Mem → Option Mem
unfolding strcpy_from
strcpy fuel dest src = strcpy_from fuel dest src 0

-- The first loop of `strncpy`, with the rounds that it leaves to the second.
strncpy_copy : ℕ → Mem → Mem → ℕ → ℕ × ℕ × Mem
strncpy_copy zero dest src i = (0, i, dest)
strncpy_copy (suc n) dest src i =
    let rest = strncpy_copy n (store dest i (src i)) src (i + 1) in
    if src i == 0 then (suc n, i, dest) else rest

strncpy_fill : ℕ → Mem → ℕ → Mem
strncpy_fill zero dest i = dest
strncpy_fill (suc n) dest i = strncpy_fill n (store dest i 0) (i + 1)

unfoldable pub strncpy : Mem → Mem → ℕ → Mem
unfolding strncpy_copy strncpy_fill
strncpy dest src n = let (left, i, dest') = strncpy_copy n dest src 0 in strncpy_fill left dest' i

-- `stop` is `end + 1`, so that the empty string's `end` of -1 is a number.
unfoldable pub strrev_loop : ℕ → Mem → ℕ → ℕ → Option Mem
strrev_loop zero s beg stop = none
strrev_loop (suc fuel) s beg stop =
    let rest =
      strrev_loop fuel (store (store s (stop - 1) (s beg)) beg (s (stop - 1))) (beg + 1)
        (stop - 1) in
    if ltb (beg + 1) stop then rest else some s

unfoldable pub strrev : ℕ → Mem → Option Mem
unfolding strrev_loop strlen
strrev fuel s = elim (strlen fuel s) [ none ↦ none | some len ↦ strrev_loop fuel s 0 len ]

-- "0123456789ABCDEFGHIJKLMNOPQRSTUVWXYZ"
abbrev pub digit_chars : List ℕ
digit_chars =
    48 ∷ 49 ∷ 50 ∷ 51 ∷ 52 ∷ 53 ∷ 54 ∷ 55 ∷ 56 ∷ 57 ∷ 65 ∷ 66 ∷ 67 ∷ 68 ∷ 69 ∷ 70 ∷ 71 ∷ 72 ∷ 73
    ∷ 74 ∷ 75 ∷ 76 ∷ 77 ∷ 78 ∷ 79 ∷ 80 ∷ 81 ∷ 82 ∷ 83 ∷ 84 ∷ 85 ∷ 86 ∷ 87 ∷ 88 ∷ 89 ∷ 90 ∷ []

-- The digits of `newval` from the lowest on, and the offset behind the last.
unfoldable pub itoa_loop : ℕ → ℕ → Mem → ℕ → ℕ → Option Mem
itoa_loop zero newval buf at radix = none
itoa_loop (suc fuel) newval buf at radix =
    let rest =
      itoa_loop fuel (newval / radix) (store buf at (get_or digit_chars (newval % radix) 0))
        (at + 1) radix in
    if ltb 0 newval then rest else some (store buf at 0)

unfoldable pub itoa : ℕ → ℕ → Mem → ℕ → Option Mem
unfolding itoa_loop strrev
itoa fuel value buf radix =
    if value == 0
    then some (store (store buf 0 b'0') 1 0)
    else itoa_loop fuel value buf 0 radix >>= strrev fuel
