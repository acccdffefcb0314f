-- ===== src/User/Support.antt =====
-- syscalls/ece391support.c, the string library of the programs. A string is the function from
-- offsets behind its pointer to bytes; a loop up to a NUL takes fuel.
pub mod Same
use psych_os.Base.{
  ℕ, zero, suc, ◌+◌, ◌-◌, ◌/◌, ◌%◌, Bool, Option, none, some, Mem, store, ltb, leb, not, ◌||◌, ◌==◌,
  if◌then◌else◌, get_or,
}
use psych_os.Base.Int.{ℤ, pos, sub_ℕ}
use psych_os.Str.{digit_chars}

unfoldable pub length_from : ℕ → Mem → ℕ → Option ℕ
length_from zero s len = none
length_from (suc fuel) s len =
    let rest = length_from fuel s (len + 1) in if not (s len == 0) then rest else some len

unfoldable pub ece391_strlen : ℕ → Mem → Option ℕ
unfolding length_from
ece391_strlen fuel s = length_from fuel s 0

unfoldable pub copy_from : ℕ → Mem → Mem → ℕ → Option Mem
copy_from zero dst src i = none
copy_from (suc fuel) dst src i =
    let copied = store dst i (src i) in
    let rest = copy_from fuel copied src (i + 1) in if not (src i == 0) then rest else some copied

unfoldable pub ece391_strcpy : ℕ → Mem → Mem → Option Mem
unfolding copy_from
ece391_strcpy fuel dst src = copy_from fuel dst src 0

unfoldable pub compare_from : ℕ → Mem → Mem → ℕ → Option ℤ
compare_from zero s1 s2 i = none
compare_from (suc fuel) s1 s2 i =
    let rest = compare_from fuel s1 s2 (i + 1) in
    if s1 i == s2 i then if s1 i == 0 then some (pos 0) else rest else some (sub_ℕ (s1 i) (s2 i))

unfoldable pub ece391_strcmp : ℕ → Mem → Mem → Option ℤ
unfolding compare_from
ece391_strcmp fuel s1 s2 = compare_from fuel s1 s2 0

-- `n` is not 0 in the loop, and falls before it is tested.
unfoldable pub compare_first : ℕ → Mem → Mem → ℕ → ℤ
compare_first zero s1 s2 i = pos 0
compare_first (suc n) s1 s2 i =
    let rest = compare_first n s1 s2 (i + 1) in
    if s1 i == s2 i then if (s1 i == 0) || (n == 0) then pos 0 else rest else sub_ℕ (s1 i) (s2 i)

unfoldable pub ece391_strncmp : Mem → Mem → ℕ → ℤ
unfolding compare_first
ece391_strncmp s1 s2 n = if n == 0 then pos 0 else compare_first n s1 s2 0

-- `stop` is `end + 1`.
unfoldable pub swap_loop : ℕ → Mem → ℕ → ℕ → Option Mem
swap_loop zero s beg stop = none
swap_loop (suc fuel) s beg stop =
    let rest =
      swap_loop fuel (store (store s (stop - 1) (s beg)) beg (s (stop - 1))) (beg + 1) (stop - 1) in
    if ltb beg (stop - 1) then rest else some s

unfoldable pub reversed : ℕ → Mem → Option ℕ → Option Mem
reversed fuel s none = none
reversed fuel s (some len) = if leb len 1 then some s else swap_loop fuel s 0 len

unfoldable pub ece391_strrev : ℕ → Mem → Option Mem
unfolding swap_loop reversed ece391_strlen
ece391_strrev fuel s = reversed fuel s (ece391_strlen fuel s)

unfoldable pub digits_from : ℕ → ℕ → Mem → ℕ → ℕ → Option Mem
digits_from zero newval buf at radix = none
digits_from (suc fuel) newval buf at radix =
    let rest =
      digits_from fuel (newval / radix) (store buf at (get_or digit_chars (newval % radix) 0))
        (at + 1) radix in
    if ltb 0 newval then rest else some (store buf at 0)

unfoldable pub turned : ℕ → Option Mem → Option Mem
turned fuel none = none
turned fuel (some s) = ece391_strrev fuel s

unfoldable pub ece391_itoa : ℕ → ℕ → Mem → ℕ → Option Mem
unfolding digits_from turned
ece391_itoa fuel value buf radix =
    if value == 0
    then some (store (store buf 0 b'0') 1 0)
    else turned fuel (digits_from fuel value buf 0 radix)
