-- ===== src/Str/Tests.antt =====
-- A number in hexadecimal.
use psych_os.Base.{ℕ, ◌≡◌, arith, Mem, some}
use psych_os.Str.{itoa}
use psych_os.Str.Itoa.{Prints, itoa_lem}

abbrev blank : Mem
blank i = 32

itoa_example :
    (out : Mem) × (n : ℕ) × (itoa 33 48879 blank 16 ≡ some out) × Prints 16 48879 32 out n
itoa_example = itoa_lem 32 48879 blank 16 (omega arith) (omega arith) (omega arith) (omega arith)
