-- ===== src/Process/Command.antt =====
-- `parse_command` of student-distrib/arch/x86/task.c. The buffers are functions from offsets, so
-- that what lies behind their 128 bytes is not told apart from them.
pub mod Parsed
use psych_os.Base.{
  ℕ, zero, suc, ◌+◌, ◌-◌, ◌≤◌, ◌<◌, ◌≡◌, ◌≢◌, ◌⊎◌, inl, inr, ◌∙◌, refl, ap, ap₂, sym, arith, Bool,
  true, false, Option, none, some, List, [], ◌∷◌, Mem, store, bytes, length, ◌==◌, ◌||◌,
  if◌then◌else◌, eq-or-ne, lt-or-le, subst,
}
use psych_os.Str.{strlen, strncpy}
use psych_os.Str.Text.{text, EndsFrom, EndsFrom-suc, strlen_iff}
use psych_os.Str.Copy.{strncpy_lem}

-- The offset of the first space or NUL from `index` on; the first argument is fuel.
scan : ℕ → Mem → ℕ → Option ℕ
scan zero command index = none
scan (suc fuel) command index =
    let rest = scan fuel command (index + 1) in
    if (command index == 32) || (command index == 0) then some index else rest

-- `strncpy` of the first `n` bytes, and a NUL behind them.
abbrev pub copy_name : Mem → Mem → ℕ → Mem
copy_name buf src n = store (strncpy buf src n) n 0

with_arguments : Mem → Mem → Mem → Option ℕ → Option (ℕ × Mem × Mem)
with_arguments name buf_args more none = none
with_arguments name buf_args more (some len) = some (len, name, copy_name buf_args more len)

after_name : ℕ → Mem → Mem → Mem → Option ℕ → Option (ℕ × Mem × Mem)
after_name fuel command buf_name buf_args none = none
after_name fuel command buf_name buf_args (some index) =
    let name = copy_name buf_name command index in
    let more : Mem = λ i. command (index + 1 + i) in
    if command index == 32
    then with_arguments name buf_args more (strlen fuel more)
    else some (0, name, store buf_args 0 0)

-- The number of bytes of the arguments, the name and the arguments.
unfoldable pub parse_command : ℕ → Mem → Mem → Mem → Option (ℕ × Mem × Mem)
unfolding scan after_name with_arguments
parse_command fuel command buf_name buf_args =
    after_name fuel command buf_name buf_args (scan fuel command 0)
