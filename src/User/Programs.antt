-- ===== src/User/Programs.antt =====
-- The programs syscalls/ece391cat.c, ece391ls.c, ece391hello.c, ece391testprint.c, ece391shell.c and
-- ece391counter.c. A loop takes fuel, and has no outcome where it runs out.
pub mod Prints
pub mod Runs
mod Tests
use Prim.Native.String.{String}
use psych_os.Base.{
  ℕ, zero, suc, ◌+◌, Bool, false, Option, none, some, List, [], ◌∷◌, ◌++◌, Mem, ◌==◌, ltb, ◌&&◌,
  ◌||◌, bytes, if◌then◌else◌, get_or,
}
use psych_os.Base.Int.{ℤ, pos, negsuc}
use psych_os.Printf.Calls.{codes}
use psych_os.User.Calls.{Act, ◌>>=◌, ◌>>◌, pure, never, SystemCalls, fdputs}
use psych_os.User.Support.{ece391_strlen, ece391_strcmp, ece391_itoa}

-- The bytes that were read, up to the first NUL; the program stores one behind them.
unfoldable pub until_nul : List ℕ → List ℕ
until_nul [] = []
until_nul (b ∷ bs) = if b == 0 then [] else b ∷ until_nul bs

-- `if (cnt > 0 && '\n' == buf[cnt - 1]) cnt--;`
unfoldable pub without_newline : List ℕ → List ℕ
without_newline [] = []
without_newline (b ∷ []) = if b == 10 then [] else b ∷ []
without_newline (b ∷ c ∷ bs) = b ∷ without_newline (c ∷ bs)

-- The command line in what the terminal read.
abbrev pub line_of : List ℕ → List ℕ
line_of bs = until_nul (without_newline bs)

-- A string in memory.
abbrev pub string_of : List ℕ → Mem
string_of bs i = get_or bs i 0

-- The buffer behind `strcmp (buf, "exit")`: five bytes tell.
unfoldable pub is_exit : List ℕ → Bool
is_exit line = elim (ece391_strcmp 5 (string_of line) (string_of (codes "exit"))) [
  | none ↦ false
  | some (pos n) ↦ n == 0
  | some (negsuc n) ↦ false
]

module _ {S : Type 0} (c : SystemCalls S) where
  -- `fdputs` of bytes in memory.
  unfoldable pub put : List ℕ → Act S (Option ℕ)
  put bs = c.write 1 bs

  -- A message, and the value that `main` returns.
  unfoldable pub fails : String → ℕ → Act S ℕ
  fails message status = do fdputs c 1 message; pure status

  -- The loops of cat and ls: what is read is written, as `shown` has it.
  unfoldable pub copy_loop : ℕ → String → ℕ → (List ℕ → List ℕ) → ℕ → Act S ℕ
  copy_loop zero complaint n shown fd = never
  copy_loop (suc fuel) complaint n shown fd = do
    r ← c.read fd n
    elim r [
      | none ↦ fails complaint 3
      | some [] ↦ pure 0
      | some (b ∷ bs) ↦ do
        w ← c.write 1 (shown (b ∷ bs))
        elim w [ none ↦ pure 3 | some x ↦ copy_loop fuel complaint n shown fd ]
    ]

  unfoldable pub cat : ℕ → Act S ℕ
  cat fuel = do
    args ← c.getargs 1024
    elim args [
      | none ↦ fails "could not read arguments\n" 3
      | some name ↦ do
        opened ← c.open_file name
        elim opened [
          | none ↦ fails "file not found\n" 2
          | some fd ↦ copy_loop fuel "file read failed\n" 1024 (λ bs. bs) fd
        ]
    ]

  unfoldable pub ls : ℕ → Act S ℕ
  ls fuel = do
    opened ← c.open_file (codes ".")
    elim opened [
      | none ↦ fails "directory open failed\n" 2
      | some fd ↦ copy_loop fuel "directory entry read failed\n" 32 (λ bs. bs ++ 10 ∷ []) fd
    ]

  unfoldable pub hello : Act S ℕ
  hello = do
    fdputs c 1 "Hi, what's your name? "
    r ← c.read 0 1023
    elim r [
      | none ↦ fails "Can't read name from keyboard.\n" 3
      | some bs ↦ do fdputs c 1 "Hello, "; put (until_nul bs); pure 0
    ]

  unfoldable pub testprint : Act S ℕ
  testprint = fails "Hello, if this ran, the program was correct. Yay!\n" 0

  -- What the shell says of the value of a command.
  unfoldable pub reported : Option ℕ → Act S (Option ℕ)
  reported none = fdputs c 1 "no such command\n"
  reported (some rval) =
      if rval == 256
      then fdputs c 1 "program terminated by exception\n"
      else if rval == 0
      then pure none
      else fdputs c 1 "program terminated abnormally\n"

  unfoldable pub run_line : List ℕ → Act S (Option ℕ)
  run_line [] = pure none
  run_line (b ∷ bs) = do rval ← c.execute (b ∷ bs); reported rval

  unfoldable pub shell_loop : ℕ → Act S ℕ
  shell_loop zero = never
  shell_loop (suc fuel) = do
    fdputs c 1 "391OS> "
    r ← c.read 0 1023
    elim r [
      | none ↦ fails "read from keyboard failed\n" 3
      | some bs ↦
          let line = line_of bs in
          let rest : Act S ℕ = run_line line >> shell_loop fuel in
          if is_exit line then pure 0 else rest
    ]

  unfoldable pub shell : ℕ → Act S ℕ
  shell fuel = do fdputs c 1 "Starting 391 Shell\n"; shell_loop fuel

  -- The loop over `i`, with `n` rounds to go; the buffer holds the last number.
  unfoldable pub count_loop : ℕ → ℕ → Mem → Act S ℕ
  count_loop zero i buf = pure 0
  count_loop (suc n) i buf = elim (ece391_itoa 33 (i + 1) buf 10) [
    | none ↦ never
    | some text ↦ elim (ece391_strlen 33 text) [
      | none ↦ never
      | some len ↦ put (bytes text 0 len) >> fdputs c 1 "\n" >> count_loop n (i + 1) text
    ]
  ]

  abbrev count_max : ℕ → ℕ
  count_max digit =
      if digit == b'0'
      then 100
      else if digit == b'1'
      then 10000
      else if digit == b'2'
      then 100000
      else 0

  -- `strlen(buf)` is at most 1023.
  unfoldable pub chosen_count : List ℕ → Act S ℕ
  chosen_count bs = elim (ece391_strlen 1024 (string_of bs)) [
    | none ↦ never
    | some len ↦
        let digit = get_or bs 0 0 in
        if ltb 2 len || ((len == 2) && (ltb digit b'0' || ltb b'2' digit))
        then fails "Wrong Choice!\n" 0
        else count_loop (count_max digit) 0 (string_of bs)
  ]

  unfoldable pub counter : Act S ℕ
  counter = do
    fdputs c 1 "Enter the Test Number: (0): 100, (1): 10000, (2): 100000\n"
    r ← c.read 0 1023
    elim r [ none ↦ fails "Can't read the number from keyboard.\n" 3 | some bs ↦ chosen_count bs ]
