-- ===== src/User/Errors.antt =====
-- syscalls/ece391syserr.c: a program that checks that wrong system calls are refused. A test returns
-- 0 when all of them were, and 2 otherwise. `buf` is what the uninitialised buffer holds.
use Prim.Native.String.{String}
use psych_os.Base.{
  ℕ, zero, suc, ◌+◌, ◌-◌, ◌^◌, Option, none, some, List, ◌==◌, if◌then◌else◌, take, get_or,
}
use psych_os.Printf.Calls.{codes}
use psych_os.User.Calls.{Act, ◌>>=◌, ◌>>◌, pure, SystemCalls, fdputs}

-- -1073741823 as a pattern of 32 bits, and 1073741823.
abbrev pub negative : ℕ
negative = 2 ^ 32 - 1073741823

abbrev pub big : ℕ
big = 1073741823

module _ {S : Type 0} (c : SystemCalls S) (buf : List ℕ) where
  -- `if(-1 != result) { fail = 2; fdputs(1, complaint); }`
  unfoldable pub refused : {A : Type 0} → Option A → String → ℕ → Act S ℕ
  refused none complaint fail = pure fail
  refused (some a) complaint fail = do fdputs c 1 complaint; pure 2

  unfoldable pub verdict : String → String → ℕ → Act S ℕ
  verdict bad good fail = do fdputs c 1 (if fail == 0 then good else bad); pure fail

  -- `err_neg_fd` and `err_big_fd`, which differ in the descriptor and the messages.
  unfoldable pub err_fd : ℕ → String → String → Act S ℕ
  err_fd fd bad good = do
    r ← c.read fd 31
    fail1 ← refused r "read fail\n" 0
    w ← c.write fd (take 31 buf)
    fail2 ← refused w "write fail\n" fail1
    x ← c.close fd
    fail3 ← refused x "close fail\n" fail2
    verdict bad good fail3

  unfoldable pub err_neg_fd : Act S ℕ
  err_neg_fd = err_fd negative "err_neg_fd: FAIL\n" "err_neg_fd: PASS\n"

  unfoldable pub err_big_fd : Act S ℕ
  err_big_fd = err_fd big "err_big_fd: FAIL\n" "err_big_fd: PASS\n"

  -- `n` opens of the directory; how many of them failed.
  unfoldable pub failed_opens : ℕ → ℕ → Act S ℕ
  failed_opens zero cnt = pure cnt
  failed_opens (suc n) cnt = do
    r ← c.open_file (codes ".")
    failed_opens n (elim r [ none ↦ cnt + 1 | some fd ↦ cnt ])

  -- The descriptors from `i` on are closed, with `n` still to come.
  unfoldable pub close_each : ℕ → ℕ → Act S ℕ
  close_each zero i = pure 0
  close_each (suc n) i = do c.close i; close_each n (i + 1)

  unfoldable pub err_open_lots : Act S ℕ
  err_open_lots = do
    cnt ← failed_opens 7 0
    close_each 6 2
    fdputs c 1 (if cnt == 1 then "err_open_lots: PASS\n" else "err_open_lots: FAIL\n")
    pure (if cnt == 1 then 0 else 2)

  unfoldable pub err_open : Act S ℕ
  err_open = do
    a ← c.open_file (codes "helloo")
    fail1 ← refused a "'helloo' fail\n" 0
    b ← c.open_file (codes "shel")
    fail2 ← refused b "'shel' fail\n" fail1
    d ← c.open_file (codes "")
    fail3 ← refused d "empty string fail\n" fail2
    verdict "err_open: FAIL\n" "err_open: PASS\n" fail3

  -- The loops over the descriptors, from `i` on with `n` still to come.
  unfoldable pub closes_refused : ℕ → ℕ → ℕ → Act S ℕ
  closes_refused zero i fail = pure fail
  closes_refused (suc n) i fail = do
    r ← c.close i
    fail' ← refused r "close unopened or invalid fd fail\n" fail
    closes_refused n (i + 1) fail'

  unfoldable pub reads_refused : ℕ → ℕ → ℕ → Act S ℕ
  reads_refused zero i fail = pure fail
  reads_refused (suc n) i fail = do
    r ← c.read i 31
    fail' ← refused r "read from unopened fd fail\n" fail
    reads_refused n (i + 1) fail'

  unfoldable pub writes_refused : ℕ → ℕ → ℕ → Act S ℕ
  writes_refused zero i fail = pure fail
  writes_refused (suc n) i fail = do
    r ← c.write i (take 31 buf)
    fail' ← refused r "write to unopened fd fail\n" fail
    writes_refused n (i + 1) fail'

  unfoldable pub err_unopened : Act S ℕ
  err_unopened = do
    fail1 ← closes_refused 8 0 0
    fail2 ← reads_refused 6 2 fail1
    fail3 ← writes_refused 6 2 fail2
    verdict "err_unopened: FAIL\n" "err_unopened: PASS\n" fail3

  unfoldable pub err_vidmap : Act S ℕ
  err_vidmap = do
    a ← c.vidmap 0
    fail1 ← refused a "Null pointer fail\n" 0
    b ← c.vidmap 0x400000
    fail2 ← refused b "Kernel pointer fail fail\n" fail1
    verdict "err_vidmap: FAIL\n" "err_vidmap: PASS\n" fail2

  unfoldable pub err_stdin_out : Act S ℕ
  err_stdin_out = do
    a ← c.write 0 (take 31 buf)
    fail1 ← refused a "write to stdin fail\n" 0
    b ← c.read 1 31
    fail2 ← refused b "read from stdout fail\n" fail1
    verdict "err_stdin_out: FAIL\n" "err_stdin_out: PASS\n" fail2

  unfoldable pub err_syscall_num : Act S ℕ
  err_syscall_num = do
    a ← c.call_sys big
    fail1 ← refused a "syscall 0 fail\n" 0
    b ← c.call_sys negative
    fail2 ← refused b "big num syscall fail\n" fail1
    d ← c.call_sys 0
    fail3 ← refused d "neg num syscall fail\n" fail2
    verdict "err_syscall_num: FAIL\n" "err_syscall_num: PASS\n" fail3

  unfoldable pub all_tests : Act S ℕ
  all_tests = do
    a ← err_neg_fd
    b ← err_big_fd
    d ← err_open_lots
    e ← err_open
    f ← err_unopened
    g ← err_vidmap
    h ← err_stdin_out
    i ← err_syscall_num
    let fail = a + b + d + e + f + g + h + i
    fdputs c 1 (if fail == 0 then "\nOverall Tests: PASS\n" else "\nOverall Tests: FAIL\n")
    pure fail

  -- `select` is the digit that was typed.
  unfoldable pub selected : ℕ → Act S ℕ
  selected select =
      if select == b'0'
      then all_tests
      else if select == b'1'
      then err_neg_fd
      else if select == b'2'
      then err_big_fd
      else if select == b'3'
      then err_open_lots
      else if select == b'4'
      then err_open
      else if select == b'5'
      then err_unopened
      else if select == b'6'
      then err_vidmap
      else if select == b'7'
      then err_stdin_out
      else if select == b'8'
      then err_syscall_num
      else do fdputs c 1 "Invalid test number. Choose from tests 1-8 or 0"; pure 0

  unfoldable pub chosen : Option (List ℕ) → Act S ℕ
  chosen none = do fdputs c 1 "Can't read test #\n"; pure 2
  chosen (some typed) = selected (get_or typed 0 (get_or buf 0 0))

  unfoldable pub main : Act S ℕ
  main = do fdputs c 1 "Choose from tests 1-8. 0 to run all: "; typed ← c.read 0 127; chosen typed
