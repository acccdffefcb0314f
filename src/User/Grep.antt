-- ===== src/User/Grep.antt =====
-- syscalls/ece391grep.c. `contents` is the array `data` of 1025 bytes, the buffer of a file; what it
-- holds before is an argument. A loop over reads takes fuel, and has no outcome where it runs out.
use psych_os.Base.{
  ℕ, zero, suc, ◌+◌, ◌-◌, Bool, true, false, not, ◌&&◌, Option, none, some, List, [], ◌∷◌, Mem,
  ◌==◌, leb, store, if◌then◌else◌, get_or, length,
}
use psych_os.Base.Int.{ℤ, pos, negsuc}
use psych_os.Str.Text.{text}
use psych_os.Printf.Calls.{codes}
use psych_os.User.Calls.{Act, ◌>>=◌, ◌>>◌, pure, never, SystemCalls, fdputs}
use psych_os.User.Support.{ece391_strcpy, ece391_strncmp}
use psych_os.User.Programs.{string_of, until_nul, put, fails}

-- `while (line_end < last && '\n' != data[line_end]) line_end++;`, with `n` bytes up to `last`.
line_end_from : ℕ → Mem → ℕ → ℕ
line_end_from zero contents i = i
line_end_from (suc n) contents i =
    let rest = line_end_from n contents (i + 1) in if contents i == 10 then i else rest

is_zero : ℤ → Bool
is_zero (pos n) = n == 0
is_zero (negsuc n) = false

-- Whether the search string stands in the line, from `check` on with `n` positions to go.
found_from : ℕ → Mem → List ℕ → ℕ → Bool
unfolding is_zero
found_from zero contents s check = false
found_from (suc n) contents s check =
    let rest = found_from n contents s (check + 1) in
    let here = is_zero (ece391_strncmp (λ i. contents (check + i)) (string_of s) (length s)) in
    if (get_or s 0 0 == contents check) && here then true else rest

-- The bytes that were read are stored from `last` on.
stored_from : Mem → ℕ → List ℕ → Mem
stored_from contents last [] = contents
stored_from contents last (b ∷ bs) = stored_from (store contents last b) (last + 1) bs

module _ {S : Type 0} (c : SystemCalls S) where
  -- The line at `line_start`, where the search string stands in it.
  unfoldable pub print_match : List ℕ → Mem → List ℕ → ℕ → ℕ → Act S (Option ℕ)
  unfolding found_from
  print_match s contents fname line_start line_end =
      if found_from (line_end - line_start) contents s line_start
      then put c fname
        >> fdputs c 1 ":"
        >> put c (text contents line_start (line_end + 1 - line_start))
        >> fdputs c 1 "\n"
      else pure none

  -- The loop over the lines of what was read: the buffer with the part of a line that is left at its
  -- start, and that part's length. The source and the end of the copy stand in the buffer itself,
  -- behind what is written.
  unfoldable pub lines_from : ℕ → List ℕ → List ℕ → ℕ → Mem → ℕ → ℕ → Act S (Mem × ℕ)
  unfolding line_end_from
  lines_from zero s fname cnt contents last line_start = never
  lines_from (suc fuel) s fname cnt contents last line_start =
      let line_end = line_end_from (last - line_start) contents line_start in
      let cut = store contents line_end 0 in
      let next_start = line_end + 1 in
      let rest = lines_from fuel s fname cnt cut last next_start in
      if not (contents line_end == 10) && (not (cnt == 0) && not (line_start == 0))
      then elim (ece391_strcpy 1025 cut (λ i. cut (line_start + i))) [
        | none ↦ never
        | some copied ↦ pure (copied, last - line_start)
      ]
      else print_match s cut fname line_start line_end
        >> (if leb last next_start then pure (cut, 0) else rest)

  unfoldable pub closed : ℕ → Act S Bool
  closed fd = do
    x ← c.close fd
    elim x [ none ↦ fdputs c 1 "file close failed\n" >> pure false | some n ↦ pure true ]

  -- Whether the file was searched to its end.
  unfoldable pub search_from : ℕ → List ℕ → List ℕ → ℕ → Mem → ℕ → Act S Bool
  unfolding stored_from
  search_from zero s fname fd contents last = never
  search_from (suc fuel) s fname fd contents last = do
    r ← c.read fd (1024 - last)
    elim r [
      | none ↦ fdputs c 1 "file read failed\n" >> pure false
      | some bs ↦ do
        let cnt = length bs
        left ← lines_from 1026 s fname cnt (stored_from contents last bs) (last + cnt) 0
        let rest = search_from fuel s fname fd left.0 left.1
        if cnt == 0 then closed fd else rest
    ]

  unfoldable pub do_one_file : ℕ → Mem → List ℕ → List ℕ → Act S Bool
  do_one_file fuel contents s fname = do
    opened ← c.open_file fname
    elim opened [
      | none ↦ fdputs c 1 "file open failed\n" >> pure false
      | some fd ↦ search_from fuel s fname fd contents 0
    ]

  unfoldable pub search_each : ℕ → ℕ → Mem → List ℕ → ℕ → Act S ℕ
  search_each zero fuel contents search fd = never
  search_each (suc files) fuel contents search fd = do
    r ← c.read fd 32
    elim r [
      | none ↦ fails c "directory entry read failed\n" 3
      | some [] ↦ pure 0
      | some (b ∷ bs) ↦
          let next = search_each files fuel contents search fd in
          let this : Act S ℕ = do_one_file fuel contents search (until_nul (b ∷ bs)) >>= λ searched.
          if searched then next else pure 3 in
          if b == b'.' then next else this
    ]

  unfoldable pub grep : ℕ → ℕ → Mem → Act S ℕ
  grep files fuel contents = do
    args ← c.getargs 1024
    elim args [
      | none ↦ fails c "could not read argument\n" 3
      | some search ↦ do
        opened ← c.open_file (codes ".")
        elim opened [
          | none ↦ fails c "directory open failed\n" 2
          | some fd ↦ search_each files fuel contents search fd
        ]
    ]
