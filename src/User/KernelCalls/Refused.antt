-- ===== src/User/KernelCalls/Refused.antt =====
-- The kernel refuses what the program tries that tests for it.
use Prim.Native.String.{String}
use psych_os.Base.{
  ℕ, zero, suc, ◌+◌, ◌≤◌, ◌<◌, ◌≡◌, refl, ap₂, arith, Bool, true, false, not, ◌&&◌, Option, none,
  some, List, Mem, leb, get_or, length, take, inl, inr,
}
use psych_os.Fs.Files.{FileOps, fops_stdin, fops_stdout}
use psych_os.Fs.Driver.{read_dentry_by_name}
use psych_os.Printf.Calls.{codes}
use psych_os.Process.State.{Kernel}
use psych_os.Process.Descriptors.{in_use, has_close, file_of, syscall_close}
use psych_os.Process.Descriptors.Opening.{syscall_open_lem}
use psych_os.Process.Transfer.{
  in_page, has_read, has_write, syscall_read, syscall_write, syscall_vidmap,
}
use psych_os.User.Calls.{◌>>=◌, fdputs}
use psych_os.User.Errors.{
  negative, big, err_neg_fd, err_big_fd, err_fd, err_open, err_unopened, err_vidmap, err_stdin_out,
  refused, verdict, closes_refused, reads_refused, writes_refused,
}
use psych_os.User.KernelCalls.{Rest, kernel_calls, stored_at}

-- A descriptor of the table that is in use and has the operation.
abbrev ready : (FileOps → Bool) → Kernel → ℕ → ℕ → Bool
ready has k slot fd = not (leb 8 fd) && (in_use (file_of k slot fd) && has (file_of k slot fd).fops)

module _ (r : Rest) where
  read_refused :
      (k : Kernel) (fd n : ℕ)
      → ready has_read k r.slot fd ≡ false
      → (kernel_calls r).read fd n k ≡ some (none, k)
  unfolding syscall_read kernel_calls
  read_refused k fd n h = ground arith

  write_refused :
      (k : Kernel) (fd : ℕ) (bs : List ℕ)
      → ready has_write k r.slot fd ≡ false
      → (kernel_calls r).write fd bs k ≡ some (none, stored_at k r.buffer bs)
  unfolding syscall_write kernel_calls
  write_refused k fd bs h = ground arith

  close_refused :
      (k : Kernel) (fd : ℕ)
      → ready has_close k r.slot fd ≡ false
      → (kernel_calls r).close fd k ≡ some (none, k)
  unfolding syscall_close kernel_calls
  close_refused k fd h = ground arith

  vidmap_refused :
      (k : Kernel) (a : ℕ) → in_page a 4 ≡ false → (kernel_calls r).vidmap a k ≡ some (none, k)
  unfolding syscall_vidmap kernel_calls
  vidmap_refused k a h = ground arith

  -- The kernel after a text was put on descriptor 1, and with bytes in the buffer.
  abbrev pub said : Kernel → String → Kernel
  said k t = (syscall_write (stored_at k r.buffer (codes t)) r.slot 1 r.buffer (length (codes t))).1

  fdputs_lem :
      (k : Kernel) (t : String)
      → (s : Option ℕ) × (fdputs (kernel_calls r) 1 t k ≡ some (s, said k t))
  unfolding kernel_calls
  fdputs_lem k t = (
    (syscall_write (stored_at k r.buffer (codes t)) r.slot 1 r.buffer (length (codes t))).0,
    refl,
  )

  module _ (buf : List ℕ) where
    -- The buffer as the program left it.
    abbrev pub buffered : Kernel → Kernel
    buffered k = stored_at k r.buffer (take 31 buf)

    verdict_lem :
        (k : Kernel) (bad good : String)
        → verdict (kernel_calls r) buf bad good 0 k ≡ some (0, said k good)
    unfolding verdict
    verdict_lem k bad good = rw ((fdputs_lem k good).1, ◌>>=◌)

    err_fd_lem :
        (k : Kernel) (fd : ℕ) (bad good : String)
        → 8 ≤ fd
        → err_fd (kernel_calls r) buf fd bad good k ≡ some (0, said (buffered k) good)
    unfolding err_fd refused
    err_fd_lem k fd bad good l =
        let high : leb 8 fd ≡ true = ground arith in
        let read = read_refused k fd 31 (ground arith) in
        let write = write_refused k fd (take 31 buf) (ground arith) in
        let close = close_refused (buffered k) fd (ground arith) in
        rw (read, write, close, ◌>>=◌) (verdict_lem (buffered k) bad good)

    err_vidmap_lem :
        (k : Kernel) → err_vidmap (kernel_calls r) buf k ≡ some (0, said k "err_vidmap: PASS\n")
    unfolding err_vidmap refused
    err_vidmap_lem k =
        rw (vidmap_refused k 0 refl, vidmap_refused k 0x400000 refl, ◌>>=◌)
          (verdict_lem k "err_vidmap: FAIL\n" "err_vidmap: PASS\n")

    -- Nothing but standard input and output is open.
    abbrev pub IsFresh : Kernel → Type 0
    IsFresh k =
        ((file_of k r.slot 0).fops ≡ fops_stdin)
        × ((file_of k r.slot 1).fops ≡ fops_stdout)
        × ((fd : ℕ) → 2 ≤ fd → fd < 8 → in_use (file_of k r.slot fd) ≡ false)

    err_stdin_out_lem :
        (k : Kernel)
        → IsFresh k
        → err_stdin_out (kernel_calls r) buf k ≡ some (0, said (buffered k) "err_stdin_out: PASS\n")
    unfolding err_stdin_out refused
    err_stdin_out_lem k (input, output, others) =
        rw
          (
            write_refused k 0 (take 31 buf) (ground (arith, input)),
            read_refused (buffered k) 1 31 (ground (arith, output)),
            ◌>>=◌,
          )
          (verdict_lem (buffered k) "err_stdin_out: FAIL\n" "err_stdin_out: PASS\n")

    closes_lem :
        (n i : ℕ) (k : Kernel)
        → ((fd : ℕ) → i ≤ fd → fd < i + n → ready has_close k r.slot fd ≡ false)
        → closes_refused (kernel_calls r) buf n i 0 k ≡ some (0, k)
    unfolding closes_refused refused
    closes_lem zero i k h = refl
    closes_lem (suc n) i k h =
        rw (close_refused k i (h i (omega arith) (omega arith)), ◌>>=◌)
          (closes_lem n (i + 1) k (λ fd a b. h fd (omega arith) (omega arith)))

    reads_lem :
        (n i : ℕ) (k : Kernel)
        → ((fd : ℕ) → i ≤ fd → fd < i + n → ready has_read k r.slot fd ≡ false)
        → reads_refused (kernel_calls r) buf n i 0 k ≡ some (0, k)
    unfolding reads_refused refused
    reads_lem zero i k h = refl
    reads_lem (suc n) i k h =
        rw (read_refused k i 31 (h i (omega arith) (omega arith)), ◌>>=◌)
          (reads_lem n (i + 1) k (λ fd a b. h fd (omega arith) (omega arith)))

    abbrev pub buffered_often : ℕ → Kernel → Kernel
    buffered_often zero k = k
    buffered_often (suc n) k = buffered_often n (buffered k)

    writes_lem :
        (n i : ℕ) (k : Kernel)
        → ((fd : ℕ) → i ≤ fd → fd < i + n → ready has_write k r.slot fd ≡ false)
        → writes_refused (kernel_calls r) buf n i 0 k ≡ some (0, buffered_often n k)
    unfolding writes_refused refused
    writes_lem zero i k h = refl
    writes_lem (suc n) i k h =
        rw (write_refused k i (take 31 buf) (h i (omega arith) (omega arith)), ◌>>=◌)
          (writes_lem n (i + 1) (buffered k) (λ fd a b. h fd (omega arith) (omega arith)))

    fresh_close :
        (k : Kernel) → IsFresh k → (fd : ℕ) → 0 ≤ fd → fd < 8 → ready has_close k r.slot fd ≡ false
    fresh_close k (input, output, others) zero a b = ground (arith, input)
    fresh_close k (input, output, others) (suc zero) a b = ground (arith, output)
    fresh_close k (input, output, others) (suc (suc fd)) a b =
        let unused = others (suc (suc fd)) (omega arith) b in ground (arith, unused)

    fresh_other :
        (has : FileOps → Bool) (k : Kernel)
        → IsFresh k
        → (fd : ℕ) → 2 ≤ fd
        → fd < 8
        → ready has k r.slot fd ≡ false
    fresh_other has k (input, output, others) fd a b =
        let unused = others fd a b in ground (arith, unused)

    err_unopened_lem :
        (k : Kernel)
        → IsFresh k
        → err_unopened (kernel_calls r) buf k
          ≡ some (0, said (buffered_often 6 k) "err_unopened: PASS\n")
    unfolding err_unopened
    err_unopened_lem k f =
        rw
          (
            closes_lem 8 0 k (fresh_close k f),
            reads_lem 6 2 k (fresh_other has_read k f),
            writes_lem 6 2 k (fresh_other has_write k f),
            ◌>>=◌,
          )
          (verdict_lem (buffered_often 6 k) "err_unopened: FAIL\n" "err_unopened: PASS\n")

    -- No file has one of the names that are tried.
    abbrev pub IsUnknown : String → Type 0
    IsUnknown t =
        read_dentry_by_name r.surroundings.fs (λ i. get_or (codes t) i 0) r.surroundings.dentry
        ≡ none

    open_refused :
        (k : Kernel) (t : String)
        → IsUnknown t
        → (kernel_calls r).open_file (codes t) k ≡ some (none, k)
    unfolding kernel_calls
    open_refused k t u =
        let name : Mem = λ i. get_or (codes t) i 0 in
        let w = r.surroundings in
        elim (syscall_open_lem w.fs name w.dentry k r.slot 0 0) [
          | inl (none_open, same, why) ↦
              ap₂ (λ (a : Option ℕ) (b : Kernel). some (a, b)) none_open same
          | inr (fd, d, got, low, first, found, opened) ↦ cc
        ]

    err_open_lem :
        (k : Kernel)
        → IsUnknown "helloo"
        → IsUnknown "shel"
        → IsUnknown ""
        → err_open (kernel_calls r) buf k ≡ some (0, said k "err_open: PASS\n")
    unfolding err_open refused
    err_open_lem k a b c =
        rw (open_refused k "helloo" a, open_refused k "shel" b, open_refused k "" c, ◌>>=◌)
          (verdict_lem k "err_open: FAIL\n" "err_open: PASS\n")

    -- The tests of syserr, run on the kernel by a process with nothing open but its standard input
    -- and output, over a file system that has no file "helloo", "shel" or "": whatever its buffer
    -- holds and wherever it lies, each test with a descriptor that is negative or too big, the test
    -- that opens wrong names, the one that uses descriptors that are not open, the one that passes
    -- wrong addresses to vidmap, and the one that writes to the input and reads from the output,
    -- returns 0, and leaves the kernel as the printing of its PASS message does.
    pub kernel-refuses :
        (k : Kernel)
        → IsFresh k
        → IsUnknown "helloo"
        → IsUnknown "shel"
        → IsUnknown ""
        → let c = kernel_calls r in
          (err_neg_fd c buf k ≡ some (0, said (buffered k) "err_neg_fd: PASS\n"))
          × (err_big_fd c buf k ≡ some (0, said (buffered k) "err_big_fd: PASS\n"))
          × (err_open c buf k ≡ some (0, said k "err_open: PASS\n"))
          × (err_unopened c buf k ≡ some (0, said (buffered_often 6 k) "err_unopened: PASS\n"))
          × (err_vidmap c buf k ≡ some (0, said k "err_vidmap: PASS\n"))
          × (err_stdin_out c buf k ≡ some (0, said (buffered k) "err_stdin_out: PASS\n"))
    unfolding err_neg_fd err_big_fd
    kernel-refuses k f a b d = (
      err_fd_lem k negative "err_neg_fd: FAIL\n" "err_neg_fd: PASS\n" (omega arith),
      err_fd_lem k big "err_big_fd: FAIL\n" "err_big_fd: PASS\n" (omega arith),
      err_open_lem k a b d,
      err_unopened_lem k f,
      err_vidmap_lem k,
      err_stdin_out_lem k f,
    )
