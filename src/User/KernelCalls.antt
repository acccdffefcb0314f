-- ===== src/User/KernelCalls.antt =====
-- The kernel as a system for programs: the calls of the process in a slot, whose buffer lies at an
-- address of user memory. What the kernel leaves to its surroundings is a parameter: the child that
-- `execute` runs, the dispatch of raw numbers in assembly, and the register values of the clock.
pub mod Refused
mod Tests
use psych_os.Base.{
  ℕ, zero, suc, ◌+◌, ◌-◌, ◌*◌, ◌%◌, ◌^◌, ◌≤◌, ◌<◌, ◌≡◌, ◌≢◌, refl, ap, sym, subst, ◌∙◌, arith, Bool,
  true, false, not, ◌&&◌, Option, none, some, List, [], ◌∷◌, Mem, ◌==◌, leb, ltb, if◌then◌else◌,
  bytes, get_or, length, take, add32, Bool-cases, Option-cases, inl, inr,
}
use psych_os.Str.Text.{text}
use psych_os.Fs.Image.{Dentry, FileSystem}
use psych_os.Fs.Driver.{read_dentry_by_name}
use psych_os.Fs.Files.{fops_stdin, fops_stdout}
use psych_os.Printf.Calls.{codes}
use psych_os.Process.State.{Kernel}
use psych_os.Process.Descriptors.{in_use, has_close, file_of, syscall_open, syscall_close}
use psych_os.Process.Transfer.{
  Surroundings, in_page, with_mem, has_read, has_write, syscall_read, syscall_write,
  syscall_getargs, syscall_vidmap,
}
use psych_os.User.Calls.{Act, ◌>>=◌, ◌>>◌, pure, SystemCalls, fdputs}
use psych_os.User.Errors.{
  err_neg_fd, err_big_fd, err_fd, err_open, err_unopened, err_vidmap, err_stdin_out, refused,
  verdict, closes_refused, reads_refused, writes_refused,
}

pub record Rest : Type 0 where
  pub surroundings : Surroundings
  pub slot : ℕ
  pub buffer : ℕ
  pub fuel : ℕ
  pub child : List ℕ → Act Kernel (Option ℕ)
  pub raw : ℕ → Act Kernel (Option ℕ)

-- The bytes of the buffer are stored before a call that reads them.
abbrev stored_at : Kernel → ℕ → List ℕ → Kernel
stored_at k a bs =
    with_mem k (λ x. if leb a x && ltb x (a + length bs) then get_or bs (x - a) 0 else k.tty.mem x)

filled : ℕ → Option (Option ℕ × Kernel) → Option (Option (List ℕ) × Kernel)
filled buffer none = none
filled buffer (some (none, k)) = some (none, k)
filled buffer (some (some n, k)) = some (some (bytes k.tty.mem buffer n), k)

argued : ℕ → ℕ → Option (Option ℕ × Kernel) → Option (Option (List ℕ) × Kernel)
argued buffer nbytes none = none
argued buffer nbytes (some (none, k)) = some (none, k)
argued buffer nbytes (some (some n, k)) = some (some (text k.tty.mem buffer nbytes), k)

abbrev pub kernel_calls : Rest → SystemCalls Kernel
unfolding filled argued
kernel_calls r = record {
  execute = r.child;
  read = λ fd n k. filled r.buffer (syscall_read r.surroundings k r.slot fd r.buffer n);
  write = λ fd bs k. some (syscall_write (stored_at k r.buffer bs) r.slot fd r.buffer (length bs));
  open_file = λ name k.
      some
        (syscall_open r.surroundings.fs (λ i. get_or name i 0) r.surroundings.dentry k r.slot 0 0);
  close = λ fd k. some (syscall_close k r.slot fd);
  getargs = λ n k. argued r.buffer n (syscall_getargs r.fuel k r.slot r.buffer n);
  vidmap = λ a k. some (syscall_vidmap k r.slot a);
  call_sys = r.raw;
}
