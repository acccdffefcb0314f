-- ===== src/User/KernelCalls/Tests.antt =====
-- The tests of syserr on a kernel with one fresh process, over a file system without files.
use psych_os.Base.{ℕ, zero, suc, ◌≡◌, ◌≤◌, refl, arith, none, some, [], false}
use psych_os.Fs.Driver.{read_dentry_by_name}
use psych_os.Fs.Image.{ece391_fs_init}
use psych_os.Process.Sample.{blank, process, kernel}
use psych_os.Process.State.{Kernel}
use psych_os.Process.Descriptors.{in_use, open_stdin_and_stdout}
use psych_os.User.Errors.{err_neg_fd, err_big_fd, err_open, err_unopened, err_vidmap, err_stdin_out}
use psych_os.User.KernelCalls.{Rest, kernel_calls}
use psych_os.User.KernelCalls.Refused.{
  said, buffered, buffered_often, IsFresh, IsUnknown, kernel-refuses,
}

abbrev rest : Rest
rest = record {
  surroundings = record {
    fs = ece391_fs_init blank 0;
    dentry = record { file_name = blank; file_type = 0; inode_num = 0; reserved = blank };
    interrupts = [];
    ticks = 0;
  };
  slot = 1;
  buffer = 0x8400000;
  fuel = 128;
  child = λ name k. some (none, k);
  raw = λ number k. some (none, k);
}

abbrev fresh : Kernel
fresh = record kernel { pcbs = λ i. open_stdin_and_stdout (process i) }

unused : (fd : ℕ) → 2 ≤ fd → in_use ((open_stdin_and_stdout (process 1)).fa fd) ≡ false
unfolding open_stdin_and_stdout
unused zero a = ground arith
unused (suc zero) a = ground arith
unused (suc (suc fd)) a = grind arith

fresh-IsFresh : IsFresh rest [] fresh
unfolding open_stdin_and_stdout
fresh-IsFresh = (refl, refl, λ fd a b. unused fd a)

without_helloo : IsUnknown rest [] "helloo"
unfolding read_dentry_by_name ece391_fs_init
without_helloo = refl

without_shel : IsUnknown rest [] "shel"
unfolding read_dentry_by_name ece391_fs_init
without_shel = refl

without_empty : IsUnknown rest [] ""
unfolding read_dentry_by_name ece391_fs_init
without_empty = refl

kernel-refuses_example :
    let c = kernel_calls rest in
    (err_neg_fd c [] fresh ≡ some (0, said rest (buffered rest [] fresh) "err_neg_fd: PASS\n"))
    × (err_big_fd c [] fresh ≡ some (0, said rest (buffered rest [] fresh) "err_big_fd: PASS\n"))
    × (err_open c [] fresh ≡ some (0, said rest fresh "err_open: PASS\n"))
    × (err_unopened c [] fresh
        ≡ some (0, said rest (buffered_often rest [] 6 fresh) "err_unopened: PASS\n"))
    × (err_vidmap c [] fresh ≡ some (0, said rest fresh "err_vidmap: PASS\n"))
    × (err_stdin_out c [] fresh
        ≡ some (0, said rest (buffered rest [] fresh) "err_stdin_out: PASS\n"))
kernel-refuses_example =
    kernel-refuses rest [] fresh fresh-IsFresh without_helloo without_shel without_empty
