-- ===== src/Process/Descriptors.antt =====
-- The file descriptors of a process: `syscall_open` and `syscall_close` of
-- student-distrib/kernel/syscall.c and `open_stdin_and_stdout` of student-distrib/arch/x86/task.c.
-- A descriptor is the 32-bit pattern of its `int32_t`, so that a negative one is above every limit;
-- -1 is `none`. The process that calls is named by its slot.
pub mod Opening
pub mod Closing
use psych_os.Base.{
  ℕ, zero, suc, ◌+◌, ◌*◌, ◌/◌, ◌%◌, Bool, true, false, Option, none, some, Mem, ◌==◌, ◌||◌, leb,
  ltb, if◌then◌else◌, update,
}
use psych_os.Fs.Image.{Dentry, FileSystem}
use psych_os.Fs.Driver.{read_dentry_by_name}
use psych_os.Fs.Files.{
  FileOps, fops_null, fops_rtc, fops_dir, fops_file, fops_stdin, fops_stdout, File, file_open,
  file_close, dir_open, dir_close,
}
use psych_os.Process.State.{Pcb, Kernel, max_file_descriptors}
use psych_os.Process.Clock.{rtc_open, rtc_close}

-- `flags & FILE_IN_USE`
abbrev pub in_use : File → Bool
in_use f = f.flags % 2 == 1

-- One entry of the file array of a slot.
abbrev pub set_file : Kernel → ℕ → ℕ → File → Kernel
set_file k slot fd f = record k {
  pcbs = update k.pcbs slot (record (k.pcbs slot) { fa = update (k.pcbs slot).fa fd f });
}

abbrev pub file_of : Kernel → ℕ → ℕ → File
file_of k slot fd = (k.pcbs slot).fa fd

unfoldable pub open_stdin_and_stdout : Pcb → Pcb
open_stdin_and_stdout pcb = record pcb {
  fa =
      update
        (update pcb.fa 0 (record (pcb.fa 0) { flags = 1; fops = fops_stdin; file_position = 0 })) 1
        (record (pcb.fa 1) { flags = 1; fops = fops_stdout; file_position = 0 });
}

-- The first free descriptor from `idx` on, with `n` still to be looked at.
unfoldable pub free_from : ℕ → (ℕ → File) → ℕ → Option ℕ
free_from zero fa idx = none
free_from (suc n) fa idx =
    let rest = free_from n fa (idx + 1) in if in_use (fa idx) then rest else some idx

-- `fops_table`
abbrev pub fops_table : ℕ → FileOps
fops_table file_type =
    if file_type == 0 then fops_rtc else if file_type == 1 then fops_dir else fops_file

-- The `open` of a table; the two register values are what `rtc_open` reads from the chip.
unfoldable pub call_open : FileOps → Kernel → ℕ → ℕ → ℕ → ℕ → Option ℕ × Kernel
call_open fops_rtc k slot fd prev_b prev_a = rtc_open k slot prev_b prev_a
call_open fops_dir k slot fd prev_b prev_a = (dir_open (file_of k slot fd), k)
call_open fops_file k slot fd prev_b prev_a = (file_open (file_of k slot fd), k)
call_open fops_null k slot fd prev_b prev_a = (none, k)
call_open fops_stdin k slot fd prev_b prev_a = (none, k)
call_open fops_stdout k slot fd prev_b prev_a = (none, k)

-- `if(retval < 0) return retval;`, and else the entry is filled in.
take_descriptor : ℕ → ℕ → ℕ → Option ℕ × Kernel → Option ℕ × Kernel
take_descriptor slot fd inode_num (none, k) = (none, k)
take_descriptor slot fd inode_num (some retval, k) = (
  some fd,
  set_file k slot fd
      (record (file_of k slot fd) { flags = 1; inode = inode_num; file_position = 0 }),
)

open_dentry : Kernel → ℕ → ℕ → ℕ → ℕ → Option Dentry → Option ℕ × Kernel
open_dentry k slot fd prev_b prev_a none = (none, k)
open_dentry k slot fd prev_b prev_a (some d) =
    let fops = fops_table d.file_type in
    if ltb 2 d.file_type
    then (none, k)
    else take_descriptor slot fd d.inode_num (
        call_open fops (set_file k slot fd (record (file_of k slot fd) { fops = fops })) slot fd
          prev_b prev_a)

open_at : FileSystem → Mem → Dentry → Kernel → ℕ → ℕ → ℕ → Option ℕ → Option ℕ × Kernel
open_at fs filename dentry k slot prev_b prev_a none = (none, k)
open_at fs filename dentry k slot prev_b prev_a (some fd) =
    open_dentry k slot fd prev_b prev_a (read_dentry_by_name fs filename dentry)

-- `dentry` is the uninitialised local.
unfoldable pub syscall_open : FileSystem → Mem → Dentry → Kernel → ℕ → ℕ → ℕ → Option ℕ × Kernel
unfolding open_at open_dentry take_descriptor
syscall_open fs filename dentry k slot prev_b prev_a =
    open_at fs filename dentry k slot prev_b prev_a
      (free_from max_file_descriptors (k.pcbs slot).fa 0)

-- A table has a `close`.
abbrev pub has_close : FileOps → Bool
has_close fops_rtc = true
has_close fops_dir = true
has_close fops_file = true
has_close fops_null = false
has_close fops_stdin = false
has_close fops_stdout = false

unfoldable pub call_close : FileOps → Kernel → ℕ → ℕ → Option ℕ × Kernel
call_close fops_rtc k slot fd = rtc_close k slot
call_close fops_dir k slot fd = (dir_close (file_of k slot fd), k)
call_close fops_file k slot fd = (file_close (file_of k slot fd), k)
call_close fops_null k slot fd = (none, k)
call_close fops_stdin k slot fd = (none, k)
call_close fops_stdout k slot fd = (none, k)

unfoldable pub syscall_close : Kernel → ℕ → ℕ → Option ℕ × Kernel
syscall_close k slot fd =
    let f = file_of k slot fd in
    if leb max_file_descriptors fd
    then (none, k)
    else if in_use f
    then if has_close f.fops
      then call_close f.fops (set_file k slot fd (record f { flags = f.flags / 2 * 2 })) slot fd
      else (none, k)
    else (none, k)
