-- ===== src/Process/Transfer.antt =====
-- `syscall_read`, `syscall_write`, `syscall_getargs` and `syscall_vidmap` of
-- student-distrib/kernel/syscall.c. User memory is the memory that the terminals write to as well;
-- `int32_t` arguments are 32-bit patterns, and the sum in the range test wraps.
pub mod Files
pub mod Range
use psych_os.Base.{
  ℕ, zero, suc, ◌+◌, ◌-◌, ◌/◌, ◌%◌, ◌^◌, Bool, true, false, ◌&&◌, not, Option, none, some, List,
  Mem, store, add32, ◌==◌, leb, ltb, if◌then◌else◌, update,
}
use psych_os.Str.{strlen, strcpy}
use psych_os.Fs.Image.{Dentry, FileSystem}
use psych_os.Fs.Files.{
  FileOps, fops_null, fops_rtc, fops_dir, fops_file, fops_stdin, fops_stdout, File, file_read,
  file_write, dir_read, dir_write,
}
use psych_os.Tty.State.{Tty}
use psych_os.Tty.Calls.{get_process_terminal, terminal_read, terminal_write}
use psych_os.Paging.{get_process_vmem_page}
use psych_os.Process.State.{Pcb, Kernel, max_file_descriptors}
use psych_os.Process.Clock.{rtc_read, rtc_write}
use psych_os.Process.Descriptors.{in_use, file_of, set_file}

-- `PROCESS_VIRT_PAGE_START <= target_addr && target_addr < ... + PROCESS_PAGE_SIZE + nbytes`
abbrev pub in_page : ℕ → ℕ → Bool
in_page target_addr nbytes = leb 0x8000000 target_addr && ltb target_addr (add32 0x8400000 nbytes)

abbrev pub with_mem : Kernel → Mem → Kernel
with_mem k m = record k { tty = record k.tty { mem = m } }

-- The file and the memory that a file operation leaves.
stored : Kernel → ℕ → ℕ → Option ℕ × File × Mem → Option (Option ℕ × Kernel)
stored k slot fd (res, f, m) = some (res, set_file (with_mem k m) slot fd f)

from_terminal : Kernel → Option (ℕ × Tty) → Option (Option ℕ × Kernel)
from_terminal k none = none
from_terminal k (some (n, tty)) = some (some n, record k { tty = tty })

from_clock : Option (Option ℕ × ℕ × Kernel) → Option (Option ℕ × Kernel)
from_clock none = none
from_clock (some (res, ticks, k)) = some (res, k)

-- What a call meets: the file system, the uninitialised local of `dir_read`, what the interrupts
-- do that a wait for a line takes, and how many clock interrupts may come.
pub record Surroundings : Type 0 where
  pub fs : FileSystem
  pub dentry : Dentry
  pub interrupts : List (Tty → Tty)
  pub ticks : ℕ

-- The `read` of a table; none where the call blocks for ever.
unfoldable pub call_read :
    Surroundings → FileOps → Kernel → ℕ → ℕ → ℕ → ℕ → Option (Option ℕ × Kernel)
unfolding stored from_terminal from_clock
call_read w fops_rtc k slot fd buf nbytes = from_clock (rtc_read w.ticks k slot)
call_read w fops_dir k slot fd buf nbytes =
    stored k slot fd (dir_read w.fs w.dentry (file_of k slot fd) k.tty.mem buf nbytes)
call_read w fops_file k slot fd buf nbytes =
    stored k slot fd (file_read w.fs (file_of k slot fd) k.tty.mem buf nbytes)
call_read w fops_stdin k slot fd buf nbytes = from_terminal k (
    terminal_read w.interrupts k.tty (get_process_terminal (k.pcbs slot).terminal_num k.tty) buf
      nbytes)
call_read w fops_stdout k slot fd buf nbytes = some (none, k)
call_read w fops_null k slot fd buf nbytes = some (none, k)

-- A table has a `read`, or a `write`.
abbrev pub has_read : FileOps → Bool
has_read fops_rtc = true
has_read fops_dir = true
has_read fops_file = true
has_read fops_stdin = true
has_read fops_stdout = false
has_read fops_null = false

abbrev pub has_write : FileOps → Bool
has_write fops_rtc = true
has_write fops_dir = true
has_write fops_file = true
has_write fops_stdin = false
has_write fops_stdout = true
has_write fops_null = false

unfoldable pub syscall_read : Surroundings → Kernel → ℕ → ℕ → ℕ → ℕ → Option (Option ℕ × Kernel)
syscall_read w k slot fd buf nbytes =
    let f = file_of k slot fd in
    if not (in_page buf nbytes)
    then some (none, k)
    else if leb max_file_descriptors fd
    then some (none, k)
    else if not (in_use f)
    then some (none, k)
    else if has_read f.fops
    then call_read w f.fops k slot fd buf nbytes
    else some (none, k)

-- `terminal_write` goes to the terminal in the control block.
unfoldable pub call_write : FileOps → Kernel → ℕ → ℕ → ℕ → ℕ → Option ℕ × Kernel
call_write fops_rtc k slot fd buf nbytes = rtc_write k slot k.tty.mem buf
call_write fops_dir k slot fd buf nbytes = (dir_write (file_of k slot fd) buf nbytes, k)
call_write fops_file k slot fd buf nbytes = (file_write (file_of k slot fd) buf nbytes, k)
call_write fops_stdout k slot fd buf nbytes =
    let (n, tty) = terminal_write k.tty (k.pcbs slot).terminal_num buf nbytes in
    (some n, record k { tty = tty })
call_write fops_stdin k slot fd buf nbytes = (none, k)
call_write fops_null k slot fd buf nbytes = (none, k)

unfoldable pub syscall_write : Kernel → ℕ → ℕ → ℕ → ℕ → Option ℕ × Kernel
syscall_write k slot fd buf nbytes =
    let f = file_of k slot fd in
    if not (in_page buf nbytes)
    then (none, k)
    else if leb max_file_descriptors fd
    then (none, k)
    else if not (in_use f)
    then (none, k)
    else if has_write f.fops
    then call_write f.fops k slot fd buf nbytes
    else (none, k)

-- A string copied to an address of user memory.
copied_to : Kernel → ℕ → Option Mem → Option (Option ℕ × Kernel)
copied_to k buf none = none
copied_to k buf (some out) =
    some (some 0, with_mem k (λ x. if leb buf x then out (x - buf) else k.tty.mem x))

args_of_length : ℕ → Kernel → ℕ → ℕ → ℕ → Option ℕ → Option (Option ℕ × Kernel)
args_of_length fuel k slot buf nbytes none = none
args_of_length fuel k slot buf nbytes (some len) =
    if ltb nbytes (add32 len 1)
    then some (none, k)
    else copied_to k buf (strcpy fuel (λ i. k.tty.mem (buf + i)) (k.pcbs slot).args)

-- The first argument is the fuel of the string functions, whose end is the outer `none`.
unfoldable pub syscall_getargs : ℕ → Kernel → ℕ → ℕ → ℕ → Option (Option ℕ × Kernel)
unfolding args_of_length copied_to
syscall_getargs fuel k slot buf nbytes =
    if not (in_page buf nbytes)
    then some (none, k)
    else args_of_length fuel k slot buf nbytes (strlen fuel (k.pcbs slot).args)

-- A `uint32_t` stored at an address.
abbrev store32 : Mem → ℕ → ℕ → Mem
store32 m a v =
    store (store (store (store m a (v % 256)) (a + 1) (v / 256 % 256)) (a + 2) (v / 65536 % 256))
      (a + 3) (v / 16777216 % 256)

unfoldable pub syscall_vidmap : Kernel → ℕ → ℕ → Option ℕ × Kernel
syscall_vidmap k slot screen_start = if not (in_page screen_start 4) then (none, k) else (
  some 0,
  with_mem k (store32 k.tty.mem screen_start (get_process_vmem_page (k.pcbs slot).slot_num)),
)

pub syscall_set_handler : ℕ → ℕ → Option ℕ
syscall_set_handler signum handler_address = none

pub syscall_sigreturn : Option ℕ
syscall_sigreturn = none
