-- ===== src/Process/State.antt =====
-- The process control block of student-distrib/include/arch/x86/task.h. A pointer to another
-- block is that block's slot, NULL is `none`; `regs` is written as its two fields, and `iret`,
-- which nothing uses, is left out.
use psych_os.Base.{ℕ, Option, Mem}
use psych_os.Fs.Files.{File}
use psych_os.Pic.{Pic}
use psych_os.Tty.State.{Tty, Video}

abbrev pub max_processes : ℕ
max_processes = 6

abbrev pub max_file_descriptors : ℕ
max_file_descriptors = 8

abbrev pub process_none : ℕ
process_none = 0

abbrev pub process_running : ℕ
process_running = 1

abbrev pub process_blocked : ℕ
process_blocked = 2

pub record Pcb : Type 0 where
  pub parent : Option ℕ
  pub child : Option ℕ
  pub process_pd_ptr : ℕ
  pub regs_esp : ℕ
  pub regs_ebp : ℕ
  pub fa : ℕ → File
  pub program_name : Mem
  pub args : Mem
  pub entrypoint : ℕ
  pub slot_num : ℕ
  pub pid : ℕ
  pub in_use : ℕ
  pub terminal_num : ℕ
  pub rtc_enabled : ℕ
  pub rtc_interval : ℕ
  pub remaining_rtc_ticks : ℕ
  pub status : ℕ

-- What the processor does next: it goes on in the kernel, or enters user mode with a stack pointer
-- and an address.
pub data Running : Type 0 where
  in_kernel : Running
  in_user : (esp eip : ℕ) → Running

-- The parts of the machine and of the kernel that process code changes. `vmem_page` is where the
-- first entry of a slot's page table leads, `cr3` the page directory in use, `esp0` the stack of
-- the task state segment.
pub record Kernel : Type 0 where
  pub pcbs : ℕ → Pcb
  pub tty : Tty
  pub pic : Pic
  pub vmem_page : ℕ → Video
  pub cr3 : ℕ
  pub esp0 : ℕ
  pub esp : ℕ
  pub ebp : ℕ
  pub running : Running
  pub system_ticks : ℕ
  pub next_pid : ℕ
  pub rtc_test_enabled : ℕ
