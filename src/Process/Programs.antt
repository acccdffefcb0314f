-- ===== src/Process/Programs.antt =====
-- The start and the end of programs: `load_program_into_slot`, `kernel_run_first_program`,
-- `halt_program` and their helpers of student-distrib/arch/x86/task.c, `syscall_execute` and
-- `syscall_halt` of student-distrib/kernel/syscall.c. The page of a slot lies at its physical address
-- in the memory. What `set_kernel_stack` changes is `esp0`; of the paging structures the kernel's
-- state has the directory in use and where each video page leads. The outer `none` is a string
-- without a NUL within the fuel.
pub mod Halting
pub mod Starting
pub mod First
pub mod Launch
use psych_os.Base.{
  ℕ, zero, suc, ◌+◌, ◌-◌, ◌%◌, Bool, Option, none, some, List, [], ◌∷◌, Mem, add32, ◌==◌, leb,
  if◌then◌else◌, get_or, update,
}
use psych_os.Str.{strncmp}
use psych_os.Fs.Image.{Dentry, FileSystem, read32}
use psych_os.Fs.Driver.{is_zero}
use psych_os.Fs.Files.{read_file_by_name}
use psych_os.Pic.{enable_irq}
use psych_os.Tty.Screen.{get_terminal_output_buffer}
use psych_os.Tty.Calls.{reset_terminal, multiple_terminal_init}
use psych_os.Paging.{get_process_pd}
use psych_os.Process.State.{
  Pcb, Kernel, in_user, in_kernel, max_processes, max_file_descriptors, process_none,
  process_running, process_blocked,
}
use psych_os.Process.Addresses.{get_kernel_stack_base_from_slot, get_process_page_from_slot}
use psych_os.Process.Command.{parse_command}
use psych_os.Process.Scheduler.{process_link_start, pit_init}
use psych_os.Process.Descriptors.{open_stdin_and_stdout, syscall_close}
use psych_os.Process.Transfer.{with_mem}

unfoldable pub get_next_pid : Kernel → ℕ × Kernel
get_next_pid k = (k.next_pid, record k { next_pid = add32 k.next_pid 1 })

unfoldable pub set_kernel_stack : Kernel → ℕ → Kernel
set_kernel_stack k stack = record k { esp0 = stack }

-- `ELF_MAGIC_HEADER`
abbrev elf_magic : Mem
elf_magic i = get_or (0x7f ∷ 0x45 ∷ 0x4c ∷ 0x46 ∷ []) i 0

-- 0 is NULL.
unfoldable pub get_executable_entrypoint : Mem → ℕ → ℕ
get_executable_entrypoint m executable =
    if is_zero (strncmp (λ i. m (executable + i)) elf_magic 4)
    then read32 m (executable + 24)
    else 0

loaded : ℕ → Option ℕ × Mem → ℕ × Mem
loaded start (none, m) = (0, m)
loaded start (some retval, m) =
    if leb retval 4 then (0, m) else (get_executable_entrypoint m start, m)

unfoldable pub load_program_into_slot : FileSystem → Dentry → Mem → Mem → ℕ → ℕ × Mem
unfolding loaded
load_program_into_slot fs dentry m filename pcb_slot =
    let start = get_process_page_from_slot pcb_slot + 0x48000 in
    loaded start (read_file_by_name fs filename dentry m start (0x400000 - 0x48000))

abbrev pub set_pcb : Kernel → ℕ → Pcb → Kernel
set_pcb k slot pcb = record k { pcbs = update k.pcbs slot pcb }

-- The first slot from `i` on that is free, with `n` still to be looked at.
free_slot : ℕ → (ℕ → Pcb) → ℕ → Option ℕ
free_slot zero pcbs i = none
free_slot (suc n) pcbs i =
    let rest = free_slot n pcbs (i + 1) in if (pcbs i).in_use == 0 then some i else rest

-- What `syscall_execute` does once the program is loaded.
unfoldable pub start_child : Kernel → ℕ → ℕ → ℕ → Kernel
start_child k slot i entrypoint =
    let (pid, k1) = get_next_pid k in
    let child = open_stdin_and_stdout (record (k1.pcbs i) {
      entrypoint = entrypoint;
      process_pd_ptr = get_process_pd i;
      parent = some slot;
      child = none;
      in_use = 1;
      pid = pid;
      terminal_num = (k1.pcbs slot).terminal_num;
      status = process_running;
    }) in
    let parent : Pcb = record (k1.pcbs slot) {
      child = some i;
      status = process_blocked;
      regs_esp = k1.esp;
      regs_ebp = k1.ebp;
    } in
    let k2 : Kernel = record k1 {
      pcbs = update (update k1.pcbs i child) slot parent;
      vmem_page =
          update k1.vmem_page i (get_terminal_output_buffer k1.tty (k1.pcbs slot).terminal_num);
      cr3 = get_process_pd i;
    } in
    let k3 = set_kernel_stack k2 (get_kernel_stack_base_from_slot i) in
    record k3 { running = in_user process_link_start entrypoint }

execute_loaded : ℕ → ℕ → Kernel → ℕ × Mem → Option ℕ × Kernel
execute_loaded slot i k (entrypoint, m) =
    if entrypoint == 0
    then (none, with_mem k m)
    else (some 0, start_child (with_mem k m) slot i entrypoint)

execute_parsed :
    FileSystem → Dentry → Kernel → ℕ → ℕ → Option (ℕ × Mem × Mem) → Option (Option ℕ × Kernel)
execute_parsed fs dentry k slot i none = none
execute_parsed fs dentry k slot i (some (len, name, args)) =
    let named =
      set_pcb k i (record (k.pcbs i) { slot_num = i; program_name = name; args = args }) in
    some (execute_loaded slot i named (load_program_into_slot fs dentry k.tty.mem name i))

execute_in : ℕ → FileSystem → Dentry → Kernel → ℕ → Mem → Option ℕ → Option (Option ℕ × Kernel)
execute_in fuel fs dentry k slot command none = some (none, k)
execute_in fuel fs dentry k slot command (some i) =
    execute_parsed fs dentry k slot i
      (parse_command fuel command (k.pcbs i).program_name (k.pcbs i).args)

-- A program that has started has the result 0 here: its parent gets a result when it halts.
unfoldable pub syscall_execute :
    ℕ → FileSystem → Dentry → Kernel → ℕ → Mem → Option (Option ℕ × Kernel)
unfolding free_slot execute_in execute_parsed execute_loaded
syscall_execute fuel fs dentry k slot command =
    execute_in fuel fs dentry k slot command (free_slot max_processes k.pcbs 0)

-- `syscall_close` of the descriptors from `fd` on, with `n` still to come.
close_all : ℕ → Kernel → ℕ → ℕ → Kernel
close_all zero k slot fd = k
close_all (suc n) k slot fd = close_all n ((syscall_close k slot fd).1) slot (fd + 1)

-- A program without a parent is started again.
unfoldable pub restart : Kernel → ℕ → Kernel
restart k slot =
    let k1 : Kernel = record k { tty = reset_terminal k.tty (k.pcbs slot).terminal_num } in
    let (pid, k2) = get_next_pid k1 in
    let pcb = open_stdin_and_stdout (record (k2.pcbs slot) {
      parent = none;
      child = none;
      in_use = 1;
      pid = pid;
      status = process_running;
    }) in
    record (set_kernel_stack (set_pcb k2 slot pcb) (get_kernel_stack_base_from_slot pcb.slot_num)) {
      running = in_user process_link_start pcb.entrypoint;
    }

-- The return into the parent's `syscall_execute`, on its stack.
unfoldable pub resume_parent : Kernel → ℕ → ℕ → Kernel
resume_parent k slot parent =
    let k1 = set_pcb k slot (record (k.pcbs slot) { status = process_none }) in
    let k2 = set_pcb k1 parent (record (k1.pcbs parent) { status = process_running }) in
    let pcb = k2.pcbs parent in
    record (set_kernel_stack (record k2 { cr3 = pcb.process_pd_ptr })
      (get_kernel_stack_base_from_slot pcb.slot_num)) {
        esp = pcb.regs_esp;
        ebp = pcb.regs_ebp;
        running = in_kernel;
      }

halt_to : Kernel → ℕ → ℕ → Option ℕ → Option ℕ × Kernel
halt_to k slot status none = (none, restart k slot)
halt_to k slot status (some parent) = (some status, resume_parent k slot parent)

-- The slot is marked as free, and its descriptors are closed.
unfoldable pub close_files : Kernel → ℕ → Kernel
unfolding close_all
close_files k slot =
    close_all max_file_descriptors (set_pcb k slot (record (k.pcbs slot) { in_use = 0 })) slot 0

-- The result is what the parent's `execute` returns; none where there is no parent.
unfoldable pub halt_program : Kernel → ℕ → ℕ → Option ℕ × Kernel
unfolding halt_to
halt_program k slot status =
    let closed = close_files k slot in halt_to closed slot status (closed.pcbs slot).parent

unfoldable pub syscall_halt : Kernel → ℕ → ℕ → Option ℕ × Kernel
syscall_halt k slot status = halt_program k slot (status % 256)

-- What is done for terminal `i` once its program is loaded.
start_first : ℕ → Kernel → ℕ → Kernel
start_first i k entrypoint =
    let (pid, k1) = get_next_pid k in
    let pcb = open_stdin_and_stdout (record (k1.pcbs i) {
      entrypoint = entrypoint;
      process_pd_ptr = get_process_pd (k1.pcbs i).slot_num;
      parent = none;
      child = none;
      in_use = 1;
      pid = pid;
      status = process_running;
      terminal_num = i;
    }) in
    record (set_pcb k1 i pcb) {
      vmem_page = update k1.vmem_page (k1.pcbs i).slot_num (get_terminal_output_buffer k1.tty i);
    }

-- The first program of terminal `i`; the results are none where the program cannot be loaded.
first_loaded : ℕ → Kernel → ℕ × Mem → Option Kernel
unfolding start_first
first_loaded i k (entrypoint, m) =
    if entrypoint == 0 then none else some (start_first i (with_mem k m) entrypoint)

pub first_parsed : FileSystem → Dentry → ℕ → Kernel → Option (ℕ × Mem × Mem) → Option Kernel
first_parsed fs dentry i k none = none
first_parsed fs dentry i k (some (len, name, args)) =
    let named = set_pcb k i (record (k.pcbs i) { program_name = name; args = args }) in
    first_loaded i named (load_program_into_slot fs dentry k.tty.mem name (k.pcbs i).slot_num)

-- The terminals from `i` on, with `n` still to come.
first_programs : ℕ → ℕ → FileSystem → Dentry → Mem → ℕ → Option Kernel → Option Kernel
first_programs zero fuel fs dentry command i k = k
first_programs (suc n) fuel fs dentry command i none = none
first_programs (suc n) fuel fs dentry command i (some k) =
    first_programs n fuel fs dentry command (i + 1) (
      first_parsed fs dentry i k
        (parse_command fuel command (k.pcbs i).program_name (k.pcbs i).args))

enter_first : Option Kernel → Option Kernel
enter_first none = none
enter_first (some k) =
    let pcb = k.pcbs 0 in
    let stacked =
      set_kernel_stack (record k { cr3 = pcb.process_pd_ptr })
        (get_kernel_stack_base_from_slot pcb.slot_num) in
    some (record stacked {
      pic = enable_irq (pit_init stacked.pic 100) 0;
      running = in_user process_link_start pcb.entrypoint;
    })

-- All slots are free, and the terminals are set up.
cleared : Kernel → Kernel
cleared k = record k {
  pcbs = λ i.
      if leb max_processes i
      then k.pcbs i
      else record (k.pcbs i) { in_use = 0; slot_num = i; status = process_none };
  tty = multiple_terminal_init k.tty;
}

unfoldable pub kernel_run_first_program : ℕ → FileSystem → Dentry → Kernel → Mem → Option Kernel
unfolding cleared first_programs first_parsed first_loaded enter_first
kernel_run_first_program fuel fs dentry k command =
    enter_first (first_programs 3 fuel fs dentry command 0 (some (cleared k)))
