-- ===== src/Process/Programs/Starting.antt =====
-- `syscall_execute` starts a program in a free slot, or changes no process that is in use.
use psych_os.Base.{ℕ, ◌≡◌, ◌≢◌, ◌⊎◌, Option, none, some, Mem}
use psych_os.Process.State.{Kernel, in_user, process_running, process_blocked}
use psych_os.Process.Addresses.{get_kernel_stack_base_from_slot}
use psych_os.Process.Scheduler.{process_link_start}
use psych_os.Process.Transfer.{with_mem}
use psych_os.Paging.{get_process_pd}
use psych_os.Process.Programs.{set_pcb}

-- The program of slot `i` runs as a child of that of `slot`.
pub record Started (k k' : Kernel) (slot i : ℕ) : Type 0 where
  pub free : (k.pcbs i).in_use ≡ 0
  pub used : (k'.pcbs i).in_use ≡ 1
  pub runs : (k'.pcbs i).status ≡ process_running
  pub parent : (k'.pcbs i).parent ≡ some slot
  pub terminal : (k'.pcbs i).terminal_num ≡ (k.pcbs slot).terminal_num
  pub waits : (k'.pcbs slot).status ≡ process_blocked
  pub saved : (k'.pcbs slot).regs_esp ≡ k.esp
  pub directory : k'.cr3 ≡ get_process_pd i
  pub stack : k'.esp0 ≡ get_kernel_stack_base_from_slot i
  pub entered : k'.running ≡ in_user process_link_start (k'.pcbs i).entrypoint
  pub others : (j : ℕ) → i ≢ j → slot ≢ j → k'.pcbs j ≡ k.pcbs j

-- No process runs that did not, and none that is in use has changed.
pub record Refused (k k' : Kernel) : Type 0 where
  pub uses : (j : ℕ) → (k'.pcbs j).in_use ≡ (k.pcbs j).in_use
  pub kept : (j : ℕ) → (k.pcbs j).in_use ≢ 0 → k'.pcbs j ≡ k.pcbs j
  pub goes_on : k'.running ≡ k.running
  pub directory : k'.cr3 ≡ k.cr3

module _ (k : Kernel) (slot i : ℕ) (name args m : Mem) (n : slot ≢ i)
    (u : (k.pcbs i).in_use ≡ 0) where
  -- The kernel with the command in the free slot's block, and the program in the memory.
  abbrev named : Kernel
  named =
      with_mem (set_pcb k i (record (k.pcbs i) { slot_num = i; program_name = name; args = args }))
        m

-- The outcome of a call of `syscall_execute`.
abbrev pub Outcome : Kernel → ℕ → Option ℕ × Kernel → Type 0
Outcome k slot r =
    ((r.0 ≡ some 0) × ((i : ℕ) × Started k r.1 slot i)) ⊎ ((r.0 ≡ none) × Refused k r.1)
