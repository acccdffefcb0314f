-- ===== src/Process/Programs/Launch.antt =====
-- The start of the first programs, as a whole.
use psych_os.Base.{ℕ, ◌≤◌, ◌<◌, ◌≡◌, ◌⊎◌, ap, Option, none, some, Mem, add32}
use psych_os.Fs.Image.{Dentry, FileSystem}
use psych_os.Pic.{enable_irq}
use psych_os.Tty.Screen.{get_terminal_output_buffer}
use psych_os.Tty.Calls.{multiple_terminal_init}
use psych_os.Paging.{get_process_pd}
use psych_os.Process.State.{Kernel, in_user}
use psych_os.Process.Addresses.{get_kernel_stack_base_from_slot}
use psych_os.Process.Command.{parse_command}
use psych_os.Process.Scheduler.{process_link_start, pit_init}
use psych_os.Process.Programs.First.{IsFirst, with_memory}
use psych_os.Process.Programs.{
  set_kernel_stack, load_program_into_slot, first_parsed, first_programs, cleared, enter_first,
  kernel_run_first_program,
}

-- The command is no string within the fuel, or its program has no entry point.
abbrev pub CannotLoad : ℕ → FileSystem → Dentry → Mem → ℕ → Kernel → Type 0
CannotLoad fuel fs dentry command i k =
    let parsed = parse_command fuel command (k.pcbs i).program_name (k.pcbs i).args in
    (parsed ≡ none)
    ⊎ ((len : ℕ) × (name : Mem) × (args : Mem) × (parsed ≡ some (len, name, args))
        × ((load_program_into_slot fs dentry k.tty.mem name i).0 ≡ 0))

-- The programs of the terminals below `n` have been started.
record AreStarted (n : ℕ) (k0 k : Kernel) : Type 0 where
  firsts : (i : ℕ) → i < n → IsFirst i (add32 k0.next_pid i) (k.pcbs i)
  others : (i : ℕ) → n ≤ i → k.pcbs i ≡ k0.pcbs i
  next : k.next_pid ≡ add32 k0.next_pid n
  pages : (i : ℕ) → i < n → k.vmem_page i ≡ get_terminal_output_buffer k0.tty i
  terminals : (m : Mem) × (k.tty ≡ with_memory k0.tty m)
  chips : k.pic ≡ k0.pic

-- What the kernel is when it enters the first program.
pub record IsRunning (k k' : Kernel) : Type 0 where
  pub firsts : (i : ℕ) → i < 3 → IsFirst i (add32 k.next_pid i) (k'.pcbs i)
  pub free : (i : ℕ) → 3 ≤ i → i < 6 → ((k'.pcbs i).in_use ≡ 0) × ((k'.pcbs i).slot_num ≡ i)
  pub pages :
      (i : ℕ) → i < 3 → k'.vmem_page i ≡ get_terminal_output_buffer (multiple_terminal_init k.tty) i
  pub directory : k'.cr3 ≡ get_process_pd 0
  pub stack : k'.esp0 ≡ get_kernel_stack_base_from_slot 0
  pub mode : k'.running ≡ in_user process_link_start (k'.pcbs 0).entrypoint
  pub terminals : (m : Mem) × (k'.tty ≡ with_memory (multiple_terminal_init k.tty) m)
  pub timer : k'.pic ≡ enable_irq (pit_init k.pic 100) 0

abbrev entered : Kernel → Kernel
entered k =
    let pcb = k.pcbs 0 in
    record k {
      cr3 = pcb.process_pd_ptr;
      esp0 = get_kernel_stack_base_from_slot pcb.slot_num;
      pic = enable_irq (pit_init k.pic 100) 0;
      running = in_user process_link_start pcb.entrypoint;
    }

module _ (fuel : ℕ) (fs : FileSystem) (dentry : Dentry) (command : Mem) where
  abbrev start_at : ℕ → Kernel → Option Kernel
  start_at i k =
      first_parsed fs dentry i k
        (parse_command fuel command (k.pcbs i).program_name (k.pcbs i).args)

  -- Either some program below `n` cannot be loaded, or all of them are started.
  abbrev Loading : ℕ → Kernel → Option Kernel → Type 0
  Loading n k0 result =
      ((result ≡ none) × ((j : ℕ) × (k : Kernel) × (j < n) × CannotLoad fuel fs dentry command j k))
      ⊎ ((k : Kernel) × (result ≡ some k) × AreStarted n k0 k)

  ran :
      (k k' : Kernel)
      → first_programs 3 fuel fs dentry command 0 (some (cleared k)) ≡ some k'
      → kernel_run_first_program fuel fs dentry k command ≡ some (entered k')
  unfolding kernel_run_first_program enter_first set_kernel_stack
  ran k k' e = ap enter_first e
