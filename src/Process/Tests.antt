-- ===== src/Process/Tests.antt =====
-- Six processes of which those in the slots 0, 1 and 5 run, and the command line "ls -a".
mod Calls
use psych_os.Base.{
  Option, ◌-◌, ℕ, ◌+◌, ◌*◌, ◌≡◌, ◌≢◌, ◌≤◌, ◌<◌, ◌⊎◌, refl, arith, Mem, [], ◌∷◌, none, some, get_or,
  ◌==◌, ◌||◌, if◌then◌else◌, true, false, zero, suc,
}
use psych_os.CircularBuffer.{circular_buffer_init}
use psych_os.Pic.{initial}
use psych_os.Fs.Image.{Dentry, FileSystem}
use psych_os.Fs.Driver.{read_dentry_by_name}
use psych_os.Fs.Files.{fops_null}
use psych_os.Str.Text.{EndsFrom}
use psych_os.Tty.State.{Tty, screen, backing}
use psych_os.Tty.Screen.{get_terminal_output_buffer}
use psych_os.Process.State.{Pcb, Kernel, in_kernel}
use psych_os.Process.Sample.{blank, process, tty, kernel}
use psych_os.Process.Addresses.{
  OnStack, get_pcb_from_esp, get_pcb_from_slot, get_current_pcb, get_current_kernel_stack_base,
  get_kernel_stack_base_from_slot, get_process_page_from_slot, current_of_stack, slots_apart,
}
use psych_os.Process.Scheduler.{
  next_slot, pit_handler, first_runnable, candidates, next_slot_lem, pit_handler_lem,
}
use psych_os.Process.Clock.{rtc_write, rtc_read}
use psych_os.Process.Clock.Rates.{is_rate, rtc_write_lem}
use psych_os.Process.Clock.Waiting.{Waits, rtc_read_lem}
use psych_os.Process.Descriptors.{in_use, has_close, file_of, syscall_open, syscall_close}
use psych_os.Process.Descriptors.Opening.{IsLowest, Opened, syscall_open_lem}
use psych_os.Process.Descriptors.Closing.{Closed, syscall_close_lem}
use psych_os.Fs.Files.{File, fops_file}
use psych_os.Fs.Sequence.{IsReadable, delivered}
use psych_os.Process.Transfer.{Surroundings, in_page, syscall_read}
use psych_os.Process.Transfer.Files.{read_open_file}
use psych_os.Process.Programs.{syscall_halt, syscall_execute}
use psych_os.Process.Programs.Starting.{Outcome}
use psych_os.Process.Programs.Halting.{Resumed, syscall_halt_lem}
use psych_os.Process.Command.{parse_command}
use psych_os.Process.Command.Parsed.{Parsed, parse_command_lem}

next_slot_example : next_slot process 2 ≡ first_runnable process (candidates 2)
next_slot_example = next_slot_lem process 2 (omega arith)

pit_handler_example :
    let k' = pit_handler kernel 0 in
    (k'.pic.ports ≡ (0x20, 0x60) ∷ [])
    × (((i : ℕ) × (next_slot process 0 ≡ some i)
          × (k'.cr3 ≡ (process i).process_pd_ptr)
          × (k'.esp0 ≡ get_kernel_stack_base_from_slot (process i).slot_num)
          × (k'.vmem_page (process i).slot_num
              ≡ get_terminal_output_buffer tty (process i).terminal_num))
        ⊎ ((next_slot process 0 ≡ none) × (k' ≡ record kernel { pic = k'.pic; system_ticks = 1 })))
pit_handler_example = pit_handler_lem kernel 0

-- The four bytes of 32 at address 100.
abbrev rate_memory : Mem
rate_memory a = if a == 100 then 32 else 0

rtc_write_example :
    let r = rtc_write kernel 1 rate_memory 100 in
    ((is_rate 32 ≡ true) × (r.0 ≡ some 0) × ((r.1.pcbs 1).rtc_interval * 32 ≡ 1024))
    ⊎ ((is_rate 32 ≡ false) × (r.0 ≡ none) × (r.1 ≡ kernel))
rtc_write_example = rtc_write_lem kernel 1 rate_memory 100

waiting : Waits kernel 1 3
waiting = record {
  used = λ e. absurd (omega arith);
  enabled = λ e. absurd (omega arith);
  left = refl;
  bounded = omega arith;
}

rtc_read_example :
    (k' : Kernel) × (rtc_read 10 kernel 1 ≡ some (some 0, 7, k'))
    × ((k'.pcbs 1).remaining_rtc_ticks ≡ 512)
rtc_read_example = rtc_read_lem kernel 1 3 10 (omega arith) waiting (omega arith)

abbrev command : Mem
command i = get_or (b'l' ∷ b's' ∷ 32 ∷ b'-' ∷ b'a' ∷ []) i 0

command_letter : (j : ℕ) → 0 ≤ j → j < 5 → command j ≢ 0
command_letter zero l k = omega arith
command_letter (suc zero) l k = omega arith
command_letter (suc (suc zero)) l k = omega arith
command_letter (suc (suc (suc zero))) l k = omega arith
command_letter (suc (suc (suc (suc zero)))) l k = omega arith
command_letter (suc (suc (suc (suc (suc j))))) l k = absurd (omega arith)

command-EndsFrom : EndsFrom command 0 5
command-EndsFrom = record { reached = omega arith; ends = refl; before = command_letter }

parse_command_example :
    (len : ℕ) × (name : Mem) × (args : Mem) × (parse_command 10 command blank blank
      ≡ some (len, name, args))
    × Parsed (b'l' ∷ b's' ∷ 32 ∷ b'-' ∷ b'a' ∷ []) len name args
parse_command_example = parse_command_lem 10 command blank blank 5 command-EndsFrom (omega arith)
