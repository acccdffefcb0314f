-- ===== src/Exceptions.antt =====
-- `exception_handler` of student-distrib/arch/x86/interrupt.c. The process is named by its slot;
-- `cr2` is what the processor has in that register, `conv_buf` what printf finds on the stack.
pub mod Handled
mod Tests
use psych_os.Base.{ℕ, ◌==◌, Option, none, some, List, [], ◌∷◌, ◌++◌, Mem, if◌then◌else◌}
use psych_os.Tty.State.{Tty}
use psych_os.Tty.Screen.{clear_terminal, switch_active_terminal}
use psych_os.Printf.Calls.{codes, Arg, num, text, PrintCall, print_calls}
use psych_os.Interrupts.{interpret_exception, has_error_code}
use psych_os.Process.State.{Kernel}
use psych_os.Process.Programs.{halt_program}

-- The registers that the wrapper pushes; `cs` is not used.
pub record Registers : Type 0 where
  pub eax : ℕ
  pub ebx : ℕ
  pub ecx : ℕ
  pub edx : ℕ
  pub esi : ℕ
  pub edi : ℕ
  pub ebp : ℕ
  pub esp : ℕ
  pub eip : ℕ
  pub eflags : ℕ

abbrev heading : ℕ → List PrintCall
heading int_num =
    (record {
      format =
          "---------------------------AN EXCEPTION HAS OCCURRED----------------------------\n\n";
      args = [];
    })
    ∷ (record {
      format = " An exception has occurred: %s (0x%x)\n";
      args = text (codes (interpret_exception int_num)) ∷ num int_num ∷ [];
    })
    ∷ []

abbrev error_code : ℕ → ℕ → List PrintCall
error_code int_num error =
    if has_error_code int_num == 0
    then []
    else (record { format = " The associated error code is: 0x%#x\n"; args = num error ∷ [] }) ∷ []

abbrev fault_address : ℕ → ℕ → List PrintCall
fault_address int_num cr2 =
    if int_num == 0xe
    then (record {
      format = " An attempt was made to access the following virtual address: 0x%#x\n\n";
      args = num cr2 ∷ [];
    })
      ∷ []
    else []

abbrev blank_line : List PrintCall
blank_line = (record { format = "\n"; args = [] }) ∷ []

abbrev registers : Registers → List PrintCall
registers r =
    (record { format = " REGISTERS:\n"; args = [] })
    ∷ (record { format = " eax: 0x%#x    ebx:    0x%#x\n"; args = num r.eax ∷ num r.ebx ∷ [] })
    ∷ (record { format = " ecx: 0x%#x    edx:    0x%#x\n"; args = num r.ecx ∷ num r.edx ∷ [] })
    ∷ (record { format = " esi: 0x%#x    edi:    0x%#x\n"; args = num r.esi ∷ num r.edi ∷ [] })
    ∷ (record { format = " esp: 0x%#x    ebp:    0x%#x\n"; args = num r.esp ∷ num r.ebp ∷ [] })
    ∷ (record { format = "\n"; args = [] })
    ∷ (record { format = " eip: 0x%#x    eflags: 0x%#x\n"; args = num r.eip ∷ num r.eflags ∷ [] })
    ∷ []

-- The calls of printf, in their order.
unfoldable pub exception_report : Registers → ℕ → ℕ → ℕ → List PrintCall
exception_report r int_num error cr2 =
    heading int_num
    ++ (error_code int_num error ++ (blank_line ++ (fault_address int_num cr2 ++ registers r)))

-- The program has ended with a status for its parent, or the processor halts for ever.
pub data Outcome : Type 0 where
  ended : Option ℕ × Kernel → Outcome
  stopped : Kernel → Outcome

halted : Kernel → Option Tty → Option Outcome
halted k none = none
halted k (some tty) = some (stopped (record k { tty = tty }))

handled : Mem → Kernel → ℕ → List PrintCall → Option ℕ → Option Outcome
unfolding halted
handled conv_buf k slot report (some parent) = some (ended (halt_program k slot 256))
handled conv_buf k slot report none =
    halted k
      (print_calls conv_buf (some (switch_active_terminal (clear_terminal k.tty 0) 0)) report)

unfoldable pub exception_handler : Mem → Kernel → ℕ → Registers → ℕ → ℕ → ℕ → Option Outcome
unfolding handled
exception_handler conv_buf k slot r int_num error cr2 =
    handled conv_buf k slot (exception_report r int_num error cr2) (k.pcbs slot).parent
