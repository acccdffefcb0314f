-- ===== src/Exceptions/Tests.antt =====
-- A page fault of a process without a parent.
use psych_os.Base.{ℕ, ◌≡◌, ◌≢◌, ◌⊎◌, arith, none, some, List}
use psych_os.Tty.Screen.{clear_terminal, switch_active_terminal}
use psych_os.Tty.Calls.{put_all}
use psych_os.Printf.Said.{AllSaid}
use psych_os.Process.State.{Kernel}
use psych_os.Process.Sample.{blank, kernel}
use psych_os.Process.Programs.{syscall_halt}
use psych_os.Process.Programs.Halting.{Resumed}
use psych_os.Exceptions.{Registers, exception_report, ended, stopped, exception_handler}
use psych_os.Exceptions.Handled.{exception_handler_lem}

abbrev zeros : Registers
zeros = record {
  eax = 0;
  ebx = 0;
  ecx = 0;
  edx = 0;
  esi = 0;
  edi = 0;
  ebp = 0;
  esp = 0;
  eip = 0x8048000;
  eflags = 0;
}

exception_handler_lem_example :
    ((parent : ℕ) × (k' : Kernel) × ((kernel.pcbs 1).parent ≡ some parent)
      × (exception_handler blank kernel 1 zeros 14 4 0x1000 ≡ some (ended (some 256, k')))
      × Resumed kernel k' 1 parent
      × ((status : ℕ) → (syscall_halt kernel 1 status).0 ≢ some 256))
    ⊎ (((kernel.pcbs 1).parent ≡ none)
        × ((out : List ℕ) × AllSaid (exception_report zeros 14 4 0x1000) out
            × (exception_handler blank kernel 1 zeros 14 4 0x1000
                ≡ some (
                    stopped (record kernel {
                      tty = put_all out (switch_active_terminal (clear_terminal kernel.tty 0) 0) 0;
                    })))))
exception_handler_lem_example =
    exception_handler_lem blank kernel 1 zeros 14 4 0x1000
      (record {
        eax_fits = omega arith;
        ebx_fits = omega arith;
        ecx_fits = omega arith;
        edx_fits = omega arith;
        esi_fits = omega arith;
        edi_fits = omega arith;
        ebp_fits = omega arith;
        esp_fits = omega arith;
        eip_fits = omega arith;
        eflags_fits = omega arith;
      })
      (omega arith) (omega arith) (omega arith) (λ parent p. cc)
