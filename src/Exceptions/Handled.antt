-- ===== src/Exceptions/Handled.antt =====
-- An exception ends a child with a status of its own, and otherwise reports and stops.
use psych_os.Base.{
  ℕ, ◌%◌, ◌^◌, ◌<◌, ◌≡◌, ◌≢◌, ◌⊎◌, inl, inr, refl, sym, ap, ◌∙◌, arith, true, ◌==◌, none, some,
  List, Mem, if_keeps, all_below, all_below_sound, Option-cases,
}
use psych_os.Tty.Screen.{clear_terminal, switch_active_terminal}
use psych_os.Tty.Calls.{put_all}
use psych_os.Printf.Calls.{codes}
use psych_os.Printf.Said.{AllSaid, AreCalls, print_calls_lem}
use psych_os.Printf.Checked.{no_nul, checked-IsCall, AreCalls-append}
use psych_os.Interrupts.{interpret_exception, has_error_code}
use psych_os.Process.State.{Kernel}
use psych_os.Process.Programs.{halt_program, syscall_halt}
use psych_os.Process.Programs.Halting.{Resumed, halt_program_lem, syscall_halt_lem}
use psych_os.Exceptions.{
  Registers, heading, error_code, fault_address, blank_line, registers, exception_report, ended,
  stopped, halted, handled, exception_handler,
}

-- The registers have 32 bits.
pub record AreWords (r : Registers) : Type 0 where
  pub eax_fits : r.eax < 2 ^ 32
  pub ebx_fits : r.ebx < 2 ^ 32
  pub ecx_fits : r.ecx < 2 ^ 32
  pub edx_fits : r.edx < 2 ^ 32
  pub esi_fits : r.esi < 2 ^ 32
  pub edi_fits : r.edi < 2 ^ 32
  pub ebp_fits : r.ebp < 2 ^ 32
  pub esp_fits : r.esp < 2 ^ 32
  pub eip_fits : r.eip < 2 ^ 32
  pub eflags_fits : r.eflags < 2 ^ 32

names_table : all_below 32 (λ n. no_nul (codes (interpret_exception n))) ≡ true
unfolding interpret_exception
names_table = refl

heading-AreCalls : (int_num : ℕ) → int_num < 32 → AreCalls (heading int_num)
heading-AreCalls int_num l = (
  checked-IsCall _ refl refl tt,
  (
    checked-IsCall _ refl refl (
      all_below_sound 32 (λ n. no_nul (codes (interpret_exception n))) int_num names_table l,
      (omega arith, tt),
    ),
    tt,
  ),
)

registers-AreCalls : (r : Registers) → AreWords r → AreCalls (registers r)
registers-AreCalls r w = (
  checked-IsCall _ refl refl tt,
  (
    checked-IsCall _ refl refl (w.eax_fits, (w.ebx_fits, tt)),
    (
      checked-IsCall _ refl refl (w.ecx_fits, (w.edx_fits, tt)),
      (
        checked-IsCall _ refl refl (w.esi_fits, (w.edi_fits, tt)),
        (
          checked-IsCall _ refl refl (w.esp_fits, (w.ebp_fits, tt)),
          (
            checked-IsCall _ refl refl tt,
            (checked-IsCall _ refl refl (w.eip_fits, (w.eflags_fits, tt)), tt),
          ),
        ),
      ),
    ),
  ),
)

report-AreCalls :
    (r : Registers) (int_num error cr2 : ℕ)
    → AreWords r
    → int_num < 32
    → error < 2 ^ 32
    → cr2 < 2 ^ 32
    → AreCalls (exception_report r int_num error cr2)
unfolding exception_report
report-AreCalls r int_num error cr2 w l e a =
    let code : AreCalls (error_code int_num error) =
      if_keeps AreCalls (has_error_code int_num == 0) tt (checked-IsCall _ refl refl (e, tt), tt) in
    let address : AreCalls (fault_address int_num cr2) =
      if_keeps AreCalls (int_num == 0xe) (checked-IsCall _ refl refl (a, tt), tt) tt in
    AreCalls-append (heading int_num) _ (heading-AreCalls int_num l) (
      AreCalls-append (error_code int_num error) _ code (
        AreCalls-append blank_line _ (checked-IsCall _ refl refl tt, tt)
          (AreCalls-append (fault_address int_num cr2) _ address (registers-AreCalls r w))))

not_by_halt :
    (k : Kernel) (slot parent : ℕ)
    → slot ≢ parent
    → (k.pcbs slot).parent ≡ some parent
    → (status : ℕ) → (syscall_halt k slot status).0 ≢ some 256
not_by_halt k slot parent n p status e =
    let low : some (status % 256) ≡ some 256 =
      sym (syscall_halt_lem k slot parent status n p).0 ∙ e in
    ground arith

-- An exception with a number below 32 and registers of 32 bits: the handler does not fail. A
-- process with a parent, another process, ends with status 256, which the parent gets as it runs
-- again, while a call of halt gives the parent some other status. A process without a parent is not ended: the
-- first terminal is cleared and made the active one, all lines of the report are printed on it, the
-- error code where the exception has one and the address that was accessed for a page fault, and
-- the processor halts.
pub exception_handler_lem :
    (conv_buf : Mem) (k : Kernel) (slot : ℕ) (r : Registers) (int_num error cr2 : ℕ)
    → AreWords r
    → int_num < 32
    → error < 2 ^ 32
    → cr2 < 2 ^ 32
    → ((parent : ℕ) → (k.pcbs slot).parent ≡ some parent → slot ≢ parent)
    → ((parent : ℕ) × (k' : Kernel) × ((k.pcbs slot).parent ≡ some parent)
        × (exception_handler conv_buf k slot r int_num error cr2 ≡ some (ended (some 256, k')))
        × Resumed k k' slot parent
        × ((status : ℕ) → (syscall_halt k slot status).0 ≢ some 256))
      ⊎ (((k.pcbs slot).parent ≡ none)
          × ((out : List ℕ) × AllSaid (exception_report r int_num error cr2) out
              × (exception_handler conv_buf k slot r int_num error cr2
                  ≡ some (
                      stopped (record k {
                        tty = put_all out (switch_active_terminal (clear_terminal k.tty 0) 0) 0;
                      })))))
unfolding exception_handler
exception_handler_lem conv_buf k slot r int_num error cr2 w l e a n =
    elim (Option-cases (k.pcbs slot).parent) [
      | inr (parent, p) ↦
          let (status, resumed) = halt_program_lem k slot parent 256 (n parent p) p in
          inl (
            parent,
            (halt_program k slot 256).1,
            p,
            ap (handled conv_buf k slot (exception_report r int_num error cr2)) p
                ∙ ap (λ s. some (ended (s, (halt_program k slot 256).1))) status,
            resumed,
            not_by_halt k slot parent (n parent p) p,
          )
      | inl p ↦
          let (out, said, run) =
            print_calls_lem conv_buf (switch_active_terminal (clear_terminal k.tty 0) 0)
              (exception_report r int_num error cr2)
              (report-AreCalls r int_num error cr2 w l e a) in
          inr (
            p,
            (
              out,
              said,
              ap (handled conv_buf k slot (exception_report r int_num error cr2)) p
                  ∙ ap (halted k) run,
            ),
          )
    ]
