-- ===== src/Interrupts/Tests.antt =====
-- Wrappers at the addresses 1000 and following, in a table of zeros.
use psych_os.Base.{◌≡◌, refl, arith, ◌==◌, if◌then◌else◌}
use psych_os.Interrupts.{IdtDesc, Handlers, setup_idt, interpret_exception, has_error_code}
use psych_os.Interrupts.Gates.{gate_of, handler_of, kernel_gate, setup_idt_lem}

abbrev blank : IdtDesc
blank = record {
  offset_15_00 = 0;
  seg_selector = 0;
  reserved4 = 0;
  reserved3 = 0;
  reserved2 = 0;
  reserved1 = 0;
  size = 0;
  reserved0 = 0;
  dpl = 0;
  present = 0;
  offset_31_16 = 0;
}

abbrev handlers : Handlers
handlers = record {
  null_handler = 1000;
  exceptions = λ i. if i == 13 then 1013 else 1014;
  syscall_wrapper = 1128;
  keyboard_wrapper = 1033;
  rtc_wrapper = 1040;
  pit_wrapper = 1032;
}

setup_idt_lem_example :
    gate_of (setup_idt handlers (λ v. blank) 0x80)
    ≡ kernel_gate (handler_of handlers 0x80) (if 0x80 == 0x80 then 3 else 0)
setup_idt_lem_example =
    setup_idt_lem handlers (λ v. blank) 0x80
      (record {
        null_fits = omega arith;
        exceptions_fit = λ i. ground arith;
        syscall_fits = omega arith;
        keyboard_fits = omega arith;
        rtc_fits = omega arith;
        pit_fits = omega arith;
      })
      (omega arith)

-- The vector with the error code is not the one that is named for it.
security_names :
    (interpret_exception 30 ≡ "Reserved")
    × (has_error_code 30 ≡ 1)
    × (interpret_exception 31 ≡ "Security Exception")
    × (has_error_code 31 ≡ 0)
unfolding interpret_exception
security_names = (refl, refl, refl, refl)
