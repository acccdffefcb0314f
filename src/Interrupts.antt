-- ===== src/Interrupts.antt =====
-- student-distrib/arch/x86/interrupt.c, with the gate of include/arch/x86/x86_desc.h and the part of
-- student-distrib/kernel.c that fills the descriptor table. Handlers are addresses, which the
-- assembly files provide.
pub mod Gates
mod Tests
use Prim.Native.String.{String}
use psych_os.Base.{
  ℕ, zero, suc, ◌+◌, ◌-◌, ◌*◌, ◌/◌, ◌%◌, ◌^◌, Bool, Option, none, some, List, [], ◌∷◌, ◌==◌, ◌&&◌,
  leb, if◌then◌else◌, get_or, update,
}

-- `idt_desc_t`: a field of a few bits holds what is assigned to it modulo its size.
pub record IdtDesc : Type 0 where
  pub offset_15_00 : ℕ
  pub seg_selector : ℕ
  pub reserved4 : ℕ
  pub reserved3 : ℕ
  pub reserved2 : ℕ
  pub reserved1 : ℕ
  pub size : ℕ
  pub reserved0 : ℕ
  pub dpl : ℕ
  pub present : ℕ
  pub offset_31_16 : ℕ

-- The two words of the union, with the fields from the lowest bit up.
abbrev pub low_word : IdtDesc → ℕ
low_word d = d.offset_15_00 + 2 ^ 16 * d.seg_selector

abbrev pub high_word : IdtDesc → ℕ
high_word d =
    d.reserved4
    + 2 ^ 8 * d.reserved3
    + 2 ^ 9 * d.reserved2
    + 2 ^ 10 * d.reserved1
    + 2 ^ 11 * d.size
    + 2 ^ 12 * d.reserved0
    + 2 ^ 13 * d.dpl
    + 2 ^ 15 * d.present
    + 2 ^ 16 * d.offset_31_16

-- `SET_IDT_ENTRY`, and the constants that are stored behind it.
abbrev interrupt_gate : ℕ → ℕ → ℕ → IdtDesc
interrupt_gate handler selector privilege = record {
  offset_15_00 = handler % 2 ^ 16;
  seg_selector = selector % 2 ^ 8;
  reserved4 = 0;
  reserved3 = 0;
  reserved2 = 1;
  reserved1 = 1;
  size = 1;
  reserved0 = 0;
  dpl = privilege % 2 ^ 8 % 4;
  present = 1;
  offset_31_16 = handler / 2 ^ 16 % 2 ^ 16;
}

unfoldable pub install_interrupt_handler : (ℕ → IdtDesc) → ℕ → ℕ → ℕ → ℕ → ℕ → IdtDesc
install_interrupt_handler idt interrupt_num handler selector privilege =
    update idt (interrupt_num % 2 ^ 8) (interrupt_gate handler selector privilege)

abbrev pub kernel_cs : ℕ
kernel_cs = 0x10

abbrev pub num_vec : ℕ
num_vec = 256

abbrev pub num_reserved_vec : ℕ
num_reserved_vec = 32

-- The addresses of the assembly wrappers.
pub record Handlers : Type 0 where
  pub null_handler : ℕ
  pub exceptions : ℕ → ℕ
  pub syscall_wrapper : ℕ
  pub keyboard_wrapper : ℕ
  pub rtc_wrapper : ℕ
  pub pit_wrapper : ℕ

-- The vectors from `i` on, with `n` still to come.
pub install_each : ℕ → (ℕ → ℕ) → (ℕ → IdtDesc) → ℕ → ℕ → IdtDesc
install_each zero handlers idt i = idt
install_each (suc n) handlers idt i =
    install_each n handlers (install_interrupt_handler idt i (handlers i) kernel_cs 0) (i + 1)

-- `IRQ_INT_NUM(num)`
abbrev irq_int_num : ℕ → ℕ
irq_int_num num = 0x20 + num

unfoldable pub setup_idt : Handlers → (ℕ → IdtDesc) → ℕ → IdtDesc
setup_idt h idt =
    let others =
      install_each (num_vec - num_reserved_vec) (λ i. h.null_handler) idt num_reserved_vec in
    let reserved = install_each num_reserved_vec h.exceptions others 0 in
    let calls = install_interrupt_handler reserved 0x80 h.syscall_wrapper kernel_cs 3 in
    let keys = install_interrupt_handler calls (irq_int_num 1) h.keyboard_wrapper kernel_cs 0 in
    let clock = install_interrupt_handler keys (irq_int_num 8) h.rtc_wrapper kernel_cs 0 in
    install_interrupt_handler clock (irq_int_num 0) h.pit_wrapper kernel_cs 0

abbrev human_readable_errors : List String
human_readable_errors =
    "Divide-by-zero" ∷ "Debug" ∷ "Non-maskable interrupt" ∷ "Breakpoint" ∷ "Overflow"
    ∷ "Bound range exceeded" ∷ "Invalid opcode" ∷ "Device not available" ∷ "Double fault"
    ∷ "Coprocessor segment overrun" ∷ "Invalid TSS" ∷ "Segment not present" ∷ "Stack-segment fault"
    ∷ "General protection fault" ∷ "Page fault" ∷ "Reserved" ∷ "x87 Floating point exception"
    ∷ "Alignment check" ∷ "Machine check" ∷ "SIMD Floating point exception"
    ∷ "Virtualization exception" ∷ "Reserved" ∷ "Reserved" ∷ "Reserved" ∷ "Reserved" ∷ "Reserved"
    ∷ "Reserved" ∷ "Reserved" ∷ "Reserved" ∷ "Reserved" ∷ "Reserved" ∷ "Security Exception"
    ∷ "Triple fault" ∷ []

abbrev pub has_error_code : ℕ → ℕ
has_error_code int_num =
    get_or
      (0 ∷ 0 ∷ 0 ∷ 0 ∷ 0 ∷ 0 ∷ 0 ∷ 0 ∷ 1 ∷ 0 ∷ 1 ∷ 1 ∷ 1 ∷ 1 ∷ 1 ∷ 0 ∷ 0 ∷ 1 ∷ 0 ∷ 0 ∷ 0 ∷ 0 ∷ 0 ∷ 0
        ∷ 0 ∷ 0 ∷ 0 ∷ 0 ∷ 0 ∷ 0 ∷ 1 ∷ 0 ∷ [])
      int_num 0

unfoldable pub interpret_exception : ℕ → String
interpret_exception int_num =
    if leb num_reserved_vec int_num
    then "Unknown"
    else get_or human_readable_errors int_num "Unknown"
