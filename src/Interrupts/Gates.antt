-- ===== src/Interrupts/Gates.antt =====
-- What the processor makes of the descriptor table.
use psych_os.Base.{
  ℕ, zero, suc, ◌+◌, ◌*◌, ◌/◌, ◌%◌, ◌^◌, ◌≤◌, ◌<◌, ◌≡◌, ap, sym, ◌∙◌, arith, true, false, Option,
  none, some, ◌==◌, ◌&&◌, ltb, leb, if◌then◌else◌, eq-or-ne, inl, inr,
}
use psych_os.Interrupts.{
  IdtDesc, low_word, high_word, install_interrupt_handler, install_each, Handlers, setup_idt,
  kernel_cs,
}

-- A present 32-bit interrupt gate: where it leads, the code segment, and the least privileged ring
-- that may call it.
pub record Gate : Type 0 where
  pub offset : ℕ
  pub selector : ℕ
  pub privilege : ℕ

-- Bit 15 of the high word is `present`, the bits 8 to 12 are the type, which is 01110.
pub gate_of : IdtDesc → Option Gate
gate_of d =
    let low = low_word d in
    let high = high_word d in
    if (high / 2 ^ 15 % 2 == 1) && (high / 2 ^ 8 % 32 == 14)
    then some (record {
      offset = high / 2 ^ 16 * 2 ^ 16 + low % 2 ^ 16;
      selector = low / 2 ^ 16;
      privilege = high / 2 ^ 13 % 4;
    })
    else none

gate_of_installed :
    (idt : ℕ → IdtDesc) (num handler selector privilege : ℕ)
    → num < 256
    → handler < 2 ^ 32
    → selector < 256
    → privilege < 4
    → gate_of (install_interrupt_handler idt num handler selector privilege num)
      ≡ some (record { offset = handler; selector = selector; privilege = privilege })
unfolding install_interrupt_handler gate_of
gate_of_installed idt num handler selector privilege n h s p = ground arith

-- Installing a handler makes its vector a present interrupt gate to exactly that address, through
-- that segment and open to that ring, and leaves the gates of all other vectors; for a vector and a
-- selector of 8 bits, an address of 32 bits, and a ring from 0 to 3.
pub install_interrupt_handler_lem :
    (idt : ℕ → IdtDesc) (num handler selector privilege v : ℕ)
    → num < 256
    → handler < 2 ^ 32
    → selector < 256
    → privilege < 4
    → gate_of (install_interrupt_handler idt num handler selector privilege v) ≡ (
        if num == v
        then some (record { offset = handler; selector = selector; privilege = privilege })
        else gate_of (idt v))
install_interrupt_handler_lem idt num handler selector privilege v n h s p = elim (eq-or-ne num v) [
  | inl same ↦
      let t : (num == v) ≡ true = ground arith in
      rw t (
        ap (λ u. gate_of (install_interrupt_handler idt num handler selector privilege u))
          (sym same)
        ∙ gate_of_installed idt num handler selector privilege n h s p)
  | inr other ↦
      let t : (num == v) ≡ false = ground arith in
      let u : (num % 2 ^ 8 == v) ≡ false = ground arith in
      unfold install_interrupt_handler in rw (t, u)
]

-- A gate of the kernel to an address.
abbrev pub kernel_gate : ℕ → ℕ → Option Gate
kernel_gate handler privilege =
    some (record { offset = handler; selector = kernel_cs; privilege = privilege })

install_each_lem :
    (n : ℕ) (handlers : ℕ → ℕ) (idt : ℕ → IdtDesc) (i v : ℕ)
    → ((j : ℕ) → handlers j < 2 ^ 32)
    → i + n ≤ 256
    → gate_of (install_each n handlers idt i v)
      ≡ (if leb i v && ltb v (i + n) then kernel_gate (handlers v) 0 else gate_of (idt v))
unfolding install_each
install_each_lem zero handlers idt i v w l =
    let t : (leb i v && ltb v (i + 0)) ≡ false = ground arith in rw t
install_each_lem (suc n) handlers idt i v w l =
    let rest = install_interrupt_handler idt i (handlers i) kernel_cs 0 in
    let first : gate_of (rest v)
        ≡ (if i == v then kernel_gate (handlers i) 0 else gate_of (idt v)) =
      install_interrupt_handler_lem idt i (handlers i) kernel_cs 0 v (omega arith) (w i)
        (omega arith) (omega arith) in
    install_each_lem n handlers rest (i + 1) v w (omega arith) ∙ ground (arith, first)

-- The wrapper that a vector leads to.
abbrev pub handler_of : Handlers → ℕ → ℕ
handler_of h v =
    if v == 0x80
    then h.syscall_wrapper
    else if v == 0x21
    then h.keyboard_wrapper
    else if v == 0x28
    then h.rtc_wrapper
    else if v == 0x20
    then h.pit_wrapper
    else if ltb v 32
    then h.exceptions v
    else h.null_handler

-- The addresses have 32 bits.
pub record AreAddresses (h : Handlers) : Type 0 where
  pub null_fits : h.null_handler < 2 ^ 32
  pub exceptions_fit : (i : ℕ) → h.exceptions i < 2 ^ 32
  pub syscall_fits : h.syscall_wrapper < 2 ^ 32
  pub keyboard_fits : h.keyboard_wrapper < 2 ^ 32
  pub rtc_fits : h.rtc_wrapper < 2 ^ 32
  pub pit_fits : h.pit_wrapper < 2 ^ 32

-- After the kernel has filled the descriptor table, whatever it held, each of the 256 vectors is a
-- present interrupt gate through the kernel's code segment: 0x80 leads to the system calls, 0x21,
-- 0x28 and 0x20 to the keyboard, the clock and the timer, the vectors below 32 to their exceptions,
-- and all others to the null handler; of all of them user programs may call 0x80 only.
pub setup_idt_lem :
    (h : Handlers) (idt : ℕ → IdtDesc) (v : ℕ)
    → AreAddresses h
    → v < 256
    → gate_of (setup_idt h idt v) ≡ kernel_gate (handler_of h v) (if v == 0x80 then 3 else 0)
unfolding setup_idt
setup_idt_lem h idt v a l =
    let others = install_each 224 (λ i. h.null_handler) idt 32 in
    let reserved = install_each 32 h.exceptions others 0 in
    let calls = install_interrupt_handler reserved 0x80 h.syscall_wrapper kernel_cs 3 in
    let keys = install_interrupt_handler calls 0x21 h.keyboard_wrapper kernel_cs 0 in
    let clock = install_interrupt_handler keys 0x28 h.rtc_wrapper kernel_cs 0 in
    let e0 =
      install_interrupt_handler_lem clock 0x20 h.pit_wrapper kernel_cs 0 v (omega arith)
        (a.pit_fits) (omega arith) (omega arith) in
    let e1 =
      install_interrupt_handler_lem keys 0x28 h.rtc_wrapper kernel_cs 0 v (omega arith) (a.rtc_fits)
        (omega arith) (omega arith) in
    let e2 =
      install_interrupt_handler_lem calls 0x21 h.keyboard_wrapper kernel_cs 0 v (omega arith)
        (a.keyboard_fits) (omega arith) (omega arith) in
    let e3 =
      install_interrupt_handler_lem reserved 0x80 h.syscall_wrapper kernel_cs 3 v (omega arith)
        (a.syscall_fits) (omega arith) (omega arith) in
    let e4 = install_each_lem 32 h.exceptions others 0 v (a.exceptions_fit) (omega arith) in
    let e5 = install_each_lem 224 (λ i. h.null_handler) idt 32 v (λ i. a.null_fits) (omega arith) in
    ground (arith, e0, e1, e2, e3, e4, e5)
