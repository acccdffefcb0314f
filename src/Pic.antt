-- ===== src/Pic.antt =====
-- student-distrib/arch/x86/i8259.c: the interrupt controller's masks, and the bytes sent to its
-- ports in the order they are sent.
pub mod Masks
use Prim.Native.Nat.{bit_and, bit_or}
use psych_os.Base.{ℕ, ◌+◌, ◌-◌, ◌%◌, ◌^◌, List, [], ◌∷◌, ◌++◌, ◌==◌, if◌then◌else◌}

pub record Pic : Type 0 where
  pub master_mask : ℕ
  pub slave_mask : ℕ
  pub ports : List (ℕ × ℕ)

abbrev pub initial : Pic
initial = record { master_mask = 255; slave_mask = 255; ports = [] }

abbrev pub outportb : Pic → ℕ → ℕ → Pic
outportb p port value = record p { ports = p.ports ++ ((port, value) ∷ []) }

-- `~x` as the `uint8_t` that it is stored to.
abbrev pub not8 : ℕ → ℕ
not8 x = 255 - x % 256

unfoldable pub i8259_init : Pic → Pic
i8259_init p =
    let written : Pic = record p {
      ports =
          p.ports
          ++ ((0x21, p.master_mask)
              ∷ (0xa1, p.slave_mask)
              ∷ (0x20, 0x11)
              ∷ (0x21, 0x20)
              ∷ (0x21, 0x02)
              ∷ (0x21, 0x01)
              ∷ (0xa0, 0x11)
              ∷ (0xa1, 0x28)
              ∷ (0xa1, 0x02)
              ∷ (0xa1, 0x01)
              ∷ []);
      master_mask = bit_and p.master_mask (not8 0x04);
    } in
    outportb written 0x21 written.master_mask

unfoldable pub enable_irq : Pic → ℕ → Pic
enable_irq p irq_num =
    let s = bit_and p.slave_mask (not8 (2 ^ (irq_num - 8))) in
    let m = bit_and p.master_mask (not8 (2 ^ irq_num)) in
    if bit_and irq_num 8 == 0
    then outportb (record p { master_mask = m }) 0x21 m
    else outportb (record p { slave_mask = s }) 0xa1 s

unfoldable pub disable_irq : Pic → ℕ → Pic
disable_irq p irq_num =
    let s = bit_or p.slave_mask (2 ^ (irq_num - 8)) % 256 in
    let m = bit_or p.master_mask (2 ^ irq_num) % 256 in
    if bit_and irq_num 8 == 0
    then outportb (record p { master_mask = m }) 0x21 m
    else outportb (record p { slave_mask = s }) 0xa1 s

-- The bytes that acknowledge an interrupt.
abbrev pub eoi_bytes : ℕ → List (ℕ × ℕ)
eoi_bytes irq_num =
    if bit_and irq_num 8 == 0
    then (0x20, bit_or 0x60 irq_num % 256) ∷ []
    else (0xa0, bit_or 0x60 (irq_num - 8) % 256) ∷ (0x20, bit_or 0x60 2) ∷ []

unfoldable pub send_eoi : Pic → ℕ → Pic
send_eoi p irq_num = record p { ports = p.ports ++ eoi_bytes irq_num }
