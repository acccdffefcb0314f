-- ===== src/Process/Addresses.antt =====
-- The address functions of student-distrib/arch/x86/task.c: each slot has 8 KB below the end of
-- the kernel page, with the control block at its low end, and 4 MB above it.
use psych_os.Base.{ℕ, ◌+◌, ◌*◌, ◌/◌, ◌%◌, ◌^◌, ◌≤◌, ◌<◌, ◌≡◌, arith, sub32, add32}

abbrev kernel_page_end : ℕ
kernel_page_end = 0x800000

abbrev kernel_stack_size : ℕ
kernel_stack_size = 0x2000

abbrev pub process_page_size : ℕ
process_page_size = 0x400000

-- `a & PCB_BITMASK`, which clears the low 13 bits.
abbrev masked_down : ℕ → ℕ
masked_down a = a / 8192 * 8192

unfoldable pub get_pcb_from_esp : ℕ → ℕ
get_pcb_from_esp process_esp = masked_down (sub32 process_esp 1)

unfoldable pub get_pcb_from_slot : ℕ → ℕ
get_pcb_from_slot pcb_slot = sub32 kernel_page_end (kernel_stack_size * (pcb_slot + 1) % 2 ^ 32)

-- `stack_var` is the address of the local variable.
unfoldable pub get_current_pcb : ℕ → ℕ
unfolding get_pcb_from_esp
get_current_pcb stack_var = get_pcb_from_esp stack_var

unfoldable pub get_current_kernel_stack_base : ℕ → ℕ
get_current_kernel_stack_base stack_var = add32 (masked_down stack_var) kernel_stack_size

unfoldable pub get_kernel_stack_base_from_slot : ℕ → ℕ
get_kernel_stack_base_from_slot pcb_slot =
    sub32 kernel_page_end (kernel_stack_size * pcb_slot % 2 ^ 32)

unfoldable pub get_process_page_from_slot : ℕ → ℕ
get_process_page_from_slot task_slot =
    add32 kernel_page_end (process_page_size * task_slot % 2 ^ 32)

-- An address inside the kernel stack of a slot, which is above the block's own.
pub record OnStack (slot esp : ℕ) : Type 0 where
  pub above : get_pcb_from_slot slot < esp
  pub below : esp < get_kernel_stack_base_from_slot slot

-- From any stack address of one of the six slots, the current block is that slot's, and the current
-- stack base is that slot's; a stack that is still empty leads to the same block.
pub current_of_stack :
    (slot esp : ℕ)
    → slot < 6
    → OnStack slot esp
    → (get_current_pcb esp ≡ get_pcb_from_slot slot)
      × (get_current_kernel_stack_base esp ≡ get_kernel_stack_base_from_slot slot)
      × (get_pcb_from_esp (get_kernel_stack_base_from_slot slot) ≡ get_pcb_from_slot slot)
unfolding get_pcb_from_esp get_pcb_from_slot get_current_pcb get_current_kernel_stack_base
    get_kernel_stack_base_from_slot
current_of_stack slot esp l o = (omega arith, omega arith, omega arith)

-- Two slots share neither their 8 KB of kernel memory nor their 4 MB of user memory; the kernel
-- memory of the six slots lies in the kernel page, and the user memory above it.
pub slots_apart :
    (i j : ℕ)
    → i < j
    → j < 6
    → (get_kernel_stack_base_from_slot j ≤ get_pcb_from_slot i)
      × (get_process_page_from_slot i + process_page_size ≤ get_process_page_from_slot j)
      × (0x400000 ≤ get_pcb_from_slot j)
      × (get_kernel_stack_base_from_slot i ≤ get_process_page_from_slot i)
unfolding get_pcb_from_slot get_kernel_stack_base_from_slot get_process_page_from_slot
slots_apart i j l m = (omega arith, omega arith, omega arith, omega arith)
