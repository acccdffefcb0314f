-- ===== src/Process/Scheduler.antt =====
-- student-distrib/drivers/pit.c: the choice of the next process, and the switch to it. The
-- current block is named by its slot.
use psych_os.Base.{
  ℕ, zero, suc, ◌+◌, ◌-◌, ◌%◌, ◌/◌, ◌<◌, ◌≡◌, refl, arith, Bool, Option, none, some, List, [], ◌∷◌,
  ◌++◌, ◌==◌, ◌&&◌, not, if◌then◌else◌, update, add32, Option-cases, ◌⊎◌, inl, inr,
}
use psych_os.Pic.{Pic, send_eoi, eoi_bytes, outportb}
use psych_os.Tty.Screen.{get_terminal_output_buffer}
use psych_os.Process.State.{Pcb, Kernel, in_user, max_processes, process_running}
use psych_os.Process.Addresses.{get_kernel_stack_base_from_slot}

-- `PROCESS_LINK_START`
abbrev pub process_link_start : ℕ
process_link_start = 0x8048000

abbrev pub runnable : Pcb → Bool
runnable pcb = not (pcb.in_use == 0) && (pcb.status == process_running)

-- The loop of `scheduler` from `i` up to `last_slot_checked`; the first argument is fuel.
next_from : ℕ → (ℕ → Pcb) → ℕ → ℕ → Option ℕ
next_from zero pcbs last i = none
next_from (suc fuel) pcbs last i =
    let rest = next_from fuel pcbs last ((i + 1) % max_processes) in
    if i == last then none else if runnable (pcbs i) then some i else rest

-- Seven rounds are enough: the sixth slot behind the first is the last one.
unfoldable pub next_slot : (ℕ → Pcb) → ℕ → Option ℕ
unfolding next_from
next_slot pcbs slot =
    next_from 7 pcbs (if slot == 0 then slot + max_processes - 1 else slot - 1) (slot + 1)

-- The saved registers of the process that is left.
abbrev save_regs : Kernel → ℕ → Kernel
save_regs k slot = record k {
  pcbs = update k.pcbs slot (record (k.pcbs slot) { regs_esp = k.esp; regs_ebp = k.ebp });
}

unfoldable pub context_switch : Kernel → ℕ → ℕ → Kernel
context_switch k last next =
    let pcb = k.pcbs next in
    let s =
      save_regs
        (record k {
          vmem_page =
              update k.vmem_page pcb.slot_num (get_terminal_output_buffer k.tty pcb.terminal_num);
          cr3 = pcb.process_pd_ptr;
        })
        last in
    let t : Kernel = record s { esp0 = get_kernel_stack_base_from_slot pcb.slot_num } in
    if (t.pcbs next).regs_esp == 0
    then record t {
      pic = send_eoi t.pic 0;
      running = in_user process_link_start (t.pcbs next).entrypoint;
    }
    else record t {
      esp = (t.pcbs next).regs_esp;
      ebp = (t.pcbs next).regs_ebp;
      pic = send_eoi t.pic 0;
    }

switch_to : Kernel → ℕ → Option ℕ → Kernel
switch_to k slot none = record k { pic = send_eoi k.pic 0 }
switch_to k slot (some next) = context_switch k slot next

-- A process that goes on in the kernel is in `scheduler` too, and its `send_eoi` is what follows.
unfoldable pub scheduler : Kernel → ℕ → Kernel
unfolding switch_to
scheduler k slot = switch_to k slot (next_slot k.pcbs slot)

unfoldable pub pit_handler : Kernel → ℕ → Kernel
unfolding scheduler
pit_handler k slot = scheduler (record k { system_ticks = add32 k.system_ticks 1 }) slot

unfoldable pub pit_init : Pic → ℕ → Pic
pit_init p hertz =
    let divisor = 1193182 / 100 in
    outportb (outportb (outportb p 0x43 0x36) 0x40 (divisor % 256)) 0x40 (divisor / 256 % 256)

-- The first runnable slot of a list.
abbrev pub first_runnable : (ℕ → Pcb) → List ℕ → Option ℕ
first_runnable pcbs [] = none
first_runnable pcbs (i ∷ is) = if runnable (pcbs i) then some i else first_runnable pcbs is

-- The slots that the scheduler looks at.
abbrev pub candidates : ℕ → List ℕ
candidates slot = (slot + 1) ∷ ((slot + 2) % 6) ∷ ((slot + 3) % 6) ∷ ((slot + 4) % 6) ∷ []

-- From each of the first five slots the scheduler chooses the first runnable slot of the four that
-- follow it round the six, and none if there is none; the slot in front of it is not looked at.
pub next_slot_lem :
    (pcbs : ℕ → Pcb) (slot : ℕ)
    → slot < 5
    → next_slot pcbs slot ≡ first_runnable pcbs (candidates slot)
unfolding next_slot
next_slot_lem pcbs zero l = refl
next_slot_lem pcbs (suc zero) l = refl
next_slot_lem pcbs (suc (suc zero)) l = refl
next_slot_lem pcbs (suc (suc (suc zero))) l = refl
next_slot_lem pcbs (suc (suc (suc (suc zero)))) l = refl
next_slot_lem pcbs (suc (suc (suc (suc (suc n))))) l = absurd (omega arith)

-- The kernel `k'` runs for process `pcb`, and has acknowledged the timer.
record RunsFor (k k' : Kernel) (pcb : Pcb) : Type 0 where
  acknowledged : k'.pic.ports ≡ k.pic.ports ++ eoi_bytes 0
  directory : k'.cr3 ≡ pcb.process_pd_ptr
  stack : k'.esp0 ≡ get_kernel_stack_base_from_slot pcb.slot_num
  video : k'.vmem_page pcb.slot_num ≡ get_terminal_output_buffer k.tty pcb.terminal_num

context_switch-RunsFor :
    (k : Kernel) (last next : ℕ) → RunsFor k (context_switch k last next) (k.pcbs next)
unfolding context_switch send_eoi
context_switch-RunsFor k last next = record {
  acknowledged = ground arith;
  directory = ground arith;
  stack = ground arith;
  video = ground arith;
}

-- Every timer interrupt is acknowledged exactly once. Where a process is found its page directory
-- and its kernel stack are in use afterwards, and its first page table leads to where its terminal
-- writes; where none is found nothing but the count of ticks changes.
pub pit_handler_lem :
    (k : Kernel) (slot : ℕ)
    → let k' = pit_handler k slot in
      (k'.pic.ports ≡ k.pic.ports ++ eoi_bytes 0)
      × (((i : ℕ) × (next_slot k.pcbs slot ≡ some i)
            × (k'.cr3 ≡ (k.pcbs i).process_pd_ptr)
            × (k'.esp0 ≡ get_kernel_stack_base_from_slot (k.pcbs i).slot_num)
            × (k'.vmem_page (k.pcbs i).slot_num
                ≡ get_terminal_output_buffer k.tty (k.pcbs i).terminal_num))
          ⊎ ((next_slot k.pcbs slot ≡ none)
              × (k' ≡ record k { pic = k'.pic; system_ticks = add32 k.system_ticks 1 })))
unfolding pit_handler send_eoi
pit_handler_lem k slot =
    let ticked : Kernel = record k { system_ticks = add32 k.system_ticks 1 } in
    elim (Option-cases (next_slot k.pcbs slot)) [
      | inl e ↦ rw e (refl, inr (refl, refl))
      | inr (i, e) ↦
          let runs = context_switch-RunsFor ticked slot i in
          rw e (runs.acknowledged, inl (i, refl, runs.directory, runs.stack, runs.video))
    ]
