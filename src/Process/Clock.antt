-- ===== src/Process/Clock.antt =====
-- student-distrib/drivers/rtc.c: the hardware clock runs at 1024 Hz, and each process counts its
-- ticks down to its own rate. Register values that are read from the chip are arguments.
pub mod Rates
pub mod Waiting
use Prim.Native.Nat.{bit_and, bit_or}
use psych_os.Base.{
  ℕ, zero, suc, ◌+◌, ◌-◌, ◌*◌, ◌/◌, ◌%◌, ◌^◌, ◌≤◌, ◌<◌, ◌≡◌, ◌≢◌, ◌⊎◌, inl, inr, ◌∙◌, ap, refl, sym,
  arith, Bool, true, false, Option, none, some, List, [], ◌∷◌, ◌++◌, Mem, ◌==◌, ◌&&◌, ◌||◌, ltb,
  not, if◌then◌else◌, update, sub32, all_below, all_below_sound, eq-or-ne, lt-or-le, eq_of_test,
  if_keeps, Option-cases,
}
use psych_os.Fs.Image.{read32}
use psych_os.Pic.{Pic, send_eoi, outportb, enable_irq}
use psych_os.Tty.Screen.{putc}
use psych_os.Process.State.{Pcb, Kernel, max_processes}

-- The bookkeeping of one process at one tick.
unfoldable pub tick : Pcb → Pcb
tick pcb =
    if not (pcb.in_use == 0) && (not (pcb.rtc_enabled == 0) && ltb 0 pcb.remaining_rtc_ticks)
    then record pcb { remaining_rtc_ticks = sub32 pcb.remaining_rtc_ticks 1 }
    else pcb

-- The loop over the slots: `n` rounds are left, from slot `i` on.
tick_slots : ℕ → ℕ → (ℕ → Pcb) → ℕ → Pcb
tick_slots zero i pcbs = pcbs
tick_slots (suc n) i pcbs = tick_slots n (i + 1) (update pcbs i (tick (pcbs i)))

unfoldable pub set_rtc_test_enabled : Kernel → ℕ → Kernel
set_rtc_test_enabled k enabled = record k { rtc_test_enabled = enabled }

unfoldable pub rtc_handler : Kernel → Kernel
unfolding tick_slots
rtc_handler k = record k {
  pic = send_eoi (outportb k.pic 0x70 0x0c) 8;
  tty = if k.rtc_test_enabled == 0 then k.tty else putc k.tty b'1';
  pcbs = tick_slots max_processes 0 k.pcbs;
}

-- The loop of `rtc_init`; the first argument is fuel.
rate_for : ℕ → ℕ → ℕ → ℕ
rate_for zero htz rate = rate
rate_for (suc fuel) htz rate =
    let rest = rate_for fuel (htz / 2) (rate - 1) in if htz == 2 then rate else rest

unfoldable pub rtc_init : Pic → ℕ → Pic
unfolding rate_for
rtc_init p prev =
    outportb (outportb (outportb p 0x70 0x8a) 0x70 0x8a) 0x71
      (bit_or (bit_and prev 0xf0) (rate_for 16 1024 15))

-- The handler is installed in the descriptor table, which is not part of the state.
unfoldable pub rtc_open : Kernel → ℕ → ℕ → ℕ → Option ℕ × Kernel
unfolding rtc_init
rtc_open k slot prev_b prev_a =
    let started =
      outportb (outportb (outportb k.pic 0x70 0x8b) 0x70 0x8b) 0x71 (bit_or prev_b 0x40) in
    (
      some 0,
      record k {
        pic = rtc_init (enable_irq started 8) prev_a;
        pcbs = update k.pcbs slot (record (k.pcbs slot) {
          rtc_enabled = 1;
          rtc_interval = 1024 / 2;
          remaining_rtc_ticks = 1024 / 2;
        });
      },
    )

unfoldable pub rtc_close : Kernel → ℕ → Option ℕ × Kernel
rtc_close k slot =
    (some 0, record k { pcbs = update k.pcbs slot (record (k.pcbs slot) { rtc_enabled = 0 }) })

-- The wait for the ticks left to run out, while at most `n` clock interrupts come: how many of them
-- are still to come, or none if the wait has not ended.
rtc_wait : ℕ → Kernel → ℕ → Option (ℕ × Kernel)
rtc_wait zero k slot = if (k.pcbs slot).remaining_rtc_ticks == 0 then some (0, k) else none
rtc_wait (suc n) k slot =
    let rest = rtc_wait n (rtc_handler k) slot in
    if (k.pcbs slot).remaining_rtc_ticks == 0 then some (suc n, k) else rest

rearm : ℕ → Option (ℕ × Kernel) → Option (Option ℕ × ℕ × Kernel)
rearm slot none = none
rearm slot (some (n, k)) = some (
  some 0,
  n,
  record k {
    pcbs =
        update k.pcbs slot
          (record (k.pcbs slot) { remaining_rtc_ticks = (k.pcbs slot).rtc_interval });
  },
)

-- The call, with the clock interrupts that may come while it waits.
unfoldable pub rtc_read : ℕ → Kernel → ℕ → Option (Option ℕ × ℕ × Kernel)
unfolding rtc_wait rearm
rtc_read n k slot =
    if (k.pcbs slot).rtc_enabled == 0 then some (none, n, k) else rearm slot (rtc_wait n k slot)

unfoldable pub rtc_write : Kernel → ℕ → Mem → ℕ → Option ℕ × Kernel
rtc_write k slot m buf =
    let hertz = read32 m buf in
    if ltb hertz 2 || ltb 1024 hertz
    then (none, k)
    else if not (bit_and hertz (sub32 hertz 1) == 0)
    then (none, k)
    else (
      some 0,
      record k { pcbs = update k.pcbs slot (record (k.pcbs slot) { rtc_interval = 1024 / hertz }) },
    )
