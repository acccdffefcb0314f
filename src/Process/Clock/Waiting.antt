-- ===== src/Process/Clock/Waiting.antt =====
-- `rtc_read` waits for as many ticks as the process has left, and sets the count up again.
use psych_os.Base.{
  ℕ, zero, suc, ◌+◌, ◌-◌, ◌<◌, ◌≤◌, ◌^◌, ◌≡◌, ◌≢◌, refl, arith, true, false, some, ◌==◌, ◌&&◌, ltb,
  leb, if◌then◌else◌, update, sub32, ◌∙◌, ap,
}
use psych_os.Process.State.{Pcb, Kernel}
use psych_os.Process.Clock.{tick, tick_slots, rtc_handler, rtc_wait, rtc_read}

-- One tick for every slot of a range, and for no other.
tick_slots_lem :
    (n i : ℕ) (pcbs : ℕ → Pcb) (j : ℕ)
    → tick_slots n i pcbs j ≡ (if leb i j && ltb j (i + n) then tick (pcbs j) else pcbs j)
unfolding tick_slots
tick_slots_lem zero i pcbs j = ground arith
tick_slots_lem (suc n) i pcbs j =
    ground (arith, tick_slots_lem n (i + 1) (update pcbs i (tick (pcbs i))) j)

-- The process of a slot waits on the clock with `r` ticks left.
pub record Waits (k : Kernel) (slot r : ℕ) : Type 0 where
  pub used : (k.pcbs slot).in_use ≢ 0
  pub enabled : (k.pcbs slot).rtc_enabled ≢ 0
  pub left : (k.pcbs slot).remaining_rtc_ticks ≡ r
  pub bounded : r < 2 ^ 32

handler-tick : (k : Kernel) (slot : ℕ) → slot < 6 → (rtc_handler k).pcbs slot ≡ tick (k.pcbs slot)
unfolding rtc_handler
handler-tick k slot l = tick_slots_lem 6 0 k.pcbs slot ∙ ground arith

tick-left :
    (p : Pcb) (r : ℕ)
    → p.in_use ≢ 0
    → p.rtc_enabled ≢ 0
    → p.remaining_rtc_ticks ≡ suc r
    → suc r < 2 ^ 32
    → tick p ≡ record p { remaining_rtc_ticks = r }
unfolding tick
tick-left p r u e l b =
    let in_use : (p.in_use == 0) ≡ false = ground arith in
    let enabled : (p.rtc_enabled == 0) ≡ false = ground arith in
    let some_left : ltb 0 p.remaining_rtc_ticks ≡ true = ground arith in
    let less : sub32 p.remaining_rtc_ticks 1 ≡ r = omega arith in
    rw (in_use, enabled, some_left) (ap (λ n. record p { remaining_rtc_ticks = n }) less)

handler-left :
    (k : Kernel) (slot r : ℕ)
    → slot < 6
    → Waits k slot (suc r)
    → (rtc_handler k).pcbs slot ≡ record (k.pcbs slot) { remaining_rtc_ticks = r }
handler-left k slot r l w =
    handler-tick k slot l ∙ tick-left (k.pcbs slot) r w.used w.enabled w.left w.bounded

handler-Waits :
    (k : Kernel) (slot r : ℕ) → slot < 6 → Waits k slot (suc r) → Waits (rtc_handler k) slot r
handler-Waits k slot r l w =
    let e = handler-left k slot r l w in
    record {
      used = rw e w.used;
      enabled = rw e w.enabled;
      left = ap (λ p. p.remaining_rtc_ticks) e;
      bounded = omega (arith, w.bounded);
    }

abbrev without_ticks : Pcb → Pcb
without_ticks q = record q { remaining_rtc_ticks = 0 }

wait_lem :
    (r n : ℕ) (k : Kernel) (slot : ℕ)
    → slot < 6
    → Waits k slot r
    → r ≤ n
    → (k' : Kernel) × (rtc_wait n k slot ≡ some (n - r, k'))
      × (k'.pcbs slot ≡ record (k.pcbs slot) { remaining_rtc_ticks = 0 })
unfolding rtc_wait
wait_lem zero zero k slot l w b =
    (k, rw w.left refl, ap (λ j. record (k.pcbs slot) { remaining_rtc_ticks = j }) w.left)
wait_lem zero (suc n) k slot l w b = (
  k,
  rw w.left (ap (λ j. some (j, k)) (omega arith)),
  ap (λ j. record (k.pcbs slot) { remaining_rtc_ticks = j }) w.left,
)
wait_lem (suc r) zero k slot l w b = absurd (omega arith)
wait_lem (suc r) (suc n) k slot l w b =
    let (k', e, p) =
      wait_lem r n (rtc_handler k) slot l (handler-Waits k slot r l w) (omega arith) in
    let busy : ((k.pcbs slot).remaining_rtc_ticks == 0) ≡ false = ground (arith, w.left) in
    (
      k',
      rw busy (e ∙ ap (λ j. some (j, k')) (omega arith)),
      p ∙ ap without_ticks (handler-left k slot r l w),
    )

-- `rtc_read` of a process that uses the clock, with `r` ticks left and at least that many clock
-- interrupts to come, returns 0 after exactly `r` of them, and its process then has one interval of
-- ticks left.
pub rtc_read_lem :
    (k : Kernel) (slot r n : ℕ)
    → slot < 6
    → Waits k slot r
    → r ≤ n
    → (k' : Kernel) × (rtc_read n k slot ≡ some (some 0, n - r, k'))
      × ((k'.pcbs slot).remaining_rtc_ticks ≡ (k.pcbs slot).rtc_interval)
unfolding rtc_read
rtc_read_lem k slot r n l w b =
    let (k', e, p) = wait_lem r n k slot l w b in
    let on : ((k.pcbs slot).rtc_enabled == 0) ≡ false = ground (arith, w.enabled) in
    let self : (slot == slot) ≡ true = ground arith in
    (
      record k' {
        pcbs =
            update k'.pcbs slot
              (record (k'.pcbs slot) { remaining_rtc_ticks = (k'.pcbs slot).rtc_interval });
      },
      rw (on, e) refl,
      rw self (ap (λ q. q.rtc_interval) p),
    )
