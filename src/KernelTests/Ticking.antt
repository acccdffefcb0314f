-- ===== src/KernelTests/Ticking.antt =====
-- The clock tests double the rate of the clock, within what the clock accepts.
use psych_os.Base.{
  ℕ, ◌*◌, ◌<◌, ◌^◌, ◌≡◌, refl, ap, sym, ◌∙◌, arith, Bool, true, false, ◌||◌, ◌&&◌, all_below,
  all_below_sound, and_parts, eq_of_test, Mem, ◌==◌, if◌then◌else◌, inl, inr,
}
use psych_os.Fs.Image.{read32}
use psych_os.Process.State.{Kernel}
use psych_os.Process.Clock.{set_rtc_test_enabled, rtc_open, rtc_write}
use psych_os.Process.Clock.Rates.{is_rate, rtc_write_lem}
use psych_os.KernelTests.{Suite, next_rate, word_at, start_rtc_test}

read32-word_at : (w : ℕ) → w < 2 ^ 32 → read32 (word_at w) 0 ≡ w
read32-word_at w l = omega (arith, l)

-- The rate before a start: one that the clock accepts, or the first value, 1.
abbrev pub MayStart : ℕ → Type 0
MayStart htz = (is_rate htz || (htz == 1)) ≡ true

-- A rate is followed by its double, or 1024 by 2, and that is a rate again.
abbrev doubles : ℕ → Bool
doubles h =
    if is_rate h || (h == 1)
    then is_rate (next_rate h) && (next_rate h == (if h == 1024 then 2 else 2 * h))
    else true

doubles_all : all_below 1025 doubles ≡ true
doubles_all = refl

when_true : (b c : Bool) → b ≡ true → (if b then c else true) ≡ true → c ≡ true
when_true true c b h = h
when_true false c b h = cc

MayStart-low : (htz : ℕ) → MayStart htz → htz < 1025
MayStart-low htz start = ground (arith, start)

next_rate_lem :
    (htz : ℕ)
    → MayStart htz
    → (is_rate (next_rate htz) ≡ true) × (next_rate htz ≡ (if htz == 1024 then 2 else 2 * htz))
next_rate_lem htz start =
    let low = MayStart-low htz start in
    let here = all_below_sound 1025 doubles htz doubles_all low in
    let (rate, double) = and_parts _ _ (when_true _ _ start here) in (rate, eq_of_test _ _ double)

open-enabled :
    (k : Kernel) (slot prev_b prev_a : ℕ)
    → ((rtc_open k slot prev_b prev_a).1.pcbs slot).rtc_enabled ≡ 1
unfolding rtc_open
open-enabled k slot prev_b prev_a = let self : (slot == slot) ≡ true = ground arith in rw self refl

write-enabled :
    (k : Kernel) (slot : ℕ) (m : Mem) (buf : ℕ)
    → ((rtc_write k slot m buf).1.pcbs slot).rtc_enabled ≡ (k.pcbs slot).rtc_enabled
unfolding rtc_write
write-enabled k slot m buf = ground arith

-- A rate that is written is taken over.
written_rate :
    (k : Kernel) (slot rate : ℕ)
    → is_rate rate ≡ true
    → rate < 2 ^ 32
    → ((rtc_write k slot (word_at rate) 0).1.pcbs slot).rtc_interval * rate ≡ 1024
written_rate k slot rate r l =
    let same = read32-word_at rate l in
    elim (rtc_write_lem k slot (word_at rate) 0) [
      | inl (accepted, zero_returned, interval) ↦
          ap (λ h. ((rtc_write k slot (word_at rate) 0).1.pcbs slot).rtc_interval * h) (sym same)
          ∙ interval
      | inr (refused, none_returned, stays) ↦
          let accepted : is_rate (read32 (word_at rate) 0) ≡ true = ap is_rate same ∙ r in cc
    ]

-- What the fourth test does to a process: where the last rate is one that the clock accepts, or the 1
-- that it starts from, the rate doubles, or goes from 1024 back to 2; the next start is allowed
-- again; the clock of the process is on, with the interval that belongs to the rate; and the clock's
-- interrupts print.
pub start_rtc_test_lem :
    (slot prev_b prev_a : ℕ) (s : Suite)
    → MayStart s.htz
    → let s' = start_rtc_test slot prev_b prev_a s in
      let pcb = s'.kernel.pcbs slot in
      MayStart s'.htz
      × (s'.htz ≡ (if s.htz == 1024 then 2 else 2 * s.htz))
      × (pcb.rtc_interval * s'.htz ≡ 1024)
      × (pcb.rtc_enabled ≡ 1)
      × (s'.kernel.rtc_test_enabled ≡ 1)
unfolding start_rtc_test set_rtc_test_enabled
start_rtc_test_lem slot prev_b prev_a s start =
    let (rate, double) = next_rate_lem s.htz start in
    let opened = (rtc_open s.kernel slot prev_b prev_a).1 in
    (
      ground (arith, rate),
      double,
      written_rate opened slot (next_rate s.htz) rate (ground arith),
      write-enabled opened slot (word_at (next_rate s.htz)) 0
          ∙ open-enabled s.kernel slot prev_b prev_a,
      refl,
    )
