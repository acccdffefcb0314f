-- ===== src/Process/Clock/Rates.antt =====
-- `rtc_write` accepts the ten powers of two from 2 to 1024, and the interval that it sets fits them.
use Prim.Native.Nat.{bit_and}
use psych_os.Base.{
  ℕ, ◌*◌, ◌/◌, ◌≡◌, ◌⊎◌, inl, inr, refl, arith, Bool, true, false, none, some, Mem, ◌==◌, ◌&&◌,
  ◌||◌, ltb, not, if◌then◌else◌, sub32, all_below, all_below_sound, lt-or-le, eq_of_test,
}
use psych_os.Fs.Image.{read32}
use psych_os.Process.State.{Kernel}
use psych_os.Process.Clock.{rtc_write}

-- The rates that a process may ask for.
abbrev pub is_rate : ℕ → Bool
is_rate h =
    (h == 2)
    || ((h == 4)
        || ((h == 8)
            || ((h == 16)
                || ((h == 32)
                    || ((h == 64)
                        || ((h == 128) || ((h == 256) || ((h == 512) || (h == 1024)))))))))

abbrev power_test : ℕ → Bool
power_test h = bit_and h (sub32 h 1) == 0

-- Below 1025 the two tests of `rtc_write` agree with the list, and the interval divides evenly.
abbrev agrees : ℕ → Bool
agrees h =
    if ltb h 2 || ltb 1024 h
    then not (is_rate h)
    else if power_test h
    then is_rate h && (1024 / h * h == 1024)
    else not (is_rate h)

agrees_all : all_below 1025 agrees ≡ true
agrees_all = refl

agrees_lem : (h : ℕ) → agrees h ≡ true
agrees_lem h = elim (lt-or-le h 1025) [
  | inl l ↦ all_below_sound 1025 agrees h agrees_all l
  | inr l ↦ ground arith
]

-- The cases of the tests `o` (out of range), `p` (a power of two), `r` (a rate), `d` (even division).
test_cases :
    (o p r d : Bool)
    → (if o then not r else if p then r && d else not r) ≡ true
    → ((o ≡ false) × (p ≡ true) × (r ≡ true) × (d ≡ true))
      ⊎ ((r ≡ false) × ((o ≡ true) ⊎ ((o ≡ false) × (p ≡ false))))
test_cases true p true d h = cc
test_cases true p false d h = inr (refl, inl refl)
test_cases false true true true h = inl (refl, refl, refl, refl)
test_cases false true true false h = cc
test_cases false true false d h = cc
test_cases false false true d h = cc
test_cases false false false d h = inr (refl, inr (refl, refl))

-- `rtc_write` either is asked for one of the ten powers of two from 2 to 1024, returns 0, and sets an
-- interval that, times the rate, is 1024; or is asked for another number, returns -1, and changes
-- nothing.
pub rtc_write_lem :
    (k : Kernel) (slot : ℕ) (m : Mem) (buf : ℕ)
    → let hertz = read32 m buf in
      let r = rtc_write k slot m buf in
      ((is_rate hertz ≡ true) × (r.0 ≡ some 0) × ((r.1.pcbs slot).rtc_interval * hertz ≡ 1024))
      ⊎ ((is_rate hertz ≡ false) × (r.0 ≡ none) × (r.1 ≡ k))
unfolding rtc_write
rtc_write_lem k slot m buf =
    let h = read32 m buf in
    elim (test_cases (ltb h 2 || ltb 1024 h) (power_test h) (is_rate h) (1024 / h * h == 1024)
      (agrees_lem h)) [
        | inl (o, p, r, d) ↦
            let self : (slot == slot) ≡ true = ground arith in
            rw (o, p, self) (inl (r, refl, eq_of_test _ _ d))
        | inr (r, inl o) ↦ rw o (inr (r, refl, refl))
        | inr (r, inr (o, p)) ↦ rw (o, p) (inr (r, refl, refl))
      ]
