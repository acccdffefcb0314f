-- ===== src/Boot/Printing.antt =====
-- The boot goes through its messages.
use psych_os.Base.{
  ℕ, zero, suc, ◌+◌, ◌^◌, ◌<◌, ◌≡◌, ◌≢◌, inl, inr, refl, ap, sym, subst, ◌∙◌, arith, Bool, true,
  false, ◌&&◌, not, Option, none, some, List, ◌++◌, Mem, ◌==◌, if_keeps, bytes, Bool-cases,
  Option-cases,
}
use psych_os.Str.{strlen}
use psych_os.Str.Text.{EndsFrom, strlen_iff}
use psych_os.Fs.Image.{read32}
use psych_os.Tty.State.{Tty}
use psych_os.Tty.Calls.{put_all}
use psych_os.Printf.Calls.{PrintCall}
use psych_os.Printf.Said.{AreCalls, print_calls_lem}
use psych_os.Printf.Checked.{no_nul, checked-IsCall}
use psych_os.Printf.Puts.{put_all-append}
use psych_os.Boot.{
  Linked, Machine, with_tty, check_flag, Booted, refused, printed, say, say_all, message, refuse,
  initialize, describe, inform, when, commanded, module_calls, map_calls, memory_calls,
  device_calls, elf_calls, flags_calls,
}
use psych_os.Boot.Information.{
  AreBytes, MayCall, flags-AreCalls, memory-AreCalls, device-AreCalls, module-AreCalls,
  elf-AreCalls, map-MayCall, word_fits,
}

bytes-no_nul : (m : Mem) (a n : ℕ) → ((j : ℕ) → j < n → m (a + j) ≢ 0) → no_nul (bytes m a n) ≡ true
bytes-no_nul m a zero h = refl
bytes-no_nul m a (suc n) h =
    let first : m a ≢ 0 = λ z. h 0 (omega arith) (ap m (omega arith) ∙ z) in
    let t : not (m a == 0) ≡ true = ground arith in
    rw t (bytes-no_nul m (a + 1) n (λ j l z. h (j + 1) (omega arith) (ap m (omega arith) ∙ z)))

commanded-MayCall :
    (fuel mbi : ℕ) (m : Mem)
    → MayCall (commanded m mbi (strlen fuel (λ i. m (read32 m (mbi + 16) + i))))
unfolding commanded
commanded-MayCall fuel mbi m =
    let command : Mem = λ i. m (read32 m (mbi + 16) + i) in
    elim (Option-cases (strlen fuel command)) [
      | inl unended ↦ rw unended tt
      | inr (len, found) ↦
          let e : EndsFrom command 0 len × (len < fuel) = (strlen_iff fuel command len).0 found in
          let plain : no_nul (bytes m (read32 m (mbi + 16)) len) ≡ true =
            bytes-no_nul m (read32 m (mbi + 16)) len (λ j h. (e.0).before j (omega arith) h) in
          rw found (checked-IsCall _ refl refl (plain, tt), tt)
    ]

when-some : (b : Bool) (cs : List PrintCall) → when b (some cs) ≢ none
when-some true cs e = cc
when-some false cs e = cc

module _ (l : Linked) where
  module _ (s : Machine) (t : Tty) (P : Option Booted → Type 0) where
    -- A message on top of what has been printed.
    pub say_on :
        (front : List ℕ) (cs : List PrintCall) (k : Machine → Option Booted)
        → AreCalls cs
        → ((out : List ℕ) → P (k (with_tty s (put_all out t 0))))
        → P (say l (with_tty s (put_all front t 0)) cs k)
    unfolding say printed
    say_on front cs k c h =
        let (back, said, run) = print_calls_lem l.conv_buf (put_all front t 0) cs c in
        let go = λ (o : Option Tty). printed l (with_tty s (put_all front t 0)) o k in
        subst P (sym (ap go run))
          (subst (λ u. P (k (with_tty s u))) (put_all-append front back t) (h (front ++ back)))

    say_all_on :
        (front : List ℕ) (o : Option (List PrintCall)) (k : Machine → Option Booted)
        → MayCall o
        → o ≢ none
        → ((out : List ℕ) → P (k (with_tty s (put_all out t 0))))
        → P (say_all l (with_tty s (put_all front t 0)) o k)
    unfolding say_all
    say_all_on front none k c n h = absurd (n refl)
    say_all_on front (some cs) k c n h = say_on front cs k c h

    -- The boot is refused for its flags, or goes on to the initialisation.
    describe_on :
        (fuel : ℕ) (m : Mem) (mbi : ℕ) (front : List ℕ)
        → AreBytes m
        → when (check_flag (read32 m mbi) 6) (map_calls fuel m mbi) ≢ none
        → ((check_flag (read32 m mbi) 4 && check_flag (read32 m mbi) 5) ≡ true
            → (out : List ℕ) → P (some (refused (with_tty s (put_all out t 0)))))
        → ((check_flag (read32 m mbi) 4 && check_flag (read32 m mbi) 5) ≡ false
            → (out : List ℕ) → P (initialize l mbi (with_tty s (put_all out t 0))))
        → P (describe l fuel m mbi (with_tty s (put_all front t 0)))
    unfolding describe refuse
    describe_on fuel m mbi front b map_there on_refusal on_start =
        let flags = read32 m mbi in
        elim (Bool-cases (check_flag flags 4 && check_flag flags 5)) [
          | inl both ↦ rw both (
              say_on front (message "Both bits 4 and 5 are set.\n") _
                (checked-IsCall _ refl refl tt, tt) (on_refusal both))
          | inr not_both ↦ rw not_both (
              say_all_on front (when (check_flag flags 5) (some (elf_calls m mbi))) _
                (if_keeps MayCall (check_flag flags 5) (elf-AreCalls m b mbi) tt)
                (when-some (check_flag flags 5) (elf_calls m mbi))
                (λ out.
                  say_all_on out (when (check_flag flags 6) (map_calls fuel m mbi)) _
                    (if_keeps MayCall (check_flag flags 6) (map-MayCall m b fuel mbi) tt) map_there
                    (on_start not_both)))
        ]

    pub inform_on :
        (fuel : ℕ) (m : Mem) (mbi : ℕ) (front : List ℕ)
        → AreBytes m
        → when
            (check_flag (read32 m mbi) 2)
            (commanded m mbi (strlen fuel (λ i. m (read32 m (mbi + 16) + i))))
          ≢ none
        → when (check_flag (read32 m mbi) 6) (map_calls fuel m mbi) ≢ none
        → ((check_flag (read32 m mbi) 4 && check_flag (read32 m mbi) 5) ≡ true
            → (out : List ℕ) → P (some (refused (with_tty s (put_all out t 0)))))
        → ((check_flag (read32 m mbi) 4 && check_flag (read32 m mbi) 5) ≡ false
            → (out : List ℕ) → P (initialize l mbi (with_tty s (put_all out t 0))))
        → P (inform l fuel m mbi (with_tty s (put_all front t 0)))
    unfolding inform
    inform_on fuel m mbi front b command_there map_there on_refusal on_start =
        let flags = read32 m mbi in
        let modules = module_calls (read32 m (mbi + 20)) m (read32 m (mbi + 24)) 0 in
        let count : 0 + read32 m (mbi + 20) < 2 ^ 32 = omega (arith, word_fits m b (mbi + 20)) in
        say_on front (flags_calls m mbi) _ (flags-AreCalls m b mbi) λ out1.
          say_all_on out1 (when (check_flag flags 0) (some (memory_calls m mbi))) _
            (if_keeps MayCall (check_flag flags 0) (memory-AreCalls m b mbi) tt)
            (when-some (check_flag flags 0) (memory_calls m mbi))
            λ out2.
              say_all_on out2 (when (check_flag flags 1) (some (device_calls m mbi))) _
                (if_keeps MayCall (check_flag flags 1) (device-AreCalls m b mbi) tt)
                (when-some (check_flag flags 1) (device_calls m mbi))
                λ out3.
                  say_all_on out3 (when (check_flag flags 2) _) _
                    (if_keeps MayCall (check_flag flags 2) (commanded-MayCall fuel mbi m) tt)
                    command_there
                    λ out4.
                      say_all_on out4 (when (check_flag flags 3) (some modules)) _
                        (if_keeps MayCall (check_flag flags 3)
                          (module-AreCalls m b (read32 m (mbi + 20)) (read32 m (mbi + 24)) 0 count)
                          tt)
                        (when-some (check_flag flags 3) modules)
                        λ out5. describe_on fuel m mbi out5 b map_there on_refusal on_start
