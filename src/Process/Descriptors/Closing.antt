-- ===== src/Process/Descriptors/Closing.antt =====
-- Closing gives a descriptor back, and nothing is closed twice.
use psych_os.Base.{
  ℕ, ◌*◌, ◌/◌, ◌≤◌, ◌<◌, ◌≡◌, ◌≢◌, ◌⊎◌, inl, inr, ◌∙◌, refl, ap, arith, true, false, Bool-cases,
  Option, none, some, ◌==◌, leb, lt-or-le,
}
use psych_os.Fs.Files.{
  FileOps, fops_null, fops_rtc, fops_dir, fops_file, fops_stdin, fops_stdout, File, file_close,
  dir_close,
}
use psych_os.Process.State.{Kernel}
use psych_os.Process.Clock.{rtc_close}
use psych_os.Process.Descriptors.{in_use, file_of, set_file, has_close, call_close, syscall_close}
use psych_os.Process.Descriptors.Opening.{set_file-same, set_file-other, set_file-process}

-- The descriptors after `fd` has been closed.
pub record Closed (k k' : Kernel) (slot fd : ℕ) : Type 0 where
  pub free : in_use (file_of k' slot fd) ≡ false
  pub others : (j : ℕ) → fd ≢ j → file_of k' slot j ≡ file_of k slot j
  pub processes : (i : ℕ) → slot ≢ i → k'.pcbs i ≡ k.pcbs i

-- What the `close` of a table leaves of the processes.
record Kept (k : Kernel) (slot : ℕ) (r : Option ℕ × Kernel) : Type 0 where
  result : r.0 ≡ some 0
  files : (r.1.pcbs slot).fa ≡ (k.pcbs slot).fa
  processes : (i : ℕ) → slot ≢ i → r.1.pcbs i ≡ k.pcbs i

call_close-Kept :
    (f : FileOps) (k : Kernel) (slot fd : ℕ)
    → has_close f ≡ true
    → Kept k slot (call_close f k slot fd)
unfolding call_close rtc_close file_close dir_close
call_close-Kept fops_rtc k slot fd h = record {
  result = refl;
  files = let self : (slot == slot) ≡ true = ground arith in rw self refl;
  processes = λ i n. ground arith;
}
call_close-Kept fops_dir k slot fd h = record {
  result = refl;
  files = refl;
  processes = λ i n. refl;
}
call_close-Kept fops_file k slot fd h = record {
  result = refl;
  files = refl;
  processes = λ i n. refl;
}
call_close-Kept fops_null k slot fd h = cc
call_close-Kept fops_stdin k slot fd h = cc
call_close-Kept fops_stdout k slot fd h = cc

call_close-Closed :
    (k : Kernel) (slot fd : ℕ) (r : Option ℕ × Kernel)
    → Kept
        (set_file k slot fd
          (record (file_of k slot fd) { flags = (file_of k slot fd).flags / 2 * 2 }))
        slot
        r
    → Closed k r.1 slot fd
call_close-Closed k slot fd r c =
    let f : File = record (file_of k slot fd) { flags = (file_of k slot fd).flags / 2 * 2 } in
    let written : file_of r.1 slot fd ≡ f = ap (λ fa. fa fd) c.files ∙ set_file-same k slot fd f in
    let clear : in_use f ≡ false = ground arith in
    record {
      free = ap in_use written ∙ clear;
      others = λ j n. ap (λ fa. fa j) c.files ∙ set_file-other k slot fd f j n;
      processes = λ i n. c.processes i n ∙ set_file-process k slot fd f i n;
    }

-- `syscall_close` returns 0 exactly for a descriptor below eight that is in use and whose table has a
-- `close`, and has then freed it and changed no other descriptor and no other process; for any other
-- it returns -1 and changes nothing.
pub syscall_close_lem :
    (k : Kernel) (slot fd : ℕ)
    → let (r, k') = syscall_close k slot fd in
      ((r ≡ some 0)
        × (fd < 8)
        × (in_use (file_of k slot fd) ≡ true)
        × (has_close (file_of k slot fd).fops ≡ true)
        × Closed k k' slot fd)
      ⊎ ((r ≡ none)
          × (k' ≡ k)
          × ((8 ≤ fd)
              ⊎ ((in_use (file_of k slot fd) ≡ false)
                  ⊎ (has_close (file_of k slot fd).fops ≡ false))))
unfolding syscall_close
syscall_close_lem k slot fd = elim (lt-or-le fd 8) [
  | inr l ↦ let t : leb 8 fd ≡ true = ground arith in rw t (inr (refl, refl, inl l))
  | inl l ↦
      let t : leb 8 fd ≡ false = ground arith in
      elim (Bool-cases (in_use (file_of k slot fd))) [
        | inr u ↦ rw (t, u) (inr (refl, refl, inr (inl refl)))
        | inl u ↦ elim (Bool-cases (has_close (file_of k slot fd).fops)) [
          | inr c ↦ rw (t, u, c) (inr (refl, refl, inr (inr refl)))
          | inl c ↦
              let kept = call_close-Kept (file_of k slot fd).fops _ slot fd c in
              rw (t, u, c) (inl (kept.result, l, refl, refl, call_close-Closed k slot fd _ kept))
        ]
      ]
]
