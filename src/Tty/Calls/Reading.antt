-- ===== src/Tty/Calls/Reading.antt =====
-- `terminal_read` takes the first line of the queue of typed bytes.
use psych_os.Base.{
  ℕ, suc, ◌+◌, min, ◌≤◌, ◌<◌, ◌≡◌, ◌∙◌, refl, ap, arith, true, false, some, List, [], ◌∷◌, ◌++◌,
  count, count-append, count-le-length, length, length-append, take, drop, bytes, ltb, ◌==◌,
  if◌then◌else◌, add32, sub8, subst,
}
use psych_os.Base.Int.{pos}
use psych_os.ByteQueue
use psych_os.CircularBuffer.{circular_buffer_find}
use psych_os.CircularBuffer.Inv.{IsApart, contents}
use psych_os.CircularBuffer.Find.{find_refines}
use psych_os.CircularBuffer.Get.{circular_buffer_get_lem, get-SameRing}
use psych_os.Tty.State.{Tty, newline}
use psych_os.Tty.Keys.Line.{Holds, length-Holds}
use psych_os.Tty.Calls.{take_line, wait_for_line, after_wait, terminal_read}

find-line :
    (line rest : List ℕ) (i : ℕ)
    → count newline line ≡ 0
    → ByteQueue.find_from i (line ++ newline ∷ rest) newline ≡ pos (i + length line)
find-line [] rest i c = ap pos (omega arith)
find-line (x ∷ line) rest i c =
    let differs : (x == newline) ≡ false = ground (arith, c) in
    rw differs (find-line line rest (i + 1) (ground (arith, c)) ∙ ap pos (omega arith))

take-line :
    (line rest : List ℕ)
    → take (suc (length line)) (line ++ newline ∷ rest) ≡ line ++ (newline ∷ [])
take-line [] rest = refl
take-line (x ∷ line) rest = ap (λ xs. x ∷ xs) (take-line line rest)

drop-line : (line rest : List ℕ) → drop (suc (length line)) (line ++ newline ∷ rest) ≡ rest
drop-line [] rest = refl
drop-line (x ∷ line) rest = drop-line line rest

module _ (s : Tty) (t buf nbytes : ℕ) (line rest : List ℕ) (h : Holds s t (line ++ newline ∷ rest))
    (one : count newline line ≡ 0) (enough : length line < nbytes)
    (apart : IsApart (s.input_buffer t) buf (length line + 1)) where
  found_at : circular_buffer_find (s.input_buffer t) s.mem newline ≡ pos (length line)
  found_at =
      find_refines (s.input_buffer t) s.mem newline
      ∙ ap (λ q. ByteQueue.find_from 0 q newline) h.holds
      ∙ find-line line rest 0 one
      ∙ ap pos (omega arith)

  fits : length line + 1 + length rest ≤ 128
  fits = omega (
    arith,
    length-Holds s t (line ++ newline ∷ rest) h,
    length-append line (newline ∷ rest),
    h.valid.bounded,
    h.size,
  )

  asked :
      (if ltb (add32 (length line) 1) nbytes then add32 (length line) 1 else nbytes)
      ≡ suc (length line)
  asked = ground (arith, fits)

  taken : min (suc (length line)) (s.input_buffer t).current_len ≡ suc (length line)
  taken =
      omega
        (arith, length-Holds s t (line ++ newline ∷ rest) h, length-append line (newline ∷ rest))

  counted : sub8 (s.new_line_ready t) 1 ≡ count newline rest
  counted = omega (
    arith,
    h.lines,
    count-append newline line (newline ∷ rest),
    one,
    fits,
    count-le-length newline rest,
  )

  take_line_lem :
      let (n, s') = take_line s t buf nbytes in
      (n ≡ length line + 1) × (bytes s'.mem buf n ≡ line ++ (newline ∷ [])) × Holds s' t rest
  unfolding take_line
  take_line_lem =
      let b = s.input_buffer t in
      let near : IsApart b buf (min (suc (length line)) b.current_len) =
        rw taken (subst (IsApart b buf) (omega arith) apart) in
      let (n, copied, outside, left, valid) =
        circular_buffer_get_lem b s.mem buf (suc (length line)) h.valid near in
      let count_is = n ∙ taken in
      let self : (t == t) ≡ true = ground arith in
      rw (found_at, asked)
        (
          count_is ∙ omega arith,
          copied
              ∙ ap (λ k. take k (contents b s.mem)) count_is
              ∙ ap (take (suc (length line))) h.holds
              ∙ take-line line rest,
          record {
            valid = rw self valid;
            size = rw self ((get-SameRing b s.mem buf (suc (length line))).max ∙ h.size);
            holds = rw self (
                left
                ∙ ap (λ k. drop k (contents b s.mem)) count_is
                ∙ ap (drop (suc (length line))) h.holds
                ∙ drop-line line rest);
            lines = rw self counted;
          },
        )

  a_line_waits : (s.new_line_ready t == 0) ≡ false
  a_line_waits = ground (arith, h.lines, count-append newline line (newline ∷ rest))

  waits_for_none : (interrupts : List (Tty → Tty)) → wait_for_line interrupts s t ≡ some s
  unfolding wait_for_line
  waits_for_none [] = rw a_line_waits refl
  waits_for_none (i ∷ later) = rw a_line_waits refl

  -- `terminal_read` returns at once when a line is waiting. With a limit above the line's length, and a
  -- buffer apart from the ring, it returns the number of bytes of the first line with its line feed,
  -- has written exactly those to the buffer, and leaves the bytes that were typed behind them, with
  -- their count of lines.
  pub terminal_read_lem :
      (interrupts : List (Tty → Tty))
      → (n : ℕ) × (s' : Tty) × (terminal_read interrupts s t buf nbytes ≡ some (n, s'))
        × (n ≡ length line + 1)
        × (bytes s'.mem buf n ≡ line ++ (newline ∷ []))
        × Holds s' t rest
  unfolding terminal_read
  terminal_read_lem interrupts =
      let (count_is, copied, holds) = take_line_lem in
      (_, _, ap (after_wait t buf nbytes) (waits_for_none interrupts), count_is, copied, holds)
