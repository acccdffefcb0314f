-- ===== src/Tty/Screen/Frame.antt =====
-- What writing to one terminal's screen leaves alone.
use psych_os.Base.{ℕ, ◌<◌, ◌≡◌, ◌≢◌, arith, false, ◌==◌, if_keeps}
use psych_os.Tty.State.{Tty, Video, same_video}
use psych_os.Tty.Screen.{
  set_hardware_cursor, words_of, put_backspace, put_newline, put_printable, putc_internal,
  clear_terminal,
}
use psych_os.Tty.Screen.Switch.{IsWired}

-- The parts of the state that output to terminal `t` does not touch.
pub record Untouched (t : ℕ) (s s' : Tty) : Type 0 where
  pub buffers : s'.input_buffer ≡ s.input_buffer
  pub internal : s'.input_buffer_internal ≡ s.input_buffer_internal
  pub ready : s'.new_line_ready ≡ s.new_line_ready
  pub memory : s'.mem ≡ s.mem
  pub video : s'.video_memory ≡ s.video_memory
  pub active : s'.active_terminal ≡ s.active_terminal
  pub keys : s'.keyboard_state ≡ s.keyboard_state
  pub caps : s'.caps_lock_status ≡ s.caps_lock_status
  pub others : (v : Video) → same_video (s.video_memory t) v ≡ false → s'.words v ≡ s.words v
  pub columns : (u : ℕ) → t ≢ u → s'.cursor_x u ≡ s.cursor_x u
  pub rows : (u : ℕ) → t ≢ u → s'.cursor_y u ≡ s.cursor_y u

putc_backspace_Untouched : (s : Tty) (t x y : ℕ) → Untouched t s (put_backspace s t x y)
unfolding put_backspace
putc_backspace_Untouched s t x y = ground arith

putc_newline_Untouched : (s : Tty) (t y : ℕ) → Untouched t s (put_newline s t y)
unfolding put_newline
putc_newline_Untouched s t y = ground arith

putc_printable_Untouched : (s : Tty) (t x y ch : ℕ) → Untouched t s (put_printable s t x y ch)
unfolding put_printable
putc_printable_Untouched s t x y ch = ground arith

cursor_Untouched : (s : Tty) (t x y : ℕ) → Untouched t s (set_hardware_cursor s t x y)
unfolding set_hardware_cursor
cursor_Untouched s t x y = ground arith

-- `putc_internal` on a terminal changes neither the input side, nor the memory, nor any other
-- array of words than that terminal's, nor another terminal's cursor.
pub putc-Untouched : (s : Tty) (t ch : ℕ) → Untouched t s (putc_internal s t ch)
unfolding putc_internal
putc-Untouched s t ch = if_keeps (Untouched t s) (ch == 8) (putc_backspace_Untouched s t _ _) (
    if_keeps (Untouched t s) (ch == 10) (putc_newline_Untouched s t _) (
      if_keeps (Untouched t s) (ch == 9) (cursor_Untouched s t _ _)
        (putc_printable_Untouched s t _ _ ch)))

pub clear-Untouched : (s : Tty) (t : ℕ) → Untouched t s (clear_terminal s t)
unfolding clear_terminal
clear-Untouched s t = ground arith

-- Two wired terminals write to different arrays.
wired_apart :
    (s : Tty) (t u : ℕ)
    → IsWired s
    → t < 3
    → u < 3
    → t ≢ u
    → same_video (s.video_memory t) (s.video_memory u) ≡ false
wired_apart s t u w l k n = ground (arith, w.wired t l, w.wired u k)

-- Output to one wired terminal, and clearing it, change nothing of what another shows.
pub others_keep :
    (s : Tty) (t u ch : ℕ)
    → IsWired s
    → t < 3
    → u < 3
    → t ≢ u
    → (words_of (putc_internal s t ch) u ≡ words_of s u)
      × (words_of (clear_terminal s t) u ≡ words_of s u)
others_keep s t u ch w l k n = (same _ (putc-Untouched s t ch), same _ (clear-Untouched s t))
  where
    same : (s' : Tty) → Untouched t s s' → words_of s' u ≡ words_of s u
    same s' f = rw f.video (f.others (s.video_memory u) (wired_apart s t u w l k n))
