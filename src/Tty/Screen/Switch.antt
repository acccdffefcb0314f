-- ===== src/Tty/Screen/Switch.antt =====
-- Switching terminals keeps what each terminal shows.
use psych_os.Base.{ℕ, ◌<◌, ◌≡◌, arith, ◌==◌, if◌then◌else◌}
use psych_os.Tty.State.{Tty, screen, backing}
use psych_os.Tty.Screen.{
  get_terminal_output_buffer, set_hardware_cursor, switch_active_terminal, words_of,
}

-- The pointers that `multiple_terminal_init` sets up: the active terminal writes to the screen,
-- the others to their own buffers.
pub record IsWired (s : Tty) : Type 0 where
  pub active : s.active_terminal < 3
  pub wired :
      (t : ℕ) → t < 3 → s.video_memory t ≡ (if t == s.active_terminal then screen else backing t)

-- Switching to a terminal keeps the wiring.
pub switch-IsWired : (s : Tty) (new : ℕ) → IsWired s → IsWired (switch_active_terminal s new)
unfolding switch_active_terminal set_hardware_cursor get_terminal_output_buffer
switch-IsWired s new w = record {
  active = ground (arith, w.active);
  wired = λ t l. ground (arith, w.wired t l, w.active);
}

-- On wired terminals `switch_active_terminal` to one of the three terminals makes it the active one and changes
-- nothing of what each of the three shows (the first 2048 words, the 80 x 25 of the screen among
-- them) nor where its cursor is.
pub switch_keeps :
    (s : Tty) (new t i : ℕ)
    → IsWired s
    → new < 3
    → t < 3
    → i < 2048
    → let s' = switch_active_terminal s new in
      (s'.active_terminal ≡ new)
      × (words_of s' t i ≡ words_of s t i)
      × (s'.cursor_x t ≡ s.cursor_x t)
      × (s'.cursor_y t ≡ s.cursor_y t)
unfolding switch_active_terminal set_hardware_cursor get_terminal_output_buffer
switch_keeps s new t i w n l k = ground (arith, w.wired t l, w.active)
