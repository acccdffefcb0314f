-- ===== src/Tty/State.antt =====
-- The static variables of terminal.c, and the constants of include/tty/terminal.h.
use psych_os.Base.{ℕ, Bool, true, false, Mem, List, ◌==◌, if◌then◌else◌}
use psych_os.CircularBuffer.{CircularBuffer}

abbrev pub num_terminals : ℕ
num_terminals = 3

abbrev pub keyboard_buffer_size : ℕ
keyboard_buffer_size = 128

abbrev pub terminal_columns : ℕ
terminal_columns = 80

abbrev pub terminal_rows : ℕ
terminal_rows = 25

-- `TERMINAL_FOREGROUND_COLOR | TERMINAL_BACKGROUND_COLOR`
abbrev pub color : ℕ
color = 0x0f00

abbrev pub newline : ℕ
newline = 10

abbrev pub backspace : ℕ
backspace = 8

abbrev pub tab : ℕ
tab = 9

-- Where a pointer into video memory leads: physical video memory, a terminal's output buffer, or
-- the virtual address that `video_memory[0]` has before the terminals are set up.
pub data Video : Type 0 where
  screen : Video
  backing : ℕ → Video
  virtual : Video

abbrev pub same_video : Video → Video → Bool
same_video screen screen = true
same_video screen (backing j) = false
same_video screen virtual = false
same_video (backing i) screen = false
same_video (backing i) (backing j) = i == j
same_video (backing i) virtual = false
same_video virtual screen = false
same_video virtual (backing j) = false
same_video virtual virtual = true

pub record Tty : Type 0 where
  pub keyboard_state : ℕ → ℕ
  pub caps_lock_status : ℕ
  pub input_buffer_internal : ℕ → ℕ
  pub input_buffer : ℕ → CircularBuffer
  pub new_line_ready : ℕ → ℕ
  pub words : Video → Mem
  pub cursor_x : ℕ → ℕ
  pub cursor_y : ℕ → ℕ
  pub active_terminal : ℕ
  pub video_memory : ℕ → Video
  pub single_terminal : ℕ
  pub ports : List (ℕ × ℕ)
  pub mem : Mem

-- The words of one array replaced.
abbrev pub with_words : (Video → Mem) → Video → Mem → Video → Mem
with_words words v w u = if same_video v u then w else words u
