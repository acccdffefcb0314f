-- ===== src/Tty/Tests.antt =====
-- Three terminals with the first one active, whose typed line is "hi" and a line feed.
use psych_os.Base.{
  some, bytes, inr, ℕ, ◌+◌, ◌*◌, ◌≡◌, inl, refl, arith, Mem, List, [], ◌∷◌, ◌==◌, if◌then◌else◌,
}
use psych_os.CircularBuffer.{CircularBuffer}
use psych_os.CircularBuffer.Inv.{IsValid}
use psych_os.Tty.State.{Tty, screen, backing, newline}
use psych_os.Tty.Screen.{switch_active_terminal, putc_internal, words_of, blank_word}
use psych_os.Tty.Screen.Switch.{IsWired, switch_keeps}
use psych_os.Tty.Screen.Cursor.{OnScreen, display, emit, putc_refines, putc_falls_off}
use psych_os.CircularBuffer.Inv.{IsApart}
use psych_os.Tty.Keys.{keyboard_putc}
use psych_os.Tty.Calls.{terminal_read}
use psych_os.Tty.Calls.Reading.{terminal_read_lem}
use psych_os.Tty.Keyboard.{handle_scancode}
use psych_os.Tty.Keyboard.Typing.{IsPlain, key_pressed_lem}
use psych_os.Tty.Keys.Line.{Holds, keyboard_putc_lem}

-- The bytes from 5000 on are "hi" and a line feed.
abbrev memory : Mem
memory a = if a == 5000 then b'h' else if a == 5001 then b'i' else if a == 5002 then newline else 0

abbrev line : List ℕ
line = b'h' ∷ b'i' ∷ newline ∷ []

abbrev empty_buffer : ℕ → CircularBuffer
empty_buffer t = record {
  max_len = 128;
  current_len = 0;
  data_start = 5000 + 128 * t;
  data_end = 5128 + 128 * t;
  head = 5000 + 128 * t;
  tail = 5000 + 128 * t;
}

abbrev line_buffer : CircularBuffer
line_buffer = record {
  max_len = 128;
  current_len = 3;
  data_start = 5000;
  data_end = 5128;
  head = 5000;
  tail = 5003;
}

abbrev terminals : Tty
terminals = record {
  keyboard_state = λ k. 0;
  caps_lock_status = 0;
  input_buffer_internal = λ t. 5000 + 128 * t;
  input_buffer = λ t. if t == 0 then line_buffer else empty_buffer t;
  new_line_ready = λ t. if t == 0 then 1 else 0;
  words = λ v i. blank_word;
  cursor_x = λ t. if t == 0 then 79 else 0;
  cursor_y = λ t. if t == 0 then 24 else 0;
  active_terminal = 0;
  video_memory = λ t. if t == 0 then screen else backing t;
  single_terminal = 0;
  ports = [];
  mem = memory;
}

line-IsValid : IsValid line_buffer
line-IsValid = record {
  nonnull = omega arith;
  storage = refl;
  fits = omega arith;
  head_from = omega arith;
  head_in = omega arith;
  tail_from = omega arith;
  tail_in = omega arith;
  bounded = omega arith;
  behind = inl refl;
}

terminals-Holds : Holds terminals 0 line
terminals-Holds = record { valid = line-IsValid; size = refl; holds = refl; lines = refl }

terminals-IsWired : IsWired terminals
terminals-IsWired = record { active = omega arith; wired = λ t l. refl }

corner-OnScreen : OnScreen terminals 0
corner-OnScreen = record { column = omega arith; row = omega arith }

switch_example :
    let s' = switch_active_terminal terminals 2 in
    (s'.active_terminal ≡ 2)
    × (words_of s' 0 7 ≡ blank_word)
    × (s'.cursor_x 0 ≡ 79)
    × (s'.cursor_y 0 ≡ 24)
switch_example =
    switch_keeps terminals 2 0 7 terminals-IsWired (omega arith) (omega arith) (omega arith)

putc_example :
    (display (putc_internal terminals 0 b'x') 0 ≡ emit b'x' (display terminals 0))
    × OnScreen (putc_internal terminals 0 b'x') 0
putc_example = putc_refines terminals 0 b'x' corner-OnScreen (λ (e, _, _). absurd (omega arith))

falls_off_example :
    (words_of (putc_internal terminals 1 8) 1 20479 ≡ blank_word)
    × ((putc_internal terminals 1 8).cursor_y 1 ≡ 255)
    × ((putc_internal terminals 1 8).cursor_x 1 ≡ 79)
falls_off_example = putc_falls_off terminals 1 refl refl

keyboard_putc_example :
    ((keyboard_putc terminals 0 b'!').0 ≡ 1)
    × Holds (keyboard_putc terminals 0 b'!').1 0 (b'h' ∷ b'i' ∷ newline ∷ b'!' ∷ [])
keyboard_putc_example = keyboard_putc_lem terminals 0 b'!' line terminals-Holds

user_buffer : IsApart line_buffer 9000 3
user_buffer = record { fits = omega arith; apart = inr (omega arith) }

terminal_read_example :
    (n : ℕ) × (s' : Tty) × (terminal_read [] terminals 0 9000 100 ≡ some (n, s'))
    × (n ≡ 3)
    × (bytes s'.mem 9000 n ≡ line)
    × Holds s' 0 []
terminal_read_example =
    terminal_read_lem terminals 0 9000 100 (b'h' ∷ b'i' ∷ []) [] terminals-Holds refl (omega arith)
      user_buffer []

-- The key "A" has the scancode 30.
a_key-IsPlain : IsPlain terminals 30
a_key-IsPlain = record {
  ctrl = refl;
  alt = refl;
  not_ctrl = λ e. absurd (omega arith);
  not_alt = λ e. absurd (omega arith);
  key = omega arith;
}

key_pressed_example :
    Holds (handle_scancode (λ n s. s) 8000 terminals 0 30) 0 (b'h' ∷ b'i' ∷ newline ∷ b'a' ∷ [])
key_pressed_example =
    key_pressed_lem (λ n s. s) 8000 terminals 0 30 line terminals-Holds a_key-IsPlain
