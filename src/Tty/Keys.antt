-- ===== src/Tty/Keys.antt =====
-- `keyboard_putc` of terminal.c: line editing on the input buffer, with its echo.
pub mod Line
use Prim.Native.Nat.{bit_and}
use psych_os.Base.{
  ℕ, zero, suc, ◌+◌, Bool, Option, none, some, Mem, ◌==◌, ltb, leb, if◌then◌else◌, update, add8,
  sub8, ◌-◌,
}
use psych_os.CircularBuffer.{
  CircularBuffer, circular_buffer_len, circular_buffer_put_byte, circular_buffer_peek_end_byte,
  circular_buffer_remove_end_byte,
}
use psych_os.Tty.State.{Tty, keyboard_buffer_size, newline, backspace, tab}
use psych_os.Tty.Screen.{putc_internal}

abbrev pub spaces_in_tab : ℕ
spaces_in_tab = 4

-- The echo of one character a number of times.
unfoldable pub echo : ℕ → Tty → ℕ → ℕ → Tty
echo zero s t ch = s
echo (suc n) s t ch = echo n (putc_internal s t ch) t ch

-- How many cases of the first `switch` run, and of the second: both fall through.
abbrev pub backspaces_at : ℕ → ℕ
backspaces_at pos = if pos == 0 then 4 else if leb pos 3 then pos else 0

abbrev pub spaces_at : ℕ → ℕ
spaces_at pos =
    if pos == 0
    then 4
    else if pos == 1
    then 3
    else if pos == 2
    then 2
    else if pos == 3
    then 1
    else 0

abbrev pub byte_or : Option ℕ → ℕ → ℕ
byte_or none d = d
byte_or (some b) d = b

-- One byte into the input buffer of a terminal.
unfoldable pub buffer_byte : Tty → ℕ → ℕ → Tty
buffer_byte s t ch =
    let (_, b, m) = circular_buffer_put_byte (s.input_buffer t) s.mem ch in
    record s { input_buffer = update s.input_buffer t b; mem = m }

unfoldable pub unbuffer_byte : Tty → ℕ → Tty
unbuffer_byte s t =
    let (_, b) = circular_buffer_remove_end_byte (s.input_buffer t) in
    record s { input_buffer = update s.input_buffer t b }

unfoldable pub erase_key : Tty → ℕ → ℕ × Tty
erase_key s t =
    let last_ch = byte_or (circular_buffer_peek_end_byte (s.input_buffer t) s.mem).1 0 in
    let s1 = unbuffer_byte s t in
    let pos = sub8 (s1.cursor_x t) (bit_and (s1.cursor_x t) spaces_in_tab) in
    if circular_buffer_len (s.input_buffer t) == 0
    then (0, s)
    else if last_ch == newline
    then (0, s)
    else (1, echo (if last_ch == tab then backspaces_at pos else 1) s1 t backspace)

unfoldable pub enter_key : Tty → ℕ → ℕ × Tty
enter_key s t =
    let s1 = putc_internal (buffer_byte s t newline) t newline in
    if leb keyboard_buffer_size (circular_buffer_len (s.input_buffer t)) then (0, s) else (
      1,
      record s1 { new_line_ready = update s1.new_line_ready t (add8 (s1.new_line_ready t) 1) },
    )

-- A tab, or a printable key.
unfoldable pub type_key : Tty → ℕ → ℕ → ℕ × Tty
type_key s t ch =
    let s1 = buffer_byte s t ch in
    let pos = bit_and (s1.cursor_x t) spaces_in_tab in
    if ltb (circular_buffer_len (s.input_buffer t)) (keyboard_buffer_size - 1)
    then (1, if ch == tab then echo (spaces_at pos) s1 t 32 else putc_internal s1 t ch)
    else (0, s)

unfoldable pub keyboard_putc : Tty → ℕ → ℕ → ℕ × Tty
keyboard_putc s t ch =
    if ch == backspace
    then erase_key s t
    else if ch == newline
    then enter_key s t
    else if ch == 0
    then (1, s)
    else type_key s t ch
