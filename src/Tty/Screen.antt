-- ===== src/Tty/Screen.antt =====
-- The functions of terminal.c that write to video memory and move the cursor.
pub mod Switch
pub mod Cursor
pub mod Frame
use Prim.Native.Nat.{bit_or}
use psych_os.Base.{
  ℕ, zero, suc, ◌+◌, ◌-◌, ◌*◌, ◌/◌, ◌%◌, ◌^◌, Bool, true, false, Mem, List, [], ◌∷◌, ◌++◌, ◌==◌,
  ltb, leb, if◌then◌else◌, update, add8, sub8, ◌&&◌,
}
use psych_os.Tty.State.{
  Tty, Video, screen, backing, virtual, with_words, num_terminals, terminal_columns, terminal_rows,
  color, newline, backspace, tab,
}

unfoldable pub get_terminal_output_buffer : Tty → ℕ → Video
get_terminal_output_buffer s terminal_num =
    if terminal_num == s.active_terminal then screen else backing terminal_num

-- `VIDEO_INDEX(x, y)` as a `uint16_t`.
abbrev pub video_index : ℕ → ℕ → ℕ
video_index x y = (y * terminal_columns + x) % 2 ^ 16

unfoldable pub set_hardware_cursor : Tty → ℕ → ℕ → ℕ → Tty
set_hardware_cursor s terminal_num x y =
    let index = video_index x y in
    record s {
      cursor_x = update s.cursor_x terminal_num x;
      cursor_y = update s.cursor_y terminal_num y;
      ports =
          if terminal_num == s.active_terminal
          then s.ports
            ++ ((0x3d4, 14) ∷ (0x3d5, index / 2 ^ 8) ∷ (0x3d4, 15) ∷ (0x3d5, index % 2 ^ 8) ∷ [])
          else s.ports;
    }

-- `memcpy` of `FOUR_KB_ALIGNED` bytes, which are 2048 words.
abbrev pub copy_words : Mem → Mem → Mem
copy_words dest src i = if ltb i 2048 then src i else dest i

unfoldable pub switch_active_terminal : Tty → ℕ → Tty
unfolding get_terminal_output_buffer set_hardware_cursor
switch_active_terminal s new_terminal =
    let old_terminal = s.active_terminal in
    let saved =
      with_words s.words (backing old_terminal)
        (copy_words (s.words (backing old_terminal)) (s.words screen)) in
    let s1 : Tty = record s { words = saved; active_terminal = new_terminal } in
    let s2 : Tty = record s1 {
      video_memory =
          update (update s.video_memory old_terminal (get_terminal_output_buffer s1 old_terminal))
            new_terminal (get_terminal_output_buffer s1 new_terminal);
      words = with_words saved screen (copy_words (saved screen) (saved (backing new_terminal)));
    } in
    if ltb new_terminal num_terminals
    then set_hardware_cursor s2 new_terminal (s2.cursor_x new_terminal) (s2.cursor_y new_terminal)
    else s

-- A write through `video_memory[terminal_num]`.
abbrev pub write_words : Tty → ℕ → Mem → Tty
write_words s terminal_num w = record s {
  words = with_words s.words (s.video_memory terminal_num) w;
}

abbrev pub words_of : Tty → ℕ → Mem
words_of s terminal_num = s.words (s.video_memory terminal_num)

abbrev pub blank_word : ℕ
blank_word = bit_or 32 color

unfoldable pub video_buffer_putc : Tty → ℕ → ℕ → ℕ → ℕ → Tty
video_buffer_putc s terminal_num x y ch =
    write_words s terminal_num
      (update (words_of s terminal_num) (video_index x y) (bit_or ch color))

-- `memmove` of all rows but the first to the front, and `memset_word` on the last row.
abbrev pub scrolled : Mem → Mem
scrolled w i =
    if ltb i (terminal_columns * (terminal_rows - 1))
    then w (i + terminal_columns)
    else if ltb i (terminal_columns * terminal_rows)
    then blank_word
    else w i

unfoldable pub scroll_screen : Tty → ℕ → Tty
scroll_screen s terminal_num = write_words s terminal_num (scrolled (words_of s terminal_num))

-- The cursor's row after a line feed, and the screen scrolled if it was the last.
unfoldable pub line_feed : Tty → ℕ → ℕ → Tty × ℕ
unfolding scroll_screen
line_feed s terminal_num cursor_y =
    if leb terminal_rows cursor_y
    then (scroll_screen s terminal_num, terminal_rows - 1)
    else (s, cursor_y)

-- The branches of `putc_internal` at cursor (x, y).
unfoldable pub put_backspace : Tty → ℕ → ℕ → ℕ → Tty
unfolding video_buffer_putc set_hardware_cursor
put_backspace s t x y =
    let x' = sub8 (if x == 0 then terminal_columns else x) 1 in
    let y' = if x == 0 then sub8 y 1 else y in
    set_hardware_cursor (video_buffer_putc s t x' y' 32) t x' y'

unfoldable pub put_newline : Tty → ℕ → ℕ → Tty
unfolding line_feed set_hardware_cursor
put_newline s t y = let (s', y') = line_feed s t (add8 y 1) in set_hardware_cursor s' t 0 y'

unfoldable pub put_printable : Tty → ℕ → ℕ → ℕ → ℕ → Tty
unfolding video_buffer_putc line_feed set_hardware_cursor
put_printable s t x y ch =
    let s1 = video_buffer_putc s t x y ch in
    let (s', y') = line_feed s1 t (add8 y 1) in
    if leb terminal_columns (add8 x 1)
    then set_hardware_cursor s' t 0 y'
    else set_hardware_cursor s1 t (add8 x 1) y

unfoldable pub putc_internal : Tty → ℕ → ℕ → Tty
putc_internal s t ch =
    let x = s.cursor_x t in
    let y = s.cursor_y t in
    if ch == backspace
    then put_backspace s t x y
    else if ch == newline
    then put_newline s t y
    else if ch == tab
    then set_hardware_cursor s t x y
    else put_printable s t x y ch

unfoldable pub putc : Tty → ℕ → Tty
unfolding putc_internal
putc s ch = putc_internal s 0 ch

unfoldable pub clear_terminal : Tty → ℕ → Tty
unfolding set_hardware_cursor
clear_terminal s terminal_num =
    let w = words_of s terminal_num in
    set_hardware_cursor
      (write_words s terminal_num
        (λ i. if ltb i (terminal_columns * terminal_rows) then blank_word else w i))
      terminal_num 0 0
