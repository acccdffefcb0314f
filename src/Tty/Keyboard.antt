-- ===== src/Tty/Keyboard.antt =====
-- `keyboard_handler` of terminal.c. What the controller has ready is a list of scancodes; the test
-- suite that Ctrl and a digit start is an argument, as is the address of the local buffer.
pub mod Keymap
pub mod Typing
use Prim.Native.Nat.{bit_or}
use psych_os.Base.{
  ℕ, zero, suc, ◌+◌, ◌-◌, ◌*◌, ◌%◌, Bool, true, false, not, ◌&&◌, ◌||◌, List, [], ◌∷◌, ◌++◌, ◌==◌,
  leb, ltb, if◌then◌else◌, update, bytes,
}
use psych_os.CircularBuffer.{circular_buffer_peek}
use psych_os.Pic.{eoi_bytes}
use psych_os.Tty.State.{Tty, keyboard_buffer_size, num_terminals}
use psych_os.Tty.Screen.{switch_active_terminal, clear_terminal}
use psych_os.Tty.Keys.{keyboard_putc}
use psych_os.Tty.Calls.{put_all}
use psych_os.Tty.Keyboard.Keymap.{keyboard_map}

abbrev pub held : Tty → ℕ → Bool
held s key = not (s.keyboard_state key == 0)

-- The character of a key, with the shift keys and caps lock as they are.
abbrev pub char_of : Tty → ℕ → ℕ
char_of s keycode =
    keyboard_map (bit_or (if held s 0x2a || held s 0x36 then 1 else 0) (s.caps_lock_status * 2))
      keycode

abbrev pub toggle_caps : Tty → ℕ → Tty
toggle_caps s keycode =
    if keycode == 0x3a
    then record s { caps_lock_status = if s.caps_lock_status == 0 then 1 else 0 }
    else s

abbrev run_tests : (ℕ → Tty → Tty) → Tty → Bool → ℕ → Tty
run_tests test_suite s ctrl ch =
    if ctrl && (leb b'1' ch && leb ch b'5') then test_suite (ch - b'0') s else s

abbrev switch_by_key : Tty → Bool → ℕ → Tty
switch_by_key s alt keycode =
    if alt && (leb 0x3b keycode && ltb keycode (0x3b + num_terminals))
    then switch_active_terminal s (keycode - 0x3b)
    else s

-- Ctrl and L: the screen is cleared, and the line typed so far written again.
unfoldable pub redraw : Tty → ℕ → ℕ → Tty
redraw s t current_buf =
    let (len, m) = circular_buffer_peek (s.input_buffer t) s.mem current_buf keyboard_buffer_size in
    put_all (bytes m current_buf len) (clear_terminal (record s { mem = m }) t) t

-- What a key does once it is marked as held, with Ctrl and Alt held or not.
unfoldable pub act_on_key : (ℕ → Tty → Tty) → ℕ → Tty → ℕ → ℕ → Bool → Bool → Tty
act_on_key test_suite current_buf s t keycode ctrl alt =
    let ch = char_of s keycode in
    let s1 = toggle_caps s keycode in
    let s2 = run_tests test_suite s1 ctrl ch in
    let s3 = switch_by_key s2 alt keycode in
    let s4 = if ctrl && (ch == b'l') then redraw s3 t current_buf else s3 in
    let typed = if ctrl || alt then 0 else ch in
    if ltb 0 typed then (keyboard_putc s4 t typed).1 else s4

-- The terminal while a key is held.
abbrev pub holding : Tty → ℕ → Tty
holding s keycode = record s { keyboard_state = update s.keyboard_state keycode 1 }

unfoldable pub key_pressed : (ℕ → Tty → Tty) → ℕ → Tty → ℕ → ℕ → Tty
unfolding act_on_key
key_pressed test_suite current_buf s t keycode =
    act_on_key test_suite current_buf (holding s keycode) t keycode (held (holding s keycode) 0x1d)
      (held (holding s keycode) 0x38)

-- One scancode: the escape code is dropped, and the top bit tells that a key is let go.
unfoldable pub handle_scancode : (ℕ → Tty → Tty) → ℕ → Tty → ℕ → ℕ → Tty
handle_scancode test_suite current_buf s t code =
    if code == 0xe1
    then s
    else if leb 128 code
    then record s { keyboard_state = update s.keyboard_state (code % 128) 0 }
    else key_pressed test_suite current_buf s t code

handle_all : (ℕ → Tty → Tty) → ℕ → Tty → ℕ → List ℕ → Tty
handle_all test_suite current_buf s t [] = s
handle_all test_suite current_buf s t (code ∷ codes) =
    handle_all test_suite current_buf (handle_scancode test_suite current_buf s t code) t codes

-- The terminal is the one that is active when the handler starts.
unfoldable pub keyboard_handler : (ℕ → Tty → Tty) → ℕ → Tty → List ℕ → Tty
unfolding handle_all
keyboard_handler test_suite current_buf s codes =
    let s' = handle_all test_suite current_buf s s.active_terminal codes in
    record s' { ports = s'.ports ++ eoi_bytes 1 }
