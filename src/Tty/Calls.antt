-- ===== src/Tty/Calls.antt =====
-- The terminal calls of terminal.c. The terminal of the calling process is an argument, which is 0
-- while `single_terminal` is set; `enable_irq` acts on the interrupt controller and not here.
pub mod Reading
pub mod Writing
use psych_os.Base.{
  ℕ, zero, suc, ◌+◌, ◌-◌, ◌^◌, Bool, Option, none, some, List, [], ◌∷◌, Mem, ◌==◌, leb, ltb,
  if◌then◌else◌, update, bytes, add32, sub8,
}
use psych_os.Base.Int.{ℤ, pos, negsuc}
use psych_os.CircularBuffer.{
  CircularBuffer, circular_buffer_init, circular_buffer_clear, circular_buffer_find,
  circular_buffer_get,
}
use psych_os.Tty.State.{Tty, keyboard_buffer_size, num_terminals, newline}
use psych_os.Tty.Screen.{
  get_terminal_output_buffer, clear_terminal, set_hardware_cursor, putc_internal,
}

-- The first argument is the terminal of the process.
unfoldable pub get_process_terminal : ℕ → Tty → ℕ
get_process_terminal terminal_num s = if s.single_terminal == 0 then terminal_num else 0

abbrev with_buffer : Tty → ℕ → CircularBuffer → Tty
with_buffer s t b = record s { input_buffer = update s.input_buffer t b }

unfoldable pub reset_terminal : Tty → ℕ → Tty
reset_terminal s t =
    let s1 =
      clear_terminal
        (with_buffer s t (circular_buffer_init (s.input_buffer_internal t) keyboard_buffer_size))
        t in
    set_hardware_cursor (record s1 { new_line_ready = update s1.new_line_ready t 0 }) t 0 0

-- The terminals from `i` on, with `n` still to come.
init_terminals : ℕ → Tty → ℕ → Tty
init_terminals zero s i = s
init_terminals (suc n) s i =
    init_terminals n
      (reset_terminal
        (record s { video_memory = update s.video_memory i (get_terminal_output_buffer s i) }) i)
      (i + 1)

unfoldable pub multiple_terminal_init : Tty → Tty
unfolding init_terminals
multiple_terminal_init s = record (init_terminals num_terminals s 0) { single_terminal = 0 }

unfoldable pub terminal_open : Tty → ℕ → ℕ × Tty
terminal_open s t = (
  0,
  clear_terminal
      (with_buffer s t (circular_buffer_init (s.input_buffer_internal t) keyboard_buffer_size)) t,
)

unfoldable pub terminal_close : Tty → ℕ → ℕ × Tty
terminal_close s t = (0, with_buffer s t (circular_buffer_clear (s.input_buffer t)))

-- The wait for a line: what the interrupts do that end a `hlt`, as far as they are needed, and none
-- if they run out.
wait_for_line : List (Tty → Tty) → Tty → ℕ → Option Tty
wait_for_line [] s t = if s.new_line_ready t == 0 then none else some s
wait_for_line (interrupt ∷ later) s t =
    let rest = wait_for_line later (interrupt s) t in
    if s.new_line_ready t == 0 then rest else some s

-- `int32_t` to `uint32_t`.
abbrev pub unsigned32 : ℤ → ℕ
unsigned32 (pos n) = n
unsigned32 (negsuc n) = 2 ^ 32 - 1 - n

-- What follows the wait. The comparison is one of `uint32_t`, as `nbytes` is converted for it.
unfoldable pub take_line : Tty → ℕ → ℕ → ℕ → ℕ × Tty
take_line s t buf nbytes =
    let max_len = add32 (unsigned32 (circular_buffer_find (s.input_buffer t) s.mem newline)) 1 in
    let nbytes' = if ltb max_len nbytes then max_len else nbytes in
    let (retval, b, m) = circular_buffer_get (s.input_buffer t) s.mem buf nbytes' in
    (
      retval,
      record s {
        input_buffer = update s.input_buffer t b;
        mem = m;
        new_line_ready = update s.new_line_ready t (sub8 (s.new_line_ready t) 1);
      },
    )

after_wait : ℕ → ℕ → ℕ → Option Tty → Option (ℕ × Tty)
after_wait t buf nbytes none = none
after_wait t buf nbytes (some s) = some (take_line s t buf nbytes)

-- The call blocks, as `none`, where the interrupts bring no line.
unfoldable pub terminal_read : List (Tty → Tty) → Tty → ℕ → ℕ → ℕ → Option (ℕ × Tty)
unfolding wait_for_line after_wait
terminal_read interrupts s t buf nbytes = after_wait t buf nbytes (wait_for_line interrupts s t)

unfoldable pub put_all : List ℕ → Tty → ℕ → Tty
put_all [] s t = s
put_all (ch ∷ rest) s t = put_all rest (putc_internal s t ch) t

-- A negative `nbytes`, as its 32-bit pattern, writes nothing.
unfoldable pub terminal_write : Tty → ℕ → ℕ → ℕ → ℕ × Tty
unfolding put_all
terminal_write s t buf nbytes =
    (nbytes, if leb (2 ^ 31) nbytes then s else put_all (bytes s.mem buf nbytes) s t)
