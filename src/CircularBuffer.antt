-- ===== src/CircularBuffer.antt =====
-- student-distrib/lib/circular_buffer.c and include/lib/circular_buffer.h: a ring of bytes over
-- caller-provided storage. Pointers are 32-bit addresses into one memory. A function that updates
-- `*buf` returns the new structure, one that writes bytes returns the new memory.
pub mod Inv
pub mod Put
pub mod Get
pub mod Ends
pub mod Find
mod Tests
use psych_os.Base.{
  ℕ, zero, suc, ◌+◌, ◌<◌, Bool, true, false, Option, none, some, Mem, store, add32, sub32, ltb, leb,
  ◌==◌, if◌then◌else◌,
}
use psych_os.Base.Int.{ℤ, pos, negsuc}

pub record CircularBuffer : Type 0 where
  pub max_len : ℕ
  pub current_len : ℕ
  pub data_start : ℕ
  pub data_end : ℕ
  pub head : ℕ
  pub tail : ℕ

unfoldable pub circular_buffer_init : ℕ → ℕ → CircularBuffer
circular_buffer_init data_buf max_len = record {
  max_len = max_len;
  current_len = 0;
  data_start = data_buf;
  data_end = add32 data_buf max_len;
  head = data_buf;
  tail = data_buf;
}

unfoldable pub circular_buffer_clear : CircularBuffer → CircularBuffer
circular_buffer_clear b = record b { current_len = 0; head = b.data_start; tail = b.data_start }

-- `p++; if(p >= stop) p = start;`
abbrev pub next_in : ℕ → ℕ → ℕ → ℕ
next_in start stop p = if leb stop (add32 p 1) then start else add32 p 1

abbrev pub next : CircularBuffer → ℕ → ℕ
next b p = next_in b.data_start b.data_end p

-- `p - 1`, or the last address of the storage below its start.
abbrev pub previous : CircularBuffer → ℕ → ℕ
previous b p = if ltb (sub32 p 1) b.data_start then sub32 b.data_end 1 else sub32 p 1

-- The first argument counts the rounds left.
put_loop : ℕ → CircularBuffer → Mem → ℕ → CircularBuffer × Mem
put_loop zero b m input = (b, m)
put_loop (suc n) b m input =
    put_loop n (record b { tail = next b b.tail }) (store m b.tail (m input)) (add32 input 1)

unfoldable pub circular_buffer_put : CircularBuffer → Mem → ℕ → ℕ → ℕ × CircularBuffer × Mem
unfolding put_loop
circular_buffer_put b m input_buf len =
    let len' =
      if ltb b.max_len (add32 b.current_len len) then sub32 b.max_len b.current_len else len in
    let (b', m') = put_loop len' b m input_buf in
    (len', record b' { current_len = add32 b'.current_len len' }, m')

-- The loop of `get` and of `peek`: bytes from `addr` round the ring go to `out`.
copy_out : ℕ → CircularBuffer → Mem → ℕ → ℕ → ℕ × Mem
copy_out zero b m addr out = (addr, m)
copy_out (suc n) b m addr out = copy_out n b (store m out (m addr)) (next b addr) (add32 out 1)

abbrev pub capped : CircularBuffer → ℕ → ℕ
capped b len = if ltb b.current_len len then b.current_len else len

unfoldable pub circular_buffer_get : CircularBuffer → Mem → ℕ → ℕ → ℕ × CircularBuffer × Mem
unfolding copy_out
circular_buffer_get b m output_buf len =
    let len' = capped b len in
    let (head', m') = copy_out len' b m b.head output_buf in
    (len', record b { head = head'; current_len = sub32 b.current_len len' }, m')

unfoldable pub circular_buffer_peek : CircularBuffer → Mem → ℕ → ℕ → ℕ × Mem
unfolding copy_out
circular_buffer_peek b m output_buf len =
    let len' = capped b len in let (_, m') = copy_out len' b m b.head output_buf in (len', m')

unfoldable pub circular_buffer_put_byte : CircularBuffer → Mem → ℕ → ℕ × CircularBuffer × Mem
circular_buffer_put_byte buf m b = if leb buf.max_len buf.current_len then (0, buf, m) else (
  1,
  record buf { tail = next buf buf.tail; current_len = add32 buf.current_len 1 },
  store m buf.tail b,
)

-- The option is what goes through `b`.
unfoldable pub circular_buffer_get_byte : CircularBuffer → Mem → ℕ × Option ℕ × CircularBuffer
circular_buffer_get_byte buf m = if buf.current_len == 0 then (0, none, buf) else (
  1,
  some (m buf.head),
  record buf { head = next buf buf.head; current_len = sub32 buf.current_len 1 },
)

unfoldable pub circular_buffer_peek_end_byte : CircularBuffer → Mem → ℕ × Option ℕ
circular_buffer_peek_end_byte buf m =
    if buf.current_len == 0 then (0, none) else (1, some (m (previous buf buf.tail)))

unfoldable pub circular_buffer_remove_end_byte : CircularBuffer → ℕ × CircularBuffer
circular_buffer_remove_end_byte buf =
    if buf.current_len == 0
    then (0, buf)
    else (1, record buf { tail = previous buf buf.tail; current_len = sub32 buf.current_len 1 })

-- The first argument counts the rounds left, `len` those done.
find_loop : ℕ → CircularBuffer → Mem → ℕ → ℕ → ℕ → ℤ
find_loop zero b m val addr len = negsuc 0
find_loop (suc n) b m val addr len =
    let rest = find_loop n b m val (next b addr) (len + 1) in
    if m addr == val then pos len else rest

unfoldable pub circular_buffer_find : CircularBuffer → Mem → ℕ → ℤ
unfolding find_loop
circular_buffer_find b m val = find_loop b.current_len b m val b.head 0

unfoldable pub circular_buffer_len : CircularBuffer → ℕ
circular_buffer_len b = b.current_len
