-- ===== src/Printf.antt =====
-- printf and puts of student-distrib/lib/lib.c. `m` is the memory that strings are read from,
-- `args` the words above the format on the stack, `conv_buf` what the buffer on the stack holds
-- before it is written. Output goes through `putc`. A loop up to a NUL takes fuel.
pub mod Puts
pub mod Padding
pub mod Numbers
pub mod Pieces
pub mod Format
pub mod Calls
pub mod Laid
pub mod Asked
pub mod Said
pub mod Checked
mod Tests
use psych_os.Base.{
  ℕ, zero, suc, ◌+◌, ◌-◌, ◌%◌, ◌^◌, Bool, true, false, Option, none, some, List, [], ◌∷◌, Mem,
  store, ltb, leb, ◌==◌, if◌then◌else◌,
}
use psych_os.Str.{strlen, itoa}
use psych_os.Tty.State.{Tty}
use psych_os.Tty.Screen.{putc}

puts_from : ℕ → Tty → Mem → ℕ → ℕ → Option (ℕ × Tty)
puts_from zero s str at index = none
puts_from (suc fuel) s str at index =
    let rest = puts_from fuel (putc s (str (at + index))) str at (index + 1) in
    if str (at + index) == 0 then some (index, s) else rest

-- The string begins `at` bytes behind the start of `str`.
unfoldable pub puts : ℕ → Tty → Mem → ℕ → Option (ℕ × Tty)
unfolding puts_from
puts fuel s str at = puts_from fuel s str at 0

pub effect : Option (ℕ × Tty) → Option Tty
effect none = none
effect (some (written, s)) = some s

-- `puts` of a buffer that may be missing, for its effect.
pub put_string : ℕ → Tty → Option Mem → ℕ → Option Tty
unfolding effect
put_string fuel s none at = none
put_string fuel s (some str) at = effect (puts fuel s str at)

-- `front` up to the offset, and `back` from there on.
abbrev pub joined_at : ℕ → Mem → Mem → Mem
joined_at offset front back x = if ltb x offset then front x else back (x - offset)

-- `while(i < 8)`
pub fill_zeros : ℕ → Mem → ℕ → Mem
fill_zeros zero buf i = buf
fill_zeros (suc n) buf i = fill_zeros n (store buf i b'0') (i + 1)

-- The digits stand from offset 8 on; as many bytes in front of them are used as `i` lacks of 8.
padded_from : Tty → Mem → Mem → Option ℕ → Option Tty
unfolding fill_zeros put_string
padded_from s conv_buf digits none = none
padded_from s conv_buf digits (some i) =
    put_string 64 s (some (fill_zeros (8 - i) (joined_at 8 conv_buf digits) i)) i

padded : Tty → Mem → Option Mem → Option Tty
unfolding padded_from
padded s conv_buf none = none
padded s conv_buf (some digits) = padded_from s conv_buf digits (strlen 33 digits)

pub print_hex : Tty → Mem → Bool → ℕ → Option Tty
unfolding padded put_string
print_hex s conv_buf false value = put_string 33 s (itoa 33 value conv_buf 16) 0
print_hex s conv_buf true value = padded s conv_buf (itoa 33 value (λ i. conv_buf (8 + i)) 16)

pub print_unsigned : Tty → Mem → ℕ → Option Tty
unfolding put_string
print_unsigned s conv_buf value = put_string 33 s (itoa 33 value conv_buf 10) 0

negated : Mem → Option Mem → Option Mem
negated conv_buf none = none
negated conv_buf (some digits) = some (joined_at 1 (store conv_buf 0 b'-') digits)

pub print_signed : Tty → Mem → ℕ → Option Tty
unfolding put_string negated
print_signed s conv_buf value =
    if leb (2 ^ 31) value
    then put_string 34 s (negated conv_buf (itoa 33 (2 ^ 32 - value) (λ i. conv_buf (1 + i)) 10)) 0
    else put_string 33 s (itoa 33 value conv_buf 10) 0

-- A conversion has used the next word of the stack where it printed it.
used : ℕ → Option Tty → Option (Tty × ℕ)
used esp none = none
used esp (some s) = some (s, esp + 1)

-- What follows `%`: text is being copied, or a specifier is awaited, perhaps after a `#`.
pub data Mode : Type 0 where
  copying : Mode
  specifier : (alternate : Bool) → Mode

module _ (strings : ℕ) (m args conv_buf : Mem) where
  convert : Bool → ℕ → Tty → ℕ → Option (Tty × ℕ)
  unfolding used print_hex print_unsigned print_signed put_string
  convert alternate c s esp =
      if c == b'%'
      then some (putc s b'%', esp)
      else if c == b'x'
      then used esp (print_hex s conv_buf alternate (args esp))
      else if c == b'u'
      then used esp (print_unsigned s conv_buf (args esp))
      else if c == b'd'
      then used esp (print_signed s conv_buf (args esp))
      else if c == b'c'
      then some (putc s (args esp % 256), esp + 1)
      else if c == b's'
      then used esp (put_string strings s (some m) (args esp))
      else some (s, esp)

  resume : Option (Tty × ℕ) → (Tty → ℕ → Option (ℕ × Tty)) → Option (ℕ × Tty)
  resume none k = none
  resume (some (s, esp)) k = k s esp

  -- The address that the scan ends at, and the terminals.
  printf_from : ℕ → Mode → ℕ → Tty → ℕ → Option (ℕ × Tty)
  unfolding convert resume
  printf_from zero mode buf s esp = none
  printf_from (suc fuel) copying buf s esp =
      let copied = printf_from fuel copying (buf + 1) (putc s (m buf)) esp in
      let conversion = printf_from fuel (specifier false) (buf + 1) s esp in
      if m buf == 0 then some (buf, s) else if m buf == b'%' then conversion else copied
  printf_from (suc fuel) (specifier alternate) buf s esp =
      let alternated = printf_from fuel (specifier true) (buf + 1) s esp in
      let converted =
        resume (convert alternate (m buf) s esp) (printf_from fuel copying (buf + 1)) in
      if m buf == b'#' then alternated else converted

  length_from : ℕ → Option (ℕ × Tty) → Option (ℕ × Tty)
  length_from format none = none
  length_from format (some (buf, s)) = some (buf - format, s)

  -- Fuel for the format, and `strings` for each `%s`.
  pub printf : ℕ → Tty → ℕ → Option (ℕ × Tty)
  unfolding printf_from length_from
  printf fuel s format = length_from format (printf_from fuel copying format s 0)
