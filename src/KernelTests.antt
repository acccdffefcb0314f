-- ===== src/KernelTests.antt =====
-- student-distrib/kernel/tests.c: what Ctrl and a digit start from the keyboard.
pub mod Listing
pub mod Ticking
mod Tests
use psych_os.Base.{
  Bool, true, false, ℕ, zero, suc, ◌+◌, ◌*◌, ◌-◌, ◌/◌, ◌%◌, ◌^◌, Option, none, some, List, [], ◌∷◌,
  Mem, store, ltb, leb, ◌==◌, if◌then◌else◌, length, get_or,
}
use psych_os.Str.Text.{text}
use psych_os.Fs.Image.{Dentry, FileSystem}
use psych_os.Fs.Driver.{read_dentry_by_index, read_dentry_by_name, read_data, get_file_size}
use psych_os.Tty.State.{Tty}
use psych_os.Tty.Screen.{putc, clear_terminal}
use psych_os.Tty.Calls.{terminal_write, terminal_close}
use psych_os.Printf.Calls.{codes, Arg, num, PrintCall, print_calls}
use psych_os.Process.State.{Kernel}
use psych_os.Process.Clock.{set_rtc_test_enabled, rtc_open, rtc_write, rtc_close}

-- The kernel with the static variables of the tests.
pub record Suite : Type 0 where
  pub kernel : Kernel
  pub htz : ℕ
  pub index_num : ℕ

-- `file_name` as a string: the 32 bytes of the entry and a NUL.
unfoldable pub file_name_text : Dentry → List ℕ
file_name_text d = text d.file_name 0 32

-- `file_size` as its 32-bit pattern.
unfoldable pub size_of : FileSystem → Dentry → ℕ
size_of fs d = elim (get_file_size fs d.inode_num) [ none ↦ 2 ^ 32 - 1 | some n ↦ n ]

abbrev pub name_call : Dentry → PrintCall
name_call d = record { format = " name \"%s\""; args = Arg.text (file_name_text d) ∷ [] }

abbrev pub size_call : FileSystem → Dentry → PrintCall
size_call fs d = record {
  format = " type %u - size %d\n";
  args = num d.file_type ∷ num (size_of fs d) ∷ [];
}

-- `n` calls of `putc (' ')`.
unfoldable pub put_spaces : ℕ → Tty → Tty
put_spaces zero s = s
put_spaces (suc n) s = put_spaces n (putc s b' ')

unfoldable pub size_printed : Mem → FileSystem → Dentry → Option Tty → Option Tty
size_printed conv_buf fs d none = none
size_printed conv_buf fs d (some s) =
    print_calls conv_buf (some (put_spaces (50 - length (file_name_text d)) s))
      (size_call fs d ∷ [])

-- The loop over the entries from `i` on; `d` is what the entry holds before it is read.
unfoldable pub list_from : ℕ → Mem → FileSystem → Dentry → ℕ → Option Tty → Option Tty
list_from zero conv_buf fs d i s = none
list_from (suc fuel) conv_buf fs d i none = none
list_from (suc fuel) conv_buf fs d i (some s) = elim (read_dentry_by_index fs i d) [
  | none ↦ some s
  | some entry ↦
      list_from fuel conv_buf fs d (i + 1)
        (size_printed conv_buf fs entry (print_calls conv_buf (some s) (name_call entry ∷ [])))
]

unfoldable pub list_all_files : ℕ → Mem → FileSystem → Dentry → Tty → Option Tty
list_all_files fuel conv_buf fs d s = list_from fuel conv_buf fs d 0 (some (clear_terminal s 0))

-- The loop that prints a file from `num_read` on, by 4096 bytes at the address `buf`, on the first
-- terminal; whether it ended because reading failed.
unfoldable pub show_file : ℕ → FileSystem → ℕ → ℕ → ℕ → Tty → Option (Bool × Tty)
show_file zero fs inode buf num_read s = none
show_file (suc fuel) fs inode buf num_read s =
    let (res, m) = read_data fs inode num_read s.mem buf 4096 in
    let read = record s { mem = m } in
    elim res [
      | none ↦ some (true, (terminal_write read 0 buf (2 ^ 32 - 1)).1)
      | some n ↦
          let shown = (terminal_write read 0 buf n).1 in
          let rest = show_file fuel fs inode buf (num_read + n) shown in
          if n == 0 then some (false, shown) else rest
    ]

-- The end of both tests that read files.
abbrev file_call : FileSystem → Dentry → PrintCall
file_call fs d = record {
  format =
      "\n--------------------------------------------------------------------------------file name: \"%s\"\nfile size: %d\n";
  args = Arg.text (file_name_text d) ∷ num (size_of fs d) ∷ [];
}

unfoldable pub summed_up : Mem → List PrintCall → Option (Bool × Tty) → Option Tty
summed_up conv_buf cs none = none
summed_up conv_buf cs (some (failed, s)) = print_calls conv_buf (some s) cs

-- Where the file is not there, the name and the size are those of the entry that was not filled.
unfoldable pub read_files_by_name : ℕ → Mem → FileSystem → Dentry → ℕ → Tty → Option Tty
read_files_by_name fuel conv_buf fs d buf s =
    let cleared = clear_terminal s 0 in
    elim (read_dentry_by_name fs (λ i. get_or (codes "frame0.txt") i 0) d) [
      | none ↦ summed_up conv_buf (file_call fs d ∷ []) (some (true, cleared))
      | some entry ↦
          summed_up conv_buf (file_call fs entry ∷ [])
            (show_file fuel fs entry.inode_num buf 0 cleared)
    ]

-- The loop over the index, which starts again from the first entry behind the last, and tries the
-- same file again where reading failed.
unfoldable pub show_entry : ℕ → FileSystem → Dentry → ℕ → ℕ → Tty → Option (ℕ × Dentry × Tty)
show_entry zero fs d buf index s = none
show_entry (suc fuel) fs d buf index s =
    let wrapped = show_entry fuel fs d buf 0 s in
    elim (read_dentry_by_index fs index d) [
      | none ↦ wrapped
      | some entry ↦ elim (show_file fuel fs entry.inode_num buf 0 s) [
        | none ↦ none
        | some (failed, t) ↦
            let again = show_entry fuel fs entry buf index t in
            if failed then again else some (index, entry, t)
      ]
    ]

unfoldable pub read_file_by_index : ℕ → Mem → FileSystem → Dentry → ℕ → ℕ → Tty → Option (ℕ × Tty)
read_file_by_index fuel conv_buf fs d buf index_num s =
    elim (show_entry fuel fs d buf index_num (clear_terminal s 0)) [
      | none ↦ none
      | some (index, entry, shown) ↦
          let index_call : PrintCall = record {
            format = "file index: %u\n";
            args = num index ∷ [];
          } in
          elim (print_calls conv_buf (some shown) (file_call fs entry ∷ index_call ∷ [])) [
            | none ↦ none
            | some t ↦ some ((index + 1) % 2 ^ 16, t)
          ]
    ]

-- `htz <<= 1; if (htz > MAX_FREQ) htz = MIN_FREQ;` on a `uint16_t`.
abbrev pub next_rate : ℕ → ℕ
next_rate htz = let doubled = htz * 2 % 2 ^ 16 in if ltb 1024 doubled then 2 else doubled

-- A word in memory at address 0.
abbrev pub word_at : ℕ → Mem
word_at w zero = w % 256
word_at w (suc zero) = w / 256 % 256
word_at w (suc (suc zero)) = w / 65536 % 256
word_at w (suc (suc (suc zero))) = w / 16777216 % 256
word_at w (suc (suc (suc (suc a)))) = 0

-- On the process in the slot; the two register values are what `rtc_open` reads from the chip.
unfoldable pub start_rtc_test : ℕ → ℕ → ℕ → Suite → Suite
start_rtc_test slot prev_b prev_a s =
    let opened = (rtc_open s.kernel slot prev_b prev_a).1 in
    let htz' = next_rate s.htz in
    let written = (rtc_write opened slot (word_at htz') 0).1 in
    record s { kernel = set_rtc_test_enabled written 1; htz = htz' }

unfoldable pub stop_rtc_test : ℕ → Suite → Suite
stop_rtc_test slot s =
    let cleared = record s.kernel { tty = (terminal_close s.kernel.tty 0).1 } in
    let closed = (rtc_close cleared slot).1 in
    record s { kernel = set_rtc_test_enabled closed 0; htz = 1 }

-- What the calls are given that the state does not hold: the file system, what an entry holds before
-- it is read, where the buffer lies on the stack, the running process, and the clock's registers.
pub record Given : Type 0 where
  pub fuel : ℕ
  pub conv_buf : Mem
  pub fs : FileSystem
  pub dentry : Dentry
  pub buf : ℕ
  pub slot : ℕ
  pub prev_b : ℕ
  pub prev_a : ℕ

abbrev on_screen : Suite → Option Tty → Option Suite
on_screen s none = none
on_screen s (some t) = some (record s { kernel = record s.kernel { tty = t } })

abbrev at_index : Suite → Option (ℕ × Tty) → Option Suite
at_index s none = none
at_index s (some (index, t)) =
    some (record s { kernel = record s.kernel { tty = t }; index_num = index })

unfoldable pub test_suite : Given → ℕ → Suite → Option Suite
test_suite g test_num s =
    let tty = s.kernel.tty in
    if test_num == 1
    then on_screen s (list_all_files g.fuel g.conv_buf g.fs g.dentry tty)
    else if test_num == 2
    then on_screen s (read_files_by_name g.fuel g.conv_buf g.fs g.dentry g.buf tty)
    else if test_num == 3
    then at_index s (read_file_by_index g.fuel g.conv_buf g.fs g.dentry g.buf s.index_num tty)
    else if test_num == 4
    then some (start_rtc_test g.slot g.prev_b g.prev_a s)
    else if test_num == 5
    then some (stop_rtc_test g.slot s)
    else some s
