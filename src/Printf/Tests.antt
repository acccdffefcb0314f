-- ===== src/Printf/Tests.antt =====
-- The format "a%#x%d%s" on the words 14, -3 and the address of "ok".
use psych_os.Base.{
  ℕ, ◌+◌, ◌-◌, ◌^◌, ◌<◌, ◌≡◌, ◌≢◌, zero, suc, refl, arith, some, List, [], ◌∷◌, Mem, get_or, length,
}
use psych_os.Tty.State.{Tty, screen}
use psych_os.Tty.Screen.{blank_word}
use psych_os.Tty.Calls.{put_all}
use psych_os.CircularBuffer.{circular_buffer_init}
use psych_os.Str.{strlen, itoa}
use psych_os.Tty.Screen.{putc}
use psych_os.Printf.{printf, puts}
use psych_os.Printf.Puts.{IsString}
use psych_os.Printf.Pieces.{Piece, literal, eight_digits, signed, string, format_of}
use psych_os.Printf.Format.{AllShow, printf_lem}

abbrev pieces : List Piece
pieces = literal b'a' ∷ eight_digits ∷ signed ∷ string ∷ []

-- The format at 0, the string at 9.
abbrev strings : Mem
strings i =
    get_or (b'a' ∷ b'%' ∷ b'#' ∷ b'x' ∷ b'%' ∷ b'd' ∷ b'%' ∷ b's' ∷ 0 ∷ b'o' ∷ b'k' ∷ []) i 0

abbrev words : Mem
words i = get_or (14 ∷ (2 ^ 32 - 3) ∷ 9 ∷ []) i 0

abbrev blank_terminals : Tty
blank_terminals = record {
  keyboard_state = λ k. 0;
  caps_lock_status = 0;
  input_buffer_internal = λ t. 5000 + t;
  input_buffer = λ t. circular_buffer_init 5000 128;
  new_line_ready = λ t. 0;
  words = λ v i. blank_word;
  cursor_x = λ t. 0;
  cursor_y = λ t. 0;
  active_terminal = 0;
  video_memory = λ t. screen;
  single_terminal = 1;
  ports = [];
  mem = λ a. 0;
}

abbrev garbage : Mem
garbage i = 7

output :
    printf 20 strings words garbage 20 blank_terminals 0
    ≡ some (
      8,
      put_all
          (b'a' ∷ b'0' ∷ b'0' ∷ b'0' ∷ b'0' ∷ b'0' ∷ b'0' ∷ b'0' ∷ b'E' ∷ b'-' ∷ b'3' ∷ b'o' ∷ b'k'
            ∷ [])
          blank_terminals
          0,
    )
unfolding printf itoa strlen puts putc put_all
output = refl

ok_bytes : (j : ℕ) → j < 2 → strings (9 + j) ≢ 0
ok_bytes zero l e = omega (arith, e)
ok_bytes (suc zero) l e = omega (arith, e)
ok_bytes (suc (suc j)) l e = omega arith

ok-IsString : (k : ℕ) × IsString strings 9 k × (k < 20)
ok-IsString = (2, record { before = ok_bytes; ends = refl }, omega arith)

printf_lem_example :
    (out : List ℕ) × AllShow 20 strings words pieces 0 out
    × (printf 20 strings words garbage 20 blank_terminals 0
        ≡ some (length (format_of pieces), put_all out blank_terminals 0))
printf_lem_example =
    printf_lem 20 strings words garbage pieces 20 blank_terminals 0
      (
        (λ e. omega (arith, e), λ e. omega (arith, e)),
        (omega arith, (omega arith, (ok-IsString, tt))),
      )
      (refl, (refl, (refl, (refl, (refl, (refl, (refl, (refl, refl)))))))) (omega arith)
