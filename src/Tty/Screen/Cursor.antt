-- ===== src/Tty/Screen/Cursor.antt =====
-- `putc_internal` against a screen with one linear cursor.
use Prim.Native.Nat.{bit_or}
use psych_os.Base.{
  ℕ, ◌+◌, ◌-◌, ◌*◌, ◌/◌, ◌<◌, ◌≡◌, inl, inr, refl, arith, true, false, Mem, ◌==◌, leb,
  if◌then◌else◌, update, eq-or-ne, lt-or-le, sub8,
}
use psych_os.Tty.State.{
  Tty, Video, screen, backing, virtual, same_video, color, newline, backspace, tab,
}
use psych_os.Tty.Screen.{
  set_hardware_cursor, words_of, scrolled, blank_word, put_backspace, put_newline, put_printable,
  putc_internal, video_index,
}

-- The cursor of a terminal is on the 80 x 25 screen.
pub record OnScreen (s : Tty) (t : ℕ) : Type 0 where
  pub column : s.cursor_x t < 80
  pub row : s.cursor_y t < 25

-- The words of a screen, and the cell of its cursor counted row by row.
abbrev pub Display : Type 0
Display = Mem × ℕ

abbrev pub display : Tty → ℕ → Display
display s t = (words_of s t, s.cursor_y t * 80 + s.cursor_x t)

-- One character: a backspace blanks the cell before the cursor, a line feed goes to the next row,
-- a tab does nothing, anything else is written; past the last cell the screen scrolls by a row.
abbrev pub emit : ℕ → Display → Display
emit ch (w, p) =
    if ch == backspace
    then (update w (p - 1) blank_word, p - 1)
    else if ch == newline
    then if leb 2000 (p / 80 * 80 + 80) then (scrolled w, 1920) else (w, p / 80 * 80 + 80)
    else if ch == tab
    then (w, p)
    else if p + 1 == 2000
    then (scrolled (update w p (bit_or ch color)), 1920)
    else (update w p (bit_or ch color), p + 1)

same_video_self : (v : Video) → same_video v v ≡ true
same_video_self screen = refl
same_video_self (backing i) = ground arith
same_video_self virtual = refl

module _ (s : Tty) (t : ℕ) (on : OnScreen s t) where
  abbrev x : ℕ
  x = s.cursor_x t

  abbrev y : ℕ
  y = s.cursor_y t

  abbrev w : Mem
  w = words_of s t

  index : video_index x y ≡ y * 80 + x
  index = omega (arith, on.row, on.column)

  backspace_display :
      0 < y * 80 + x
      → display (put_backspace s t x y) t ≡ (update w (y * 80 + x - 1) blank_word, y * 80 + x - 1)
  unfolding put_backspace
  backspace_display p =
      let e : video_index (sub8 (if x == 0 then 80 else x) 1) (if x == 0 then sub8 y 1 else y)
          ≡ y * 80 + x - 1 =
        ground arith in
      ground (arith, same_video_self (s.video_memory t), e)

  newline-display : display (put_newline s t y) t ≡ emit newline (w, y * 80 + x)
  unfolding put_newline
  newline-display = ground (arith, same_video_self (s.video_memory t))

  printable_display :
      (ch : ℕ)
      → display (put_printable s t x y ch) t ≡ (
          if y * 80 + x + 1 == 2000
          then (scrolled (update w (y * 80 + x) (bit_or ch color)), 1920)
          else (update w (y * 80 + x) (bit_or ch color), y * 80 + x + 1))
  unfolding put_printable
  printable_display ch = ground (arith, same_video_self (s.video_memory t), index)

  backspace_OnScreen : 0 < y * 80 + x → OnScreen (put_backspace s t x y) t
  unfolding put_backspace
  backspace_OnScreen p = ground arith

  newline_OnScreen : OnScreen (put_newline s t y) t
  unfolding put_newline
  newline_OnScreen = ground arith

  printable_OnScreen : (ch : ℕ) → OnScreen (put_printable s t x y ch) t
  unfolding put_printable
  printable_OnScreen ch = ground arith

  tab_same : display (set_hardware_cursor s t x y) t ≡ (w, y * 80 + x)
  unfolding set_hardware_cursor
  tab_same = ground arith

  tab_OnScreen : OnScreen (set_hardware_cursor s t x y) t
  unfolding set_hardware_cursor
  tab_OnScreen = ground arith

-- A backspace on the first cell, which the kernel does not guard against.
abbrev pub FallsOff : ℕ → Tty → ℕ → Type 0
FallsOff ch s t = (ch ≡ backspace) × (s.cursor_x t ≡ 0) × (s.cursor_y t ≡ 0)

-- On a terminal whose cursor is on the screen, and unless a backspace would leave the first cell,
-- `putc_internal` changes the terminal's words and cursor as the linear screen does, and leaves
-- the cursor on the screen.
pub putc_refines :
    (s : Tty) (t ch : ℕ)
    → OnScreen s t
    → ¬ FallsOff ch s t
    → (display (putc_internal s t ch) t ≡ emit ch (display s t)) × OnScreen (putc_internal s t ch) t
unfolding putc_internal
putc_refines s t ch on safe = elim (eq-or-ne ch backspace) [
  | inl b ↦
      let p : 0 < s.cursor_y t * 80 + s.cursor_x t = inside b in
      rw b (backspace_display s t on p, backspace_OnScreen s t on p)
  | inr b ↦
      let u : (ch == backspace) ≡ false = ground arith in
      elim (eq-or-ne ch newline) [
        | inl n ↦ rw n (newline-display s t on, newline_OnScreen s t on)
        | inr n ↦
            let v : (ch == newline) ≡ false = ground arith in
            elim (eq-or-ne ch tab) [
              | inl k ↦ rw k (tab_same s t on, tab_OnScreen s t on)
              | inr k ↦
                  let z : (ch == tab) ≡ false = ground arith in
                  rw (u, v, z) (printable_display s t on ch, printable_OnScreen s t on ch)
            ]
      ]
]
  where
    inside : ch ≡ backspace → 0 < s.cursor_y t * 80 + s.cursor_x t
    inside b = elim (lt-or-le 0 (s.cursor_y t * 80 + s.cursor_x t)) [
      | inl l ↦ l
      | inr z ↦ absurd (safe (b, omega arith, omega arith))
    ]

-- A backspace on the first cell writes a blank word at index 20479, outside the 2000 words of the
-- screen and the 4096 of an output buffer, and leaves the cursor in row 255.
pub putc_falls_off :
    (s : Tty) (t : ℕ)
    → s.cursor_x t ≡ 0
    → s.cursor_y t ≡ 0
    → (words_of (putc_internal s t backspace) t 20479 ≡ blank_word)
      × ((putc_internal s t backspace).cursor_y t ≡ 255)
      × ((putc_internal s t backspace).cursor_x t ≡ 79)
unfolding putc_internal
putc_falls_off s t p q = unfold put_backspace in ground (arith, same_video_self (s.video_memory t))
