-- ===== src/Tty/Keyboard/Typing.antt =====
-- Keys that are typed without Ctrl or Alt edit the line of the active terminal.
use psych_os.Base.{
  ℕ, zero, suc, ◌<◌, ◌≡◌, ◌≢◌, ap₂, if_keeps, arith, true, false, List, ◌==◌, leb, ltb,
  if◌then◌else◌,
}
use psych_os.Tty.State.{Tty}
use psych_os.Tty.Keys.{keyboard_putc}
use psych_os.Tty.Keys.Line.{Holds, edit, keyboard_putc_lem}
use psych_os.Tty.Keyboard.{
  held, holding, char_of, toggle_caps, act_on_key, key_pressed, handle_scancode,
}

-- Neither Ctrl nor Alt is held, nor is this key one of them.
pub record IsPlain (s : Tty) (keycode : ℕ) : Type 0 where
  pub ctrl : held s 0x1d ≡ false
  pub alt : held s 0x38 ≡ false
  pub not_ctrl : keycode ≢ 0x1d
  pub not_alt : keycode ≢ 0x38
  pub key : keycode < 128

toggled-Holds :
    (s : Tty) (t keycode : ℕ) (q : List ℕ)
    → Holds s t q
    → Holds (toggle_caps (holding s keycode) keycode) t q
toggled-Holds s t keycode q h =
    if_keeps (λ w. Holds w t q) (keycode == 0x3a)
      (record { valid = h.valid; size = h.size; holds = h.holds; lines = h.lines })
      (record { valid = h.valid; size = h.size; holds = h.holds; lines = h.lines })

typed-Holds :
    (test_suite : ℕ → Tty → Tty) (current_buf : ℕ) (s : Tty) (t keycode : ℕ) (q : List ℕ)
    → Holds (toggle_caps s keycode) t q
    → Holds
        (act_on_key test_suite current_buf s t keycode false false)
        t
        (edit (char_of s keycode) q).1
unfolding act_on_key
typed-Holds test_suite current_buf s t keycode q h = go (char_of s keycode)
  where
    go :
        (ch : ℕ)
        → Holds
            (if ltb 0 ch
              then (keyboard_putc (toggle_caps s keycode) t ch).1
              else toggle_caps s keycode)
            t
            (edit ch q).1
    go zero = h
    go (suc n) =
        let typed : ltb 0 (suc n) ≡ true = ground arith in
        rw typed (keyboard_putc_lem (toggle_caps s keycode) t (suc n) q h).1

-- A key that is pressed without Ctrl or Alt acts on the line of its terminal as its character, with
-- the shift keys and caps lock as they are, acts on the line editor.
pub key_pressed_lem :
    (test_suite : ℕ → Tty → Tty) (current_buf : ℕ) (s : Tty) (t keycode : ℕ) (q : List ℕ)
    → Holds s t q
    → IsPlain s keycode
    → Holds
        (handle_scancode test_suite current_buf s t keycode)
        t
        (edit (char_of (holding s keycode) keycode) q).1
unfolding handle_scancode key_pressed
key_pressed_lem test_suite current_buf s t keycode q h p =
    let escape : (keycode == 0xe1) ≡ false = ground (arith, p.key) in
    let pressed : leb 128 keycode ≡ false = ground (arith, p.key) in
    let no_ctrl : held (holding s keycode) 0x1d ≡ false = ground (arith, p.ctrl, p.not_ctrl) in
    let no_alt : held (holding s keycode) 0x38 ≡ false = ground (arith, p.alt, p.not_alt) in
    let acts : handle_scancode test_suite current_buf s t keycode
        ≡ act_on_key test_suite current_buf (holding s keycode) t keycode false false =
      rw (escape, pressed)
        (ap₂ (act_on_key test_suite current_buf (holding s keycode) t keycode) no_ctrl no_alt) in
    rw acts (
      typed-Holds test_suite current_buf (holding s keycode) t keycode q
        (toggled-Holds s t keycode q h))
