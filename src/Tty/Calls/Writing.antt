-- ===== src/Tty/Calls/Writing.antt =====
-- `terminal_write` against the linear screen.
use psych_os.Base.{ℕ, ◌^◌, ◌<◌, ◌≡◌, ◌∙◌, refl, ap, arith, false, List, [], ◌∷◌, count, bytes, leb}
use psych_os.Tty.State.{Tty, backspace}
use psych_os.Tty.Screen.{putc_internal}
use psych_os.Tty.Screen.Cursor.{OnScreen, Display, display, emit, putc_refines}
use psych_os.Tty.Calls.{put_all, terminal_write}

-- Characters on the linear screen one after the other.
abbrev pub emit_all : List ℕ → Display → Display
emit_all [] d = d
emit_all (ch ∷ rest) d = emit_all rest (emit ch d)

put_all-emit :
    (chs : List ℕ) (s : Tty) (t : ℕ)
    → OnScreen s t
    → count backspace chs ≡ 0
    → (display (put_all chs s t) t ≡ emit_all chs (display s t)) × OnScreen (put_all chs s t) t
unfolding put_all
put_all-emit [] s t on none_left = (refl, on)
put_all-emit (ch ∷ rest) s t on none_left =
    let (e, on') = putc_refines s t ch on (λ f. ground (arith, f)) in
    let (e', on'') = put_all-emit rest (putc_internal s t ch) t on' (ground arith) in
    (e' ∙ ap (emit_all rest) e, on'')

-- `terminal_write` of bytes without a backspace, to a terminal whose cursor is on the screen, shows
-- them one after the other as the linear screen does, scrolling where it is full, leaves the cursor on
-- the screen and returns their number.
pub terminal_write_lem :
    (s : Tty) (t buf nbytes : ℕ)
    → OnScreen s t
    → nbytes < 2 ^ 31
    → count backspace (bytes s.mem buf nbytes) ≡ 0
    → let (n, s') = terminal_write s t buf nbytes in
      (n ≡ nbytes)
      × (display s' t ≡ emit_all (bytes s.mem buf nbytes) (display s t))
      × OnScreen s' t
unfolding terminal_write
terminal_write_lem s t buf nbytes on l c =
    let u : leb (2 ^ 31) nbytes ≡ false = ground arith in
    let (shown, on') = put_all-emit (bytes s.mem buf nbytes) s t on c in rw u (refl, shown, on')
