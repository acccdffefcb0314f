-- ===== src/User/Pingpong.antt =====
-- syscalls/ece391pingpong.c, whose loop has no end: a run is the number of its rounds.
use psych_os.Base.{
  ℕ, zero, suc, ◌+◌, ◌-◌, ◌%◌, ◌^◌, none, some, [], ◌∷◌, Mem, ◌==◌, ltb, store, if◌then◌else◌,
}
use psych_os.Str.Text.{text}
use psych_os.Printf.Calls.{codes}
use psych_os.User.Calls.{Act, ◌>>=◌, ◌>>◌, pure, SystemCalls}
use psych_os.User.Programs.{put}

-- The blanks and the walls; `buf` is what the buffer holds before.
unfoldable pub walled : Mem → Mem
walled buf =
    let blanks : Mem = λ i. if ltb i 81 then b' ' else buf i in
    store (store (store (store blanks 80 0) 79 10) 78 b'|') 1 b'|'

-- The inner loop, with `n` places from `i` on to go.
unfoldable pub clear_from : ℕ → ℕ → Mem → Mem
clear_from zero i buf = buf
clear_from (suc n) i buf = clear_from n (i + 1) (store buf i b' ')

unfoldable pub drawn : ℕ → ℕ → Mem → Mem
drawn curchar j buf = store (clear_from 76 2 buf) j curchar

unfoldable pub next_char : ℕ → ℕ
next_char curchar = if curchar == b'Z' then b'A' else (curchar + 1) % 256

module _ {S : Type 0} (c : SystemCalls S) (rtc_fd : ℕ) where
  -- The body of both loops over `j`.
  unfoldable pub shown_frame : ℕ → ℕ → Mem → Act S Mem
  shown_frame curchar j buf =
      let next = drawn curchar j buf in put c (text next 0 81) >> c.read rtc_fd 4 >> pure next

  unfoldable pub move_out : ℕ → ℕ → ℕ → Mem → Act S Mem
  move_out zero curchar j buf = pure buf
  move_out (suc n) curchar j buf = shown_frame curchar j buf >>= move_out n curchar (j + 1)

  unfoldable pub bounce_back : ℕ → ℕ → ℕ → Mem → Act S Mem
  bounce_back zero curchar j buf = pure buf
  bounce_back (suc n) curchar j buf = shown_frame curchar j buf >>= bounce_back n curchar (j - 1)

  unfoldable pub rounds : ℕ → ℕ → Mem → Act S Mem
  rounds zero curchar buf = pure buf
  rounds (suc n) curchar buf =
      move_out 76 curchar 2 buf >>= bounce_back 76 curchar 77 >>= rounds n (next_char curchar)

module _ {S : Type 0} (c : SystemCalls S) where
  -- A descriptor that could not be opened is used as -1.
  unfoldable pub pingpong : ℕ → Mem → Act S Mem
  pingpong n buf = do
    opened ← c.open_file (codes "rtc")
    let rtc_fd : ℕ = elim opened [ none ↦ 2 ^ 32 - 1 | some fd ↦ fd ]
    w ← c.write rtc_fd (32 ∷ 0 ∷ 0 ∷ 0 ∷ [])
    rounds c rtc_fd n b'A' (walled buf)
