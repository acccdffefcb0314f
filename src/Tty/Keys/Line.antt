-- ===== src/Tty/Keys/Line.antt =====
-- `keyboard_putc` against a line editor on the queue of typed bytes.
use psych_os.Base.{
  ℕ, zero, suc, ◌+◌, ◌<◌, ◌≡◌, ◌≢◌, ◌⊎◌, inl, inr, ◌∙◌, refl, sym, ap, arith, Bool, true, false,
  none, some, List, [], ◌∷◌, ◌++◌, ◌==◌, ltb, leb, if◌then◌else◌, length, count, count-append,
  eq-or-ne, lt-or-le, if_keeps, count-le-length,
}
use psych_os.ByteQueue
use psych_os.CircularBuffer.{circular_buffer_len, circular_buffer_peek_end_byte}
use psych_os.CircularBuffer.Inv.{IsValid, contents, length-contents}
use psych_os.CircularBuffer.Put.{put_byte_refines, put_byte-SameRing}
use psych_os.CircularBuffer.Ends.{
  peek_end_byte_refines, remove_end_byte_refines, remove_end_byte-SameRing,
}
use psych_os.Tty.State.{Tty, newline, backspace, tab}
use psych_os.Tty.Screen.Frame.{Untouched, putc-Untouched}
use psych_os.Tty.Keys.{
  echo, buffer_byte, unbuffer_byte, erase_key, enter_key, type_key, keyboard_putc,
}

-- The input side of terminal `t` holds the queue `q`, and counts its line feeds.
pub record Holds (s : Tty) (t : ℕ) (q : List ℕ) : Type 0 where
  pub valid : IsValid (s.input_buffer t)
  pub size : (s.input_buffer t).max_len ≡ 128
  pub holds : contents (s.input_buffer t) s.mem ≡ q
  pub lines : s.new_line_ready t ≡ count newline q

-- The last byte may be erased.
abbrev pub erasable : List ℕ → Bool
erasable q = elim (ByteQueue.last q) [
  | none ↦ false
  | some x ↦ if x == newline then false else true
]

-- The answer, and the queue, of a key that is taken or refused.
abbrev pub taken_if : Bool → List ℕ → List ℕ → ℕ × List ℕ
taken_if true q' q = (1, q')
taken_if false q' q = (0, q)

-- What a key does to the queue, and whether it is taken.
abbrev pub edit : ℕ → List ℕ → ℕ × List ℕ
edit ch q =
    if ch == backspace
    then taken_if (erasable q) (ByteQueue.drop_last q) q
    else if ch == newline
    then taken_if (ltb (length q) 128) (q ++ (newline ∷ [])) q
    else if ch == 0
    then (1, q)
    else taken_if (ltb (length q) 127) (q ++ (ch ∷ [])) q

Untouched-Holds : (s s' : Tty) (t : ℕ) (q : List ℕ) → Untouched t s s' → Holds s t q → Holds s' t q
Untouched-Holds s s' t q u h = record {
  valid = rw u.buffers h.valid;
  size = rw u.buffers h.size;
  holds = rw (u.buffers, u.memory) h.holds;
  lines = rw u.ready h.lines;
}

echo-Holds : (n : ℕ) (s : Tty) (t ch : ℕ) (q : List ℕ) → Holds s t q → Holds (echo n s t ch) t q
unfolding echo
echo-Holds zero s t ch q h = h
echo-Holds (suc n) s t ch q h =
    echo-Holds n _ t ch q (Untouched-Holds s _ t q (putc-Untouched s t ch) h)

pub length-Holds :
    (s : Tty) (t : ℕ) (q : List ℕ) → Holds s t q → (s.input_buffer t).current_len ≡ length q
length-Holds s t q h = sym (length-contents (s.input_buffer t) s.mem) ∙ ap length h.holds

last-cases :
    (q : List ℕ)
    → ((length q ≡ 0) × (erasable q ≡ false))
      ⊎ ((x : ℕ) × (ByteQueue.last q ≡ some x)
          × (erasable q ≡ (if x == newline then false else true))
          × (0 < length q)
          × (count newline q
              ≡ count newline (ByteQueue.drop_last q) + (if x == newline then 1 else 0)))
last-cases [] = inl (refl, refl)
last-cases (x ∷ []) = inr (x, refl, refl, omega arith, omega arith)
last-cases (x ∷ y ∷ q) = elim (last-cases (y ∷ q)) [
  | inl (e, _) ↦ absurd (omega arith)
  | inr (z, e, b, l, c) ↦ inr (z, e, b, omega arith, omega (arith, c))
]

module _ (s : Tty) (t : ℕ) (q : List ℕ) (h : Holds s t q) where
  -- The buffer after one more byte.
  buffer_byte_lem :
      (ch : ℕ)
      → length q < 128
      → let s' = buffer_byte s t ch in
        IsValid (s'.input_buffer t)
        × ((s'.input_buffer t).max_len ≡ 128)
        × (contents (s'.input_buffer t) s'.mem ≡ q ++ (ch ∷ []))
        × (s'.new_line_ready ≡ s.new_line_ready)
  unfolding buffer_byte
  buffer_byte_lem ch l =
      let (pushed, valid) = put_byte_refines (s.input_buffer t) s.mem ch h.valid in
      let b = s.input_buffer t in
      let full : ltb (length (contents (s.input_buffer t) s.mem)) (s.input_buffer t).max_len
          ≡ true =
        rw (h.holds, h.size) (ground arith) in
      let self : (t == t) ≡ true = ground arith in
      rw self (
        valid,
        (put_byte-SameRing b s.mem ch).max ∙ h.size,
        ap (λ p. p.1) pushed ∙ rw (full, h.holds),
        refl,
      )

  unbuffer_byte_lem :
      let s' = unbuffer_byte s t in
      IsValid (s'.input_buffer t)
      × ((s'.input_buffer t).max_len ≡ 128)
      × (contents (s'.input_buffer t) s'.mem ≡ ByteQueue.drop_last q)
      × (s'.new_line_ready ≡ s.new_line_ready)
  unfolding unbuffer_byte
  unbuffer_byte_lem =
      let b = s.input_buffer t in
      let (_, dropped, valid) = remove_end_byte_refines b s.mem h.valid in
      let self : (t == t) ≡ true = ground arith in
      rw self (
        valid,
        (remove_end_byte-SameRing b).max ∙ h.size,
        dropped ∙ ap ByteQueue.drop_last h.holds,
        refl,
      )

  typed-Holds :
      (ch : ℕ) → ch ≢ newline → length q < 128 → Holds (buffer_byte s t ch) t (q ++ (ch ∷ []))
  typed-Holds ch n l =
      let (v, z, c, r) = buffer_byte_lem ch l in
      record {
        valid = v;
        size = z;
        holds = c;
        lines = rw r (ground (arith, h.lines, count-append newline q (ch ∷ [])));
      }

  type_key_lem :
      (ch : ℕ)
      → ch ≢ newline
      → let (n, q') = taken_if (ltb (length q) 127) (q ++ (ch ∷ [])) q in
        ((type_key s t ch).0 ≡ n) × Holds (type_key s t ch).1 t q'
  unfolding type_key circular_buffer_len
  type_key_lem ch n = elim (lt-or-le (length q) 127) [
    | inl l ↦
        let u : ltb (length q) 127 ≡ true = ground arith in
        let typed = typed-Holds ch n (omega arith) in
        rw (length-Holds s t q h, u)
          (
            refl,
            if_keeps (λ w. Holds w t (q ++ (ch ∷ []))) (ch == tab) (echo-Holds _ _ t 32 _ typed)
                (Untouched-Holds _ _ t _ (putc-Untouched _ t ch) typed),
          )
    | inr l ↦
        let u : ltb (length q) 127 ≡ false = ground arith in rw (length-Holds s t q h, u) (refl, h)
  ]

  enter_key_lem :
      let (n, q') = taken_if (ltb (length q) 128) (q ++ (newline ∷ [])) q in
      ((enter_key s t).0 ≡ n) × Holds (enter_key s t).1 t q'
  unfolding enter_key circular_buffer_len
  enter_key_lem = elim (lt-or-le (length q) 128) [
    | inl l ↦
        let u : ltb (length q) 128 ≡ true = ground arith in
        let w : leb 128 (length q) ≡ false = ground arith in
        let (v, z, c, r) = buffer_byte_lem newline l in
        let f = putc-Untouched (buffer_byte s t newline) t newline in
        rw (length-Holds s t q h, u, w)
          (
            refl,
            record {
              valid = rw f.buffers v;
              size = rw f.buffers z;
              holds = rw (f.buffers, f.memory) c;
              lines =
                  rw (f.ready, r)
                    (ground (
                      arith,
                      h.lines,
                      count-le-length newline q,
                      count-append newline q (newline ∷ []),
                    ));
            },
          )
    | inr l ↦
        let u : ltb (length q) 128 ≡ false = ground arith in
        let w : leb 128 (length q) ≡ true = ground arith in
        rw (length-Holds s t q h, u, w) (refl, h)
  ]

  erase_key_lem :
      let (n, q') = taken_if (erasable q) (ByteQueue.drop_last q) q in
      ((erase_key s t).0 ≡ n) × Holds (erase_key s t).1 t q'
  unfolding erase_key circular_buffer_len
  erase_key_lem =
      let b = s.input_buffer t in
      let last_byte : (circular_buffer_peek_end_byte b s.mem).1 ≡ ByteQueue.last q =
        ap (λ p. p.1) (peek_end_byte_refines b s.mem h.valid) ∙ ap ByteQueue.last h.holds in
      let (v, z, c, r) = unbuffer_byte_lem in
      elim (last-cases q) [
        | inl (e, n) ↦
            let u : (b.current_len == 0) ≡ true = ground (arith, length-Holds s t q h) in
            rw (u, n) (refl, h)
        | inr (x, e, n, l, k) ↦
            let u : (b.current_len == 0) ≡ false = ground (arith, length-Holds s t q h) in
            elim (eq-or-ne x newline) [
              | inl nl ↦
                  let same : (x == newline) ≡ true = ground arith in
                  rw (last_byte, u, e, n, same) (refl, h)
              | inr nn ↦
                  let differs : (x == newline) ≡ false = ground arith in
                  let erased : Holds (unbuffer_byte s t) t (ByteQueue.drop_last q) = record {
                    valid = v;
                    size = z;
                    holds = c;
                    lines = rw r (ground (arith, h.lines, k));
                  } in
                  rw (last_byte, u, e, n, differs) (refl, echo-Holds _ _ t backspace _ erased)
            ]
      ]

-- A key that is typed acts on the queue of typed bytes, and answers, as the line editor does.
pub keyboard_putc_lem :
    (s : Tty) (t ch : ℕ) (q : List ℕ)
    → Holds s t q
    → ((keyboard_putc s t ch).0 ≡ (edit ch q).0) × Holds (keyboard_putc s t ch).1 t (edit ch q).1
unfolding keyboard_putc
keyboard_putc_lem s t ch q h = elim (eq-or-ne ch backspace) [
  | inl e ↦ let test : (ch == backspace) ≡ true = ground arith in rw test (erase_key_lem s t q h)
  | inr e ↦
      let test : (ch == backspace) ≡ false = ground arith in
      elim (eq-or-ne ch newline) [
        | inl e' ↦
            let test' : (ch == newline) ≡ true = ground arith in
            rw (test, test') (enter_key_lem s t q h)
        | inr e' ↦
            let test' : (ch == newline) ≡ false = ground arith in
            elim (eq-or-ne ch 0) [
              | inl z ↦
                  let zero_test : (ch == 0) ≡ true = ground arith in
                  rw (test, test', zero_test) (refl, h)
              | inr z ↦
                  let zero_test : (ch == 0) ≡ false = ground arith in
                  rw (test, test', zero_test) (type_key_lem s t q h ch e')
            ]
      ]
]
