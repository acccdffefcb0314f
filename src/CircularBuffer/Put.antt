-- ===== src/CircularBuffer/Put.antt =====
-- `circular_buffer_put` and `circular_buffer_put_byte` append to the queue.
use psych_os.Base.{
  ℕ, zero, suc, ◌+◌, ◌-◌, ◌≤◌, ◌<◌, ◌^◌, min, ◌≡◌, ◌∙◌, refl, arith, Mem, [], ◌∷◌, ◌++◌, store,
  bytes, bytes-congr, add32, append-nil, append_assoc, subst, eq-or-ne, inl, inr, ltb,
  if◌then◌else◌, sub32,
}
use native.Mathlib.Nat.{add-zero}
use psych_os.ByteQueue
use psych_os.CircularBuffer.{
  CircularBuffer, next, put_loop, circular_buffer_put, circular_buffer_put_byte,
}
use psych_os.CircularBuffer.Inv.{
  IsValid, InRing, SameRing, IsApart, window, contents, length-contents, window-store,
}

abbrev with_len : CircularBuffer → ℕ → CircularBuffer
with_len b c = record b { current_len = c }

-- One byte stored at the tail of a buffer that holds `c` bytes.
stored-IsValid :
    (b : CircularBuffer) (c : ℕ)
    → IsValid (with_len b c)
    → c < b.max_len
    → IsValid (record b { tail = next b b.tail; current_len = c + 1 })
stored-IsValid b c v l = ground arith

stored-contents :
    (b : CircularBuffer) (c : ℕ) (m : Mem) (x : ℕ)
    → IsValid (with_len b c)
    → c < b.max_len
    → window b.data_start b.data_end (store m b.tail x) b.head (c + 1)
      ≡ window b.data_start b.data_end m b.head c ++ (x ∷ [])
stored-contents b c m x v l = ground (arith, window-store (with_len b c) v m x c b.head b.tail)

-- `circular_buffer_put_byte` on a valid buffer is the bounded queue's push: it returns 1 and
-- appends the byte, or returns 0 and changes nothing when the buffer is full. The result is valid.
pub put_byte_refines :
    (b : CircularBuffer) (m : Mem) (x : ℕ)
    → IsValid b
    → let (n, b', m') = circular_buffer_put_byte b m x in
      ((n, contents b' m') ≡ ByteQueue.push b.max_len (contents b m) x) × IsValid b'
unfolding circular_buffer_put_byte
put_byte_refines b m x v = ground (
  arith,
  length-contents b m,
  stored-contents b b.current_len m x v,
  stored-IsValid b b.current_len v,
)

-- What the loop of `circular_buffer_put` has done after `n` rounds from `c` bytes.
record Stored (b : CircularBuffer) (m : Mem) (c n input : ℕ) (out : CircularBuffer × Mem)
    : Type 0 where
  valid : IsValid (with_len out.0 (c + n))
  holds :
      window b.data_start b.data_end out.1 b.head (c + n)
      ≡ window b.data_start b.data_end m b.head c ++ bytes m input n
  max : out.0.max_len ≡ b.max_len
  start : out.0.data_start ≡ b.data_start
  stop : out.0.data_end ≡ b.data_end
  head : out.0.head ≡ b.head
  len : out.0.current_len ≡ b.current_len
  outside : (x : ℕ) → ¬ InRing b x → out.1 x ≡ m x

-- One round before a run of `n`.
Stored-suc :
    (n : ℕ) (b : CircularBuffer) (m : Mem) (c input : ℕ) (out : CircularBuffer × Mem)
    → IsValid (with_len b c)
    → c + suc n ≤ b.max_len
    → IsApart b input (suc n)
    → Stored
        (record b { tail = next b b.tail })
        (store m b.tail (m input))
        (c + 1)
        n
        (add32 input 1)
        out
    → Stored b m c (suc n) input out
Stored-suc n b m c input out v l a s = record {
  valid = subst (λ k. IsValid (with_len out.0 k)) count s.valid;
  holds =
      subst
        (λ k.
          window b.data_start b.data_end out.1 b.head k
          ≡ window b.data_start b.data_end m b.head c ++ bytes m input (suc n))
        count joined;
  max = s.max;
  start = s.start;
  stop = s.stop;
  head = s.head;
  len = s.len;
  outside = λ x h. s.outside x (λ i. h (record { from = i.from; below = i.below })) ∙ ground arith;
}
  where
    count : (c + 1) + n ≡ c + suc n
    count = omega arith

    after : add32 input 1 ≡ input + 1
    after = omega arith

    same : bytes (store m b.tail (m input)) (input + 1) n ≡ bytes m (input + 1) n
    same = bytes-congr m (store m b.tail (m input)) (input + 1) n (λ x l h. ground arith)

    joined :
        window b.data_start b.data_end out.1 b.head ((c + 1) + n)
        ≡ window b.data_start b.data_end m b.head c ++ bytes m input (suc n)
    joined =
        s.holds
        ∙ rw (stored-contents b c m (m input) v (omega arith), after, same)
            (append_assoc (window b.data_start b.data_end m b.head c) (m input ∷ [])
              (bytes m (input + 1) n))

put_loop-Stored :
    (n : ℕ) (b : CircularBuffer) (m : Mem) (c input : ℕ)
    → IsValid (with_len b c)
    → c + n ≤ b.max_len
    → IsApart b input n
    → Stored b m c n input (put_loop n b m input)
unfolding put_loop
put_loop-Stored zero b m c input v l a = record {
  valid = rw add-zero v;
  holds = rw (add-zero, append-nil);
  max = refl;
  start = refl;
  stop = refl;
  head = refl;
  len = refl;
  outside = λ x h. refl;
}
put_loop-Stored (suc n) b m c input v l a = Stored-suc n b m c input _ v l a (
    put_loop-Stored n (record b { tail = next b b.tail }) (store m b.tail (m input)) (c + 1)
      (add32 input 1) (stored-IsValid b c v (omega arith)) (omega arith) (omega arith))

abbrev room : CircularBuffer → ℕ
room b = b.max_len - b.current_len

module _ (b : CircularBuffer) (m : Mem) (input n : ℕ) (out : CircularBuffer × Mem) where
  abbrev done : CircularBuffer
  done = record out.0 { current_len = add32 out.0.current_len n }

  done_len :
      Stored b m b.current_len n input out
      → b.current_len + n < 2 ^ 32
      → add32 out.0.current_len n ≡ b.current_len + n
  done_len s l = omega arith

  done-IsValid : Stored b m b.current_len n input out → b.current_len + n < 2 ^ 32 → IsValid done
  done-IsValid s l = rw (done_len s l) s.valid

  contents-done :
      Stored b m b.current_len n input out
      → b.current_len + n < 2 ^ 32
      → contents done out.1 ≡ contents b m ++ bytes m input n
  contents-done s l = rw (done_len s l, s.start, s.stop, s.head) s.holds

-- `circular_buffer_put` on a valid buffer, with a length whose sum with the current length does
-- not wrap and a source apart from the storage, takes as many bytes as there is room for, returns
-- their number, appends exactly those bytes in order, keeps the buffer valid, and writes to no
-- address outside the storage.
pub circular_buffer_put_lem :
    (b : CircularBuffer) (m : Mem) (input len : ℕ)
    → IsValid b
    → b.current_len + len < 2 ^ 32
    → IsApart b input (min len (room b))
    → let (n, b', m') = circular_buffer_put b m input len in
      (n ≡ min len (room b))
      × IsValid b'
      × (contents b' m' ≡ contents b m ++ bytes m input n)
      × ((x : ℕ) → ¬ InRing b x → m' x ≡ m x)
unfolding circular_buffer_put
circular_buffer_put_lem b m input len v w a = rw count (
  refl,
  done-IsValid b m input n _ s (omega arith),
  contents-done b m input n _ s (omega arith),
  s.outside,
)
  where
    n : ℕ
    n = min len (room b)

    count :
        (if ltb b.max_len (add32 b.current_len len) then sub32 b.max_len b.current_len else len)
        ≡ min len (room b)
    count = ground arith

    s : Stored b m b.current_len n input (put_loop n b m input)
    s = put_loop-Stored n b m b.current_len input v (omega arith) a

-- The storage stays the same.
pub put_byte-SameRing :
    (b : CircularBuffer) (m : Mem) (x : ℕ) → SameRing b (circular_buffer_put_byte b m x).1
unfolding circular_buffer_put_byte
put_byte-SameRing b m x = ground arith

-- Outside the storage memory stays the same.
pub put_byte_outside :
    (b : CircularBuffer) (m : Mem) (x a : ℕ)
    → IsValid b
    → ¬ InRing b a
    → (circular_buffer_put_byte b m x).2 a ≡ m a
unfolding circular_buffer_put_byte
put_byte_outside b m x a v out = elim (eq-or-ne b.tail a) [
  | inl e ↦ absurd (out (record { from = omega arith; below = omega arith }))
  | inr n ↦ ground arith
]
