-- ===== src/CircularBuffer/Get.antt =====
-- `circular_buffer_get`, `circular_buffer_peek` and `circular_buffer_get_byte` read the queue.
use psych_os.Base.{
  ℕ, zero, suc, ◌+◌, ◌-◌, ◌≤◌, ◌<◌, min, ◌≡◌, ◌⊎◌, inl, ◌∙◌, refl, ap, ap₂, arith, Mem, ◌∷◌, store,
  bytes, add32, drop, take, sym, sub32,
}
use Prim.Native.Nat.add
use psych_os.ByteQueue
use psych_os.CircularBuffer.{
  CircularBuffer, next, next_in, copy_out, capped, circular_buffer_get, circular_buffer_peek,
  circular_buffer_get_byte,
}
use psych_os.CircularBuffer.Inv.{
  SameRing, IsValid, InRing, IsApart, Behind, window, contents, window-congr, next-InRing,
  next-Behind,
}

-- What `n` rounds of the loop have done, started at `addr` with the destination `to`.
record Copied (b : CircularBuffer) (m : Mem) (n addr to : ℕ) (out : ℕ × Mem) : Type 0 where
  copies : bytes out.1 to n ≡ window b.data_start b.data_end m addr n
  outside : (x : ℕ) → (x < to) ⊎ (to + n ≤ x) → out.1 x ≡ m x
  stays : InRing b out.0
  moves : (k t : ℕ) → InRing b t → n + k ≤ b.max_len → Behind b addr (n + k) t → Behind b out.0 k t

Copied-suc :
    (n : ℕ) (b : CircularBuffer) (m : Mem) (addr to : ℕ) (out : ℕ × Mem)
    → IsValid b
    → InRing b addr
    → IsApart b to (suc n)
    → Copied b (store m to (m addr)) n (next b addr) (add32 to 1) out
    → Copied b m (suc n) addr to out
Copied-suc n b m addr to out v i a s = record {
  copies = ap₂ ◌∷◌ (s.outside to (inl (omega arith)) ∙ ground arith) (
      ap (λ k. bytes out.1 k n) (omega arith)
      ∙ s.copies
      ∙ window-congr b v m (store m to (m addr)) n (next b addr) (next-InRing b v addr i)
          (λ x j. ground arith));
  outside = λ x o. s.outside x (ground arith) ∙ ground arith;
  stays = s.stays;
  moves = λ k t j l g.
      s.moves k t j (omega arith) (next-Behind b v addr (n + k) t i j (omega arith) (ground arith));
}

copy_out-Copied :
    (n : ℕ) (b : CircularBuffer) (m : Mem) (addr to : ℕ)
    → IsValid b
    → InRing b addr
    → IsApart b to n
    → Copied b m n addr to (copy_out n b m addr to)
unfolding copy_out
copy_out-Copied zero b m addr to v i a = record {
  copies = refl;
  outside = λ x o. refl;
  stays = i;
  moves = λ k t j l g. ground arith;
}
copy_out-Copied (suc n) b m addr to v i a = Copied-suc n b m addr to _ v i a (
    copy_out-Copied n b (store m to (m addr)) (next b addr) (add32 to 1) v (next-InRing b v addr i)
      (omega arith))

-- What the loop leaves of a longer window, whatever memory `w` the window is read in.
drop-window :
    (n k : ℕ) (b : CircularBuffer) (m w : Mem) (addr to : ℕ)
    → drop n (window b.data_start b.data_end w addr (n + k))
      ≡ window b.data_start b.data_end w (copy_out n b m addr to).0 k
unfolding copy_out
drop-window zero k b m w addr to = rw add.zero
drop-window (suc n) k b m w addr to =
    rw add.suc (drop-window n k b (store m to (m addr)) w (next b addr) (add32 to 1))

take-window :
    (n k : ℕ) (start stop : ℕ) (w : Mem) (addr : ℕ)
    → take n (window start stop w addr (n + k)) ≡ window start stop w addr n
take-window zero k start stop w addr = refl
take-window (suc n) k start stop w addr =
    rw add.suc (ap (λ t. w addr ∷ t) (take-window n k start stop w (next_in start stop addr)))

module _ (b : CircularBuffer) (m : Mem) (to n k : ℕ) (v : IsValid b) (a : IsApart b to n)
    (e : b.current_len ≡ n + k) where
  copied : Copied b m n b.head to (copy_out n b m b.head to)
  copied = copy_out-Copied n b m b.head to v (record { from = v.head_from; below = v.head_in }) a

  read : window b.data_start b.data_end m b.head n ≡ take n (contents b m)
  read = rw e (sym (take-window n k b.data_start b.data_end m b.head))

  left : sub32 b.current_len n ≡ k
  left = omega arith

  rest_of :
      let (p, m') = copy_out n b m b.head to in
      window b.data_start b.data_end m' p (sub32 b.current_len n) ≡ drop n (contents b m)
  rest_of = rw left (
      window-congr b v m (copy_out n b m b.head to).1 k (copy_out n b m b.head to).0 copied.stays
        (λ x i. copied.outside x (ground arith))
      ∙ sym (drop-window n k b m m b.head to)
      ∙ ap (λ j. drop n (window b.data_start b.data_end m b.head j)) (sym e))

  rest-IsValid :
      let (p, m') = copy_out n b m b.head to in
      IsValid (record b { head = p; current_len = sub32 b.current_len n })
  rest-IsValid =
      let g : Behind b b.head (n + k) b.tail = rw (← e) v.behind in
      let j : InRing b b.tail = record { from = v.tail_from; below = v.tail_in } in
      rw left (record {
        nonnull = v.nonnull;
        storage = v.storage;
        fits = v.fits;
        head_from = copied.stays.from;
        head_in = copied.stays.below;
        tail_from = v.tail_from;
        tail_in = v.tail_in;
        bounded = omega arith;
        behind = copied.moves k b.tail j (omega arith) g;
      })

-- `circular_buffer_get` on a valid buffer, with a destination apart from the storage, returns the
-- lesser of the length asked for and the current length, has written that many bytes from the
-- front of the queue to the destination in order and nothing elsewhere, leaves the rest of the
-- queue in the buffer, and keeps it valid.
pub circular_buffer_get_lem :
    (b : CircularBuffer) (m : Mem) (to len : ℕ)
    → IsValid b
    → IsApart b to (min len b.current_len)
    → let (n, b', m') = circular_buffer_get b m to len in
      (n ≡ min len b.current_len)
      × (bytes m' to n ≡ take n (contents b m))
      × ((x : ℕ) → (x < to) ⊎ (to + n ≤ x) → m' x ≡ m x)
      × (contents b' m' ≡ drop n (contents b m))
      × IsValid b'
unfolding circular_buffer_get
circular_buffer_get_lem b m to len v a = rw count (
  refl,
  (copied b m to n k v a e).copies ∙ read b m to n k v a e,
  (copied b m to n k v a e).outside,
  rest_of b m to n k v a e,
  rest-IsValid b m to n k v a e,
)
  where
    n : ℕ
    n = min len b.current_len

    k : ℕ
    k = b.current_len - n

    e : b.current_len ≡ n + k
    e = omega arith

    count : capped b len ≡ min len b.current_len
    count = ground arith

-- `circular_buffer_peek` copies what `circular_buffer_get` would, returns the same number, and writes nothing else.
pub peek-get :
    (b : CircularBuffer) (m : Mem) (to len : ℕ)
    → let (n, b', m') = circular_buffer_get b m to len in circular_buffer_peek b m to len ≡ (n, m')
unfolding circular_buffer_get circular_buffer_peek
peek-get b m to len = refl

-- `circular_buffer_get_byte` on a valid buffer is the queue's pop: it returns 1 with the oldest byte
-- and removes that byte, or returns 0 when the buffer is empty. The result is valid.
pub get_byte_refines :
    (b : CircularBuffer) (m : Mem)
    → IsValid b
    → let (n, out, b') = circular_buffer_get_byte b m in
      ((n, out, contents b' m) ≡ ByteQueue.pop (contents b m)) × IsValid b'
unfolding circular_buffer_get_byte
get_byte_refines b m v = ground (arith)

-- The storage stays the same.
pub get-SameRing :
    (b : CircularBuffer) (m : Mem) (to len : ℕ) → SameRing b (circular_buffer_get b m to len).1
unfolding circular_buffer_get
get-SameRing b m to len = record { max = refl; start = refl; stop = refl }
