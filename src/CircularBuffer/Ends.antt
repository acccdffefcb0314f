-- ===== src/CircularBuffer/Ends.antt =====
-- `circular_buffer_peek_end_byte` and `circular_buffer_remove_end_byte` act on the queue's end.
use psych_os.Base.{ℕ, zero, suc, ◌-◌, ◌<◌, ◌≡◌, refl, ap, arith, Mem, ◌∷◌, some}
use psych_os.ByteQueue
use psych_os.CircularBuffer.{
  CircularBuffer, next, previous, circular_buffer_peek_end_byte, circular_buffer_remove_end_byte,
}
use psych_os.CircularBuffer.Inv.{
  IsValid, InRing, SameRing, Behind, window, contents, next-InRing, next-Behind,
}

module _ (b : CircularBuffer) (v : IsValid b) (m : Mem) where
  last-window :
      (n p t : ℕ)
      → InRing b p
      → InRing b t
      → n < b.max_len
      → Behind b p (suc n) t
      → ByteQueue.last (window b.data_start b.data_end m p (suc n)) ≡ some (m (previous b t))
  last-window zero p t i j l g = ap (λ k. some (m k)) (ground arith)
  last-window (suc n) p t i j l g =
      last-window n (next b p) t (next-InRing b v p i) j (omega arith)
        (next-Behind b v p (suc n) t i j (omega arith) g)

  drop_last-window :
      (n p : ℕ)
      → ByteQueue.drop_last (window b.data_start b.data_end m p (suc n))
        ≡ window b.data_start b.data_end m p n
  drop_last-window zero p = refl
  drop_last-window (suc n) p = ap (λ q. m p ∷ q) (drop_last-window n (next b p))

-- `circular_buffer_peek_end_byte` on a valid buffer returns 1 and the newest byte of the queue, or 0
-- and no byte when the queue is empty.
pub peek_end_byte_refines :
    (b : CircularBuffer) (m : Mem)
    → IsValid b
    → circular_buffer_peek_end_byte b m
      ≡ ((ByteQueue.pop (contents b m)).0, ByteQueue.last (contents b m))
unfolding circular_buffer_peek_end_byte
peek_end_byte_refines b m v = ground (arith, last-window b v m (b.current_len - 1) b.head b.tail)

-- `circular_buffer_remove_end_byte` on a valid buffer removes the newest byte and returns 1, or
-- returns 0 when the queue is empty. The result is valid.
pub remove_end_byte_refines :
    (b : CircularBuffer) (m : Mem)
    → IsValid b
    → let (n, b') = circular_buffer_remove_end_byte b in
      (n ≡ (ByteQueue.pop (contents b m)).0)
      × (contents b' m ≡ ByteQueue.drop_last (contents b m))
      × IsValid b'
unfolding circular_buffer_remove_end_byte
remove_end_byte_refines b m v = ground (arith, drop_last-window b v m (b.current_len - 1) b.head)

-- The storage stays the same.
pub remove_end_byte-SameRing :
    (b : CircularBuffer) → SameRing b (circular_buffer_remove_end_byte b).1
unfolding circular_buffer_remove_end_byte
remove_end_byte-SameRing b = ground arith
