-- ===== src/CircularBuffer/Find.antt =====
-- `circular_buffer_find` returns the position of the first byte of that value in the queue.
use psych_os.Base.{ℕ, zero, suc, ◌+◌, ◌≡◌, refl, Mem, ◌==◌, if◌then◌else◌, ap}
use psych_os.Base.Int.{pos}
use psych_os.ByteQueue
use psych_os.CircularBuffer.{CircularBuffer, next, find_loop, circular_buffer_find}
use psych_os.CircularBuffer.Inv.{window, contents}

find_loop-find_from :
    (n : ℕ) (b : CircularBuffer) (m : Mem) (val addr len : ℕ)
    → find_loop n b m val addr len
      ≡ ByteQueue.find_from len (window b.data_start b.data_end m addr n) val
unfolding find_loop
find_loop-find_from zero b m val addr len = refl
find_loop-find_from (suc n) b m val addr len =
    ap (λ r. if m addr == val then pos len else r)
      (find_loop-find_from n b m val (next b addr) (len + 1))

-- `circular_buffer_find` returns the number of bytes of the queue before the first one equal to
-- `val`, and -1 if there is none.
pub find_refines :
    (b : CircularBuffer) (m : Mem) (val : ℕ)
    → circular_buffer_find b m val ≡ ByteQueue.find_from 0 (contents b m) val
unfolding circular_buffer_find
find_refines b m val = find_loop-find_from b.current_len b m val b.head 0
