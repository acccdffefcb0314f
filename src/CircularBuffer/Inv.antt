-- ===== src/CircularBuffer/Inv.antt =====
-- The representation invariant, and the queue of bytes that a buffer holds.
use psych_os.Base.{
  ℕ, zero, suc, ◌+◌, ◌≤◌, ◌<◌, ◌^◌, ◌≡◌, ◌⊎◌, refl, ap, arith, Mem, List, [], ◌∷◌, ◌++◌, length,
  store, ap₂,
}
use psych_os.CircularBuffer.{
  CircularBuffer, circular_buffer_init, circular_buffer_clear, next_in, next, previous,
}

-- `at` lies `n` places round the ring behind `from`.
abbrev pub Behind : CircularBuffer → ℕ → ℕ → ℕ → Type 0
Behind b from n at = (from + n ≡ at) ⊎ (from + n ≡ at + b.max_len)

pub record IsValid (b : CircularBuffer) : Type 0 where
  pub nonnull : 0 < b.data_start
  pub storage : b.data_end ≡ b.data_start + b.max_len
  pub fits : b.data_end < 2 ^ 32
  pub head_from : b.data_start ≤ b.head
  pub head_in : b.head < b.data_end
  pub tail_from : b.data_start ≤ b.tail
  pub tail_in : b.tail < b.data_end
  pub bounded : b.current_len ≤ b.max_len
  pub behind : Behind b b.head b.current_len b.tail

module _ (start stop : ℕ) where
  -- The `n` bytes from address `p` on, going round at the end of the storage.
  abbrev pub window : Mem → ℕ → ℕ → List ℕ
  window m p zero = []
  window m p (suc n) = m p ∷ window m (next_in start stop p) n

  pub length-window : (m : Mem) (p n : ℕ) → length (window m p n) ≡ n
  length-window m p zero = refl
  length-window m p (suc n) = ap suc (length-window m (next_in start stop p) n)

-- The queue of bytes in the buffer, oldest first.
abbrev pub contents : CircularBuffer → Mem → List ℕ
contents b m = window b.data_start b.data_end m b.head b.current_len

pub length-contents : (b : CircularBuffer) (m : Mem) → length (contents b m) ≡ b.current_len
length-contents b m = length-window b.data_start b.data_end m b.head b.current_len

-- Two buffers over the same storage.
pub record SameRing (b b' : CircularBuffer) : Type 0 where
  pub max : b'.max_len ≡ b.max_len
  pub start : b'.data_start ≡ b.data_start
  pub stop : b'.data_end ≡ b.data_end

-- A fresh buffer over storage that ends below the end of the address space is valid and empty.
pub init-IsValid :
    (data_buf max_len : ℕ) (m : Mem)
    → 0 < data_buf
    → 0 < max_len
    → data_buf + max_len < 2 ^ 32
    → IsValid (circular_buffer_init data_buf max_len)
      × (contents (circular_buffer_init data_buf max_len) m ≡ [])
unfolding circular_buffer_init
init-IsValid d n m h k f = (omega arith, refl)

pub clear-IsValid :
    (b : CircularBuffer) (m : Mem)
    → IsValid b
    → IsValid (circular_buffer_clear b) × (contents (circular_buffer_clear b) m ≡ [])
unfolding circular_buffer_clear
clear-IsValid b m v = (omega arith, refl)

-- One step round the ring.
pub next_step :
    (b : CircularBuffer) (p : ℕ)
    → IsValid b
    → b.data_start ≤ p
    → p < b.data_end
    → (b.data_start ≤ next b p)
      × (next b p < b.data_end)
      × ((next b p ≡ p + 1) ⊎ (next b p + b.max_len ≡ p + 1))
next_step b p v l h = ground arith

pub previous_step :
    (b : CircularBuffer) (p : ℕ)
    → IsValid b
    → b.data_start ≤ p
    → p < b.data_end
    → (b.data_start ≤ previous b p)
      × (previous b p < b.data_end)
      × ((p ≡ previous b p + 1) ⊎ (p + b.max_len ≡ previous b p + 1))
previous_step b p v l h = ground arith

-- The address of a byte of the storage.
pub record InRing (b : CircularBuffer) (p : ℕ) : Type 0 where
  pub from : b.data_start ≤ p
  pub below : p < b.data_end

-- A range of `n` bytes lies outside the storage and below the end of the address space.
pub record IsApart (b : CircularBuffer) (p n : ℕ) : Type 0 where
  pub fits : p + n < 2 ^ 32
  pub apart : (p + n ≤ b.data_start) ⊎ (b.data_end ≤ p)

module _ (b : CircularBuffer) (v : IsValid b) where
  pub next-InRing : (p : ℕ) → InRing b p → InRing b (next b p)
  next-InRing p i = ground arith

  pub next-Behind :
      (p n t : ℕ)
      → InRing b p
      → InRing b t
      → n < b.max_len
      → Behind b p (suc n) t
      → Behind b (next b p) n t
  next-Behind p n t i j l g = ground arith

  -- A write just past a window extends it by that byte.
  pub window-store :
      (m : Mem) (x n p t : ℕ)
      → InRing b p
      → InRing b t
      → n < b.max_len
      → Behind b p n t
      → window b.data_start b.data_end (store m t x) p (suc n)
        ≡ window b.data_start b.data_end m p n ++ (x ∷ [])
  window-store m x zero p t i j l g = ground arith
  window-store m x (suc n) p t i j l g = ap₂ ◌∷◌ (ground arith) (
      window-store m x n (next b p) t (next-InRing p i) j (omega arith)
        (next-Behind p n t i j (omega arith) g))

  -- A write outside the storage changes no window.
  pub window-congr :
      (m m' : Mem) (n p : ℕ)
      → InRing b p
      → ((x : ℕ) → InRing b x → m' x ≡ m x)
      → window b.data_start b.data_end m' p n ≡ window b.data_start b.data_end m p n
  window-congr m m' zero p i same = refl
  window-congr m m' (suc n) p i same =
      ap₂ ◌∷◌ (same p i) (window-congr m m' n (next b p) (next-InRing p i) same)
