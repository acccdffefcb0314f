-- ===== src/MemOps/Move.antt =====
-- `memmove` moves the range, however it overlaps with its source.
use psych_os.Base.{
  ℕ, zero, suc, ◌+◌, ◌-◌, ◌<◌, ◌≡◌, ◌∙◌, arith, Mem, store, leb, ltb, ◌&&◌, if◌then◌else◌, ap,
  lt-or-le, inl, inr, true, false,
}
use psych_os.MemOps.{copy_down, memmove}
use psych_os.MemOps.Copy.{moved, copy_bytes_lem}

-- Downwards no byte of the source that is still to be read has been overwritten.
copy_down_lem :
    (n : ℕ) (m : Mem) (d s x : ℕ) → s < d → copy_down n m (d + n) (s + n) x ≡ moved m d s n x
unfolding copy_down
copy_down_lem zero m d s x h = ground arith
copy_down_lem (suc n) m d s x h =
    let e : d + suc n - 1 ≡ d + n = omega arith in
    let f : s + suc n - 1 ≡ s + n = omega arith in
    rw (e, f) (copy_down_lem n (store m (d + n) (m (s + n))) d s x h ∙ last)
  where
    here : x ≡ d + n → m (s + n) ≡ m (s + (x - d))
    here e = ap m (omega arith)

    last : moved (store m (d + n) (m (s + n))) d s n x ≡ moved m d s (suc n) x
    last = ground (arith, here)

-- `memmove` leaves at each address of the destination the byte that the source held before,
-- however the two ranges overlap, and every other address as it was.
pub memmove_lem :
    (m : Mem) (dest src n x : ℕ)
    → memmove m dest src n x
      ≡ (if leb dest x && ltb x (dest + n) then m (src + (x - dest)) else m x)
unfolding memmove
memmove_lem m dest src n x = elim (lt-or-le src dest) [
  | inl l ↦ let t : leb dest src ≡ false = ground arith in rw t (copy_down_lem n m dest src x l)
  | inr l ↦
      let t : leb dest src ≡ true = ground arith in rw t (copy_bytes_lem n m dest src x (inl l))
]
