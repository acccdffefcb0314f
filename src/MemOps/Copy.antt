-- ===== src/MemOps/Copy.antt =====
-- `memcpy` moves the range, for any alignment of its addresses.
use psych_os.Base.{
  ℕ, zero, suc, ◌+◌, ◌-◌, ◌*◌, ◌/◌, ◌%◌, ◌≤◌, ◌<◌, ◌≡◌, ◌⊎◌, ◌∙◌, arith, Mem, store, leb, ltb, ◌&&◌,
  if◌then◌else◌, ap, eq-or-ne, lt-or-le, inl, inr, fun_ext, Bool-cases, ◌==◌,
}
use psych_os.MemOps.{store_dword, copy_bytes, copy_dwords, copy_aligned, copy_top, memcpy}

-- Moving `n` bytes upwards from the front reads no byte that has been overwritten.
abbrev pub IsClear : ℕ → ℕ → ℕ → Type 0
IsClear dest src n = (dest ≤ src) ⊎ (src + n ≤ dest)

-- The memory after `n` bytes have moved.
abbrev pub moved : Mem → ℕ → ℕ → ℕ → Mem
moved m dest src n x = if leb dest x && ltb x (dest + n) then m (src + (x - dest)) else m x

-- One byte, and then the rest.
pub moved-suc :
    (n : ℕ) (m : Mem) (d s x : ℕ)
    → IsClear d s (suc n)
    → moved (store m d (m s)) (d + 1) (s + 1) n x ≡ moved m d s (suc n) x
moved-suc n m d s x h = elim (eq-or-ne x d) [
  | inl e ↦ rw e (ground arith)
  | inr e ↦ ground (arith, shifted)
]
  where
    shifted : d < x → m (s + 1 + (x - (d + 1))) ≡ m (s + (x - d))
    shifted l = ap m (omega arith)

pub copy_bytes_lem :
    (n : ℕ) (m : Mem) (d s x : ℕ) → IsClear d s n → copy_bytes n m d s x ≡ moved m d s n x
unfolding copy_bytes
copy_bytes_lem zero m d s x h = ground arith
copy_bytes_lem (suc n) m d s x h =
    copy_bytes_lem n (store m d (m s)) (d + 1) (s + 1) x (omega arith) ∙ moved-suc n m d s x h

copy_dwords_lem :
    (n : ℕ) (m : Mem) (d s x : ℕ)
    → IsClear d s (4 * n)
    → copy_dwords n m d s x ≡ moved m d s (4 * n) x
unfolding copy_dwords
copy_dwords_lem zero m d s x h = ground arith
copy_dwords_lem (suc n) m d s x h =
    copy_dwords_lem n (store_dword m d (m s) (m (s + 1)) (m (s + 2)) (m (s + 3))) (d + 4) (s + 4) x
      (omega arith)
    ∙ elim (lt-or-le x d) [
      | inl l ↦ ground arith
      | inr l ↦ elim (lt-or-le x (d + 4)) [
        | inl k ↦ ground (arith, offset 0, offset 1, offset 2, offset 3)
        | inr k ↦ ground (arith, shifted k)
      ]
    ]
  where
    shifted : d + 4 ≤ x → m (s + 4 + (x - (d + 4))) ≡ m (s + (x - d))
    shifted l = ap m (omega arith)

    offset : (k : ℕ) → d + k ≡ x → m (s + k) ≡ m (s + (x - d))
    offset k e = ap m (omega arith)

-- Two ranges that follow one another.
moved-add :
    (m : Mem) (d s a b n x : ℕ)
    → a + b ≡ n
    → IsClear d s n
    → moved (moved m d s a) (d + a) (s + a) b x ≡ moved m d s n x
moved-add m d s a b n x e h = ground (arith, shifted)
  where
    shifted : d + a ≤ x → m (s + a + (x - (d + a))) ≡ m (s + (x - d))
    shifted l = ap m (omega arith)

copy_aligned_lem :
    (n : ℕ) (m : Mem) (d s x : ℕ) → IsClear d s n → copy_aligned n m d s x ≡ moved m d s n x
unfolding copy_aligned
copy_aligned_lem n m d s x h =
    copy_bytes_lem (n % 4) (copy_dwords (n / 4) m d s) (d + 4 * (n / 4)) (s + 4 * (n / 4)) x
      (omega arith)
    ∙ ap (λ w. moved w (d + 4 * (n / 4)) (s + 4 * (n / 4)) (n % 4) x)
        (fun_ext (λ y. copy_dwords_lem (n / 4) m d s y (omega arith)))
    ∙ moved-add m d s (4 * (n / 4)) (n % 4) n x (omega arith) h

copy_top_lem : (n : ℕ) (m : Mem) (d s x : ℕ) → IsClear d s n → copy_top n m d s x ≡ moved m d s n x
unfolding copy_top
copy_top_lem zero m d s x h = ground arith
copy_top_lem (suc n) m d s x h = elim (Bool-cases (d % 4 == 0)) [
  | inl e ↦ rw e (copy_aligned_lem (suc n) m d s x h)
  | inr e ↦
      rw e
        (copy_top_lem n (store m d (m s)) (d + 1) (s + 1) x (omega arith) ∙ moved-suc n m d s x h)
]

-- `memcpy`, whose destination starts at or below its source or behind the source's end, leaves at
-- each address of the destination the byte that the source held before, whatever the alignment,
-- and every other address as it was.
pub memcpy_lem :
    (m : Mem) (dest src n x : ℕ)
    → IsClear dest src n
    → memcpy m dest src n x ≡ (if leb dest x && ltb x (dest + n) then m (src + (x - dest)) else m x)
unfolding memcpy
memcpy_lem m dest src n x h = copy_top_lem n m dest src x h
