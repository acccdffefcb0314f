-- ===== src/MemOps.antt =====
-- The block operations of student-distrib/lib/lib.c, whose loops are inline assembly: bytes in
-- front of a 4-byte boundary, double words, and the bytes left over. Registers are the arguments
-- (`edi`, `esi`, `ecx`); addresses do not wrap. A double word is moved whole, as `movsl` does.
pub mod Fill
pub mod Copy
pub mod Move
mod Tests
use psych_os.Base.{ℕ, zero, suc, ◌+◌, ◌-◌, ◌*◌, ◌/◌, ◌%◌, Mem, store, leb, ◌==◌, if◌then◌else◌}

-- `rep stosb`-like loop over single bytes: `.memset_bottom`.
set_bytes : ℕ → Mem → ℕ → ℕ → Mem
set_bytes zero m edi c = m
set_bytes (suc n) m edi c = set_bytes n (store m edi c) (edi + 1) c

-- The four bytes of a double word, written at once.
abbrev pub store_dword : Mem → ℕ → ℕ → ℕ → ℕ → ℕ → Mem
store_dword m a b0 b1 b2 b3 = store (store (store (store m a b0) (a + 1) b1) (a + 2) b2) (a + 3) b3

-- `rep stosl` with the byte `c` in all four bytes of `eax`.
set_dwords : ℕ → Mem → ℕ → ℕ → Mem
set_dwords zero m edi c = m
set_dwords (suc n) m edi c = set_dwords n (store_dword m edi c c c c) (edi + 4) c

-- `.memset_aligned`
set_aligned : ℕ → Mem → ℕ → ℕ → Mem
set_aligned ecx m edi c = set_bytes (ecx % 4) (set_dwords (ecx / 4) m edi c) (edi + 4 * (ecx / 4)) c

-- `.memset_top`
set_top : ℕ → Mem → ℕ → ℕ → Mem
unfolding set_aligned
set_top zero m edi c = m
set_top (suc ecx) m edi c =
    let rest = set_top ecx (store m edi c) (edi + 1) c in
    if edi % 4 == 0 then set_aligned (suc ecx) m edi c else rest

pub memset : Mem → ℕ → ℕ → ℕ → Mem
unfolding set_top
memset m s c n = set_top n m s (c % 256)

-- `rep stosw`: `n` 16-bit words, the low byte first.
set_words : ℕ → Mem → ℕ → ℕ → Mem
set_words zero m edi c = m
set_words (suc n) m edi c =
    set_words n (store (store m edi (c % 256)) (edi + 1) (c / 256 % 256)) (edi + 2) c

pub memset_word : Mem → ℕ → ℕ → ℕ → Mem
unfolding set_words
memset_word m s c n = set_words n m s c

-- `rep stosl`: `n` 32-bit words, the low byte first.
set_longs : ℕ → Mem → ℕ → ℕ → Mem
set_longs zero m edi c = m
set_longs (suc n) m edi c =
    let low = store (store m edi (c % 256)) (edi + 1) (c / 256 % 256) in
    let high = store (store low (edi + 2) (c / 65536 % 256)) (edi + 3) (c / 16777216 % 256) in
    set_longs n high (edi + 4) c

pub memset_dword : Mem → ℕ → ℕ → ℕ → Mem
unfolding set_longs
memset_dword m s c n = set_longs n m s c

-- `.memcpy_bottom`, and `rep movsb` of `memmove` in the forward direction.
pub copy_bytes : ℕ → Mem → ℕ → ℕ → Mem
copy_bytes zero m edi esi = m
copy_bytes (suc n) m edi esi = copy_bytes n (store m edi (m esi)) (edi + 1) (esi + 1)

-- `rep movsl`
copy_dwords : ℕ → Mem → ℕ → ℕ → Mem
copy_dwords zero m edi esi = m
copy_dwords (suc n) m edi esi =
    copy_dwords n (store_dword m edi (m esi) (m (esi + 1)) (m (esi + 2)) (m (esi + 3))) (edi + 4)
      (esi + 4)

-- `.memcpy_aligned`
copy_aligned : ℕ → Mem → ℕ → ℕ → Mem
copy_aligned ecx m edi esi =
    copy_bytes (ecx % 4) (copy_dwords (ecx / 4) m edi esi) (edi + 4 * (ecx / 4))
      (esi + 4 * (ecx / 4))

-- `.memcpy_top`
copy_top : ℕ → Mem → ℕ → ℕ → Mem
unfolding copy_aligned
copy_top zero m edi esi = m
copy_top (suc ecx) m edi esi =
    let rest = copy_top ecx (store m edi (m esi)) (edi + 1) (esi + 1) in
    if edi % 4 == 0 then copy_aligned (suc ecx) m edi esi else rest

pub memcpy : Mem → ℕ → ℕ → ℕ → Mem
unfolding copy_top copy_bytes copy_dwords
memcpy m dest src n = copy_top n m dest src

-- `rep movsb` with the direction flag set: from the last byte down. `edi` and `esi` are the
-- addresses behind the byte that is moved next.
copy_down : ℕ → Mem → ℕ → ℕ → Mem
copy_down zero m edi esi = m
copy_down (suc n) m edi esi = copy_down n (store m (edi - 1) (m (esi - 1))) (edi - 1) (esi - 1)

pub memmove : Mem → ℕ → ℕ → ℕ → Mem
unfolding copy_bytes copy_down
memmove m dest src n =
    if leb dest src then copy_bytes n m dest src else copy_down n m (dest + n) (src + n)
