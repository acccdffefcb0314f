-- ===== src/MemOps/Fill.antt =====
-- `memset`, `memset_word` and `memset_dword` fill the range, and nothing else.
use psych_os.Base.{
  ℕ, zero, suc, ◌+◌, ◌-◌, ◌*◌, ◌/◌, ◌%◌, ◌≡◌, arith, Mem, store, leb, ltb, ◌&&◌, ◌==◌,
  if◌then◌else◌,
}
use psych_os.MemOps.{
  store_dword, set_bytes, set_dwords, set_aligned, set_top, memset, set_words, memset_word,
  memset_dword, set_longs,
}

set_bytes_lem :
    (n : ℕ) (m : Mem) (a c x : ℕ)
    → set_bytes n m a c x ≡ (if leb a x && ltb x (a + n) then c else m x)
unfolding set_bytes
set_bytes_lem zero m a c x = ground arith
set_bytes_lem (suc n) m a c x = ground (arith, set_bytes_lem n (store m a c) (a + 1) c x)

set_dwords_lem :
    (n : ℕ) (m : Mem) (a c x : ℕ)
    → set_dwords n m a c x ≡ (if leb a x && ltb x (a + 4 * n) then c else m x)
unfolding set_dwords
set_dwords_lem zero m a c x = ground arith
set_dwords_lem (suc n) m a c x =
    ground (arith, set_dwords_lem n (store_dword m a c c c c) (a + 4) c x)

set_top_lem :
    (n : ℕ) (m : Mem) (a c x : ℕ)
    → set_top n m a c x ≡ (if leb a x && ltb x (a + n) then c else m x)
unfolding set_top set_aligned
set_top_lem zero m a c x = ground arith
set_top_lem (suc n) m a c x = ground (
  arith,
  set_top_lem n (store m a c) (a + 1) c x,
  set_bytes_lem (suc n % 4) (set_dwords (suc n / 4) m a c) (a + 4 * (suc n / 4)) c x,
  set_dwords_lem (suc n / 4) m a c x,
)

-- `memset` writes the low byte of `c` at the `n` addresses from `s` on, whatever their alignment,
-- and leaves every other address alone.
pub memset_lem :
    (m : Mem) (s c n x : ℕ) → memset m s c n x ≡ (if leb s x && ltb x (s + n) then c % 256 else m x)
unfolding memset
memset_lem m s c n x = set_top_lem n m s (c % 256) x

set_words_lem :
    (n : ℕ) (m : Mem) (a c x : ℕ)
    → set_words n m a c x ≡ (
        if leb a x && ltb x (a + 2 * n)
        then if (x - a) % 2 == 0 then c % 256 else c / 256 % 256
        else m x)
unfolding set_words
set_words_lem zero m a c x = ground arith
set_words_lem (suc n) m a c x =
    ground
      (arith, set_words_lem n (store (store m a (c % 256)) (a + 1) (c / 256 % 256)) (a + 2) c x)

-- `memset_word` writes the low 16 bits of `c`, low byte first, at the `n` words from `s` on, and
-- leaves every other address alone.
pub memset_word_lem :
    (m : Mem) (s c n x : ℕ)
    → memset_word m s c n x ≡ (
        if leb s x && ltb x (s + 2 * n)
        then if (x - s) % 2 == 0 then c % 256 else c / 256 % 256
        else m x)
unfolding memset_word
memset_word_lem m s c n x = set_words_lem n m s c x

-- The byte of a 32-bit word at an offset behind its start.
abbrev pub byte_at : ℕ → ℕ → ℕ
byte_at c i =
    if i == 0
    then c % 256
    else if i == 1
    then c / 256 % 256
    else if i == 2
    then c / 65536 % 256
    else c / 16777216 % 256

set_longs_lem :
    (n : ℕ) (m : Mem) (a c x : ℕ)
    → set_longs n m a c x ≡ (if leb a x && ltb x (a + 4 * n) then byte_at c ((x - a) % 4) else m x)
unfolding set_longs
set_longs_lem zero m a c x = ground arith
set_longs_lem (suc n) m a c x =
    let low = store (store m a (c % 256)) (a + 1) (c / 256 % 256) in
    let high = store (store low (a + 2) (c / 65536 % 256)) (a + 3) (c / 16777216 % 256) in
    ground (arith, set_longs_lem n high (a + 4) c x)

-- `memset_dword` writes the 32 bits of `c`, low byte first, at the `n` words from `s` on, and leaves
-- every other address alone.
pub memset_dword_lem :
    (m : Mem) (s c n x : ℕ)
    → memset_dword m s c n x
      ≡ (if leb s x && ltb x (s + 4 * n) then byte_at c ((x - s) % 4) else m x)
unfolding memset_dword
memset_dword_lem m s c n x = set_longs_lem n m s c x
