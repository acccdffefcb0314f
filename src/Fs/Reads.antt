-- ===== src/Fs/Reads.antt =====
-- `read_data` reads the bytes of the file that the inode's blocks hold.
use psych_os.Base.{
  ℕ, zero, suc, ◌+◌, ◌-◌, ◌*◌, ◌/◌, ◌%◌, ◌^◌, ◌≤◌, ◌<◌, min, ◌≡◌, ◌∙◌, arith, some, Mem, add32,
  sub32, ltb, leb, ◌&&◌, if◌then◌else◌, true, false, inl, inr, lt-or-le, ap, ap₂,
}
use native.Mathlib.Nat.{add-zero}
use psych_os.Fs.Image.{Inode, FileSystem}
use psych_os.Fs.Driver.{
  copy_in, read_block, Cursor, advance, to_copy, read_data_loop, start, read_data,
}

-- Byte `k` of the file of an inode.
abbrev pub file_byte : FileSystem → Inode → ℕ → ℕ
file_byte fs inode k = fs.data_blocks (inode.data_blocks (k / 4096)) (k % 4096)

-- An inode whose length fits its block table, and whose blocks are in the image.
pub record IsSound (fs : FileSystem) (inode : Inode) : Type 0 where
  pub fits : inode.file_length ≤ 1023 * 4096
  pub blocks : (k : ℕ) → k * 4096 < inode.file_length → inode.data_blocks k < fs.num_data_blocks

module _ (fs : FileSystem) (inode : Inode) (buf offset length : ℕ) where
  -- What holds each time round the loop.
  record AtLoop (c : Cursor) : Type 0 where
    at_block : c.block_num * 4096 + c.block_pos ≡ c.file_pos
    in_block : c.block_pos < 4096
    at_file : c.file_pos ≡ offset + c.bytes_written
    within : c.bytes_written ≤ length
    inside : offset + length ≤ inode.file_length

  -- The memory when the bytes from `w` up to `v` have been copied to the buffer.
  abbrev filled : Mem → ℕ → ℕ → ℕ → ℕ
  filled m w v x =
      if leb (buf + w) x && ltb x (buf + v) then file_byte fs inode (offset + (x - buf)) else m x

  module _ (sound : IsSound fs inode) where
    AtLoop-advance :
        (c : Cursor) → AtLoop c → c.bytes_written < length → AtLoop (advance c (to_copy length c))
    unfolding advance
    AtLoop-advance c a l = ground (arith, sound.fits)

    progress :
        (c : Cursor)
        → AtLoop c
        → c.bytes_written < length
        → ((advance c (to_copy length c)).bytes_written ≡ c.bytes_written + to_copy length c)
          × (0 < to_copy length c)
          × (to_copy length c ≤ 4096 - c.block_pos)
          × (c.bytes_written + to_copy length c ≤ length)
    unfolding advance
    progress c a l = ground (arith, sound.fits)

    block_ok :
        (c : Cursor) (m : Mem)
        → AtLoop c
        → c.bytes_written < length
        → read_block fs
            (inode.data_blocks c.block_num)
            c.block_pos
            m
            (buf + c.bytes_written)
            (to_copy length c)
          ≡ (
            some (to_copy length c),
            copy_in m
                (buf + c.bytes_written)
                (fs.data_blocks (inode.data_blocks c.block_num))
                c.block_pos
                (to_copy length c),
          )
    unfolding read_block
    block_ok c m a l = ground (arith, sound.blocks c.block_num, progress c a l)

    -- One round of `n` bytes from one block, and then the rest.
    filled-step :
        (c : Cursor) (m : Mem) (n x : ℕ)
        → AtLoop c
        → n ≤ 4096 - c.block_pos
        → c.bytes_written + n ≤ length
        → filled
            (copy_in m
              (buf + c.bytes_written)
              (fs.data_blocks (inode.data_blocks c.block_num))
              c.block_pos
              n)
            (c.bytes_written + n)
            length
            x
          ≡ filled m c.bytes_written length x
    filled-step c m n x a l k = ground (arith, here)
      where
        here :
            buf + c.bytes_written ≤ x
            → x < buf + c.bytes_written + n
            → fs.data_blocks
                (inode.data_blocks c.block_num)
                (c.block_pos + (x - (buf + c.bytes_written)))
              ≡ file_byte fs inode (offset + (x - buf))
        here p q = ap₂ (λ b i. fs.data_blocks (inode.data_blocks b) i) (omega arith) (omega arith)

    read_data_loop_lem :
        (fuel : ℕ) (c : Cursor) (m : Mem)
        → AtLoop c
        → length < c.bytes_written + fuel
        → ((read_data_loop fuel fs inode buf length c m).0 ≡ some length)
          × ((x : ℕ)
              → (read_data_loop fuel fs inode buf length c m).1 x
                ≡ filled m c.bytes_written length x)
    unfolding read_data_loop
    read_data_loop_lem zero c m a l = absurd (omega (arith, a.within))
    read_data_loop_lem (suc fuel) c m a l = elim (lt-or-le c.bytes_written length) [
      | inl more ↦
          let t : ltb c.bytes_written length ≡ true = ground arith in
          let n : ℕ = to_copy length c in
          let u : ltb c.file_pos inode.file_length ≡ true = ground arith in
          let (written, pos, block, within) = progress c a more in
          let (res, mem) =
            read_data_loop_lem fuel (advance c (to_copy length c))
              (copy_in m (buf + c.bytes_written) (fs.data_blocks (inode.data_blocks c.block_num))
                c.block_pos (to_copy length c))
              (AtLoop-advance c a more) (omega (arith, written, pos)) in
          rw (t, u, block_ok c m a more)
            (res, λ x. mem x ∙ rw written (filled-step c m (to_copy length c) x a block within))
      | inr done ↦
          let t : ltb c.bytes_written length ≡ false = ground arith in
          let e : c.bytes_written ≡ length = omega arith in rw t (ap some e, λ x. ground arith)
    ]

-- `read_data` on a sound inode, with a length whose sum with the offset does not wrap, returns the
-- number of bytes that the file has from the offset on, at most `length`, and copies exactly those
-- bytes, in file order across block boundaries, to the buffer; no other byte of memory changes.
pub read_data_lem :
    (fs : FileSystem) (inode offset : ℕ) (m : Mem) (buf length : ℕ)
    → inode < fs.num_inodes
    → IsSound fs (fs.inodes inode)
    → length + offset < 2 ^ 32
    → let n = min length ((fs.inodes inode).file_length - offset) in
      let (res, m') = read_data fs inode offset m buf length in
      (res ≡ some n)
      × ((x : ℕ)
          → m' x ≡ (
              if leb buf x && ltb x (buf + n)
              then file_byte fs (fs.inodes inode) (offset + (x - buf))
              else m x))
unfolding read_data
read_data_lem fs inode offset m buf length i sound w =
    elim (lt-or-le offset (fs.inodes inode).file_length) [
      | inl inside ↦
          let (res, mem) =
            read_data_loop_lem fs file buf offset n sound (n + 1) (start offset) m (omega arith)
              (omega arith) in
          let u : leb file.file_length offset ≡ false = ground arith in
          rw (there, u, count inside)
            (
              res,
              λ x.
                  mem x
                  ∙ ap
                      (λ a.
                        if leb a x && ltb x (buf + n)
                        then file_byte fs file (offset + (x - buf))
                        else m x)
                      (add-zero buf),
            )
      | inr eof ↦
          let u : leb file.file_length offset ≡ true = ground arith in
          rw (there, u) (ground arith, λ x. ground arith)
    ]
  where
    file : Inode
    file = fs.inodes inode

    n : ℕ
    n = min length (file.file_length - offset)

    there : leb fs.num_inodes inode ≡ false
    there = ground arith

    count :
        offset < file.file_length
        → (if ltb file.file_length (add32 length offset)
            then sub32 file.file_length offset
            else length)
          ≡ n
    count inside = ground (arith, sound.fits)
