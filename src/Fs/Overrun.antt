-- ===== src/Fs/Overrun.antt =====
-- Where `read_data` stops at a bad block, and where its end-of-file cap is not applied.
use psych_os.Base.{ℕ, suc, ◌+◌, ◌/◌, ◌^◌, ◌≤◌, ◌<◌, ◌≡◌, arith, none, Mem, leb, false}
use native.Mathlib.Numerals.{add-one}
use psych_os.Fs.Image.{Inode, FileSystem}
use psych_os.Fs.Driver.{read_block, Cursor, read_data_loop, start, read_data}

module _ (fs : FileSystem) (inode : Inode) (buf length fuel : ℕ) (c : Cursor) (m : Mem) where
  bad_round :
      c.bytes_written < length
      → c.file_pos < inode.file_length
      → fs.num_data_blocks ≤ inode.data_blocks c.block_num
      → read_data_loop (suc fuel) fs inode buf length c m ≡ (none, m)
  unfolding read_data_loop read_block
  bad_round w p bad = ground arith

-- A read inside the file whose first block is not in the image returns -1 and writes nothing.
pub read_data_bad_block :
    (fs : FileSystem) (inode offset : ℕ) (m : Mem) (buf length : ℕ)
    → inode < fs.num_inodes
    → offset < (fs.inodes inode).file_length
    → (fs.inodes inode).file_length < 2 ^ 32
    → 0 < length
    → length + offset < 2 ^ 32
    → fs.num_data_blocks ≤ (fs.inodes inode).data_blocks (offset / 4096)
    → read_data fs inode offset m buf length ≡ (none, m)
unfolding read_data
read_data_bad_block fs inode offset m buf length i o f z w bad =
    let t : leb fs.num_inodes inode ≡ false = ground arith in
    let u : leb (fs.inodes inode).file_length offset ≡ false = ground arith in
    rw (t, u, add-one)
      (bad_round fs (fs.inodes inode) buf _ _ (start offset) m (ground arith) o bad)
