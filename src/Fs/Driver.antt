-- ===== src/Fs/Driver.antt =====
-- The functions of student-distrib/fs/ece391_fs.c.
use psych_os.Base.{
  ℕ, zero, suc, ◌+◌, ◌-◌, ◌/◌, ◌%◌, Bool, false, Option, none, some, Mem, add32, sub32, ltb, leb,
  ◌==◌, ◌&&◌, if◌then◌else◌,
}
use psych_os.Base.Int.{ℤ, pos, negsuc}
use psych_os.Str.{strncmp, strncpy}
use psych_os.Fs.Image.{Dentry, Inode, FileSystem, max_file_name_length, fs_block_size}

-- `memcpy` from offset `from` of one object to address `dest` of another.
abbrev pub copy_in : Mem → ℕ → Mem → ℕ → ℕ → Mem
copy_in m dest src from n x =
    if leb dest x && ltb x (dest + n) then src (from + (x - dest)) else m x

-- The assignments to `*dentry` that both lookups make.
unfoldable pub fill_dentry : Dentry → Dentry → Dentry
fill_dentry dentry dir_entry = record {
  file_name = strncpy dentry.file_name dir_entry.file_name max_file_name_length;
  file_type = dir_entry.file_type;
  inode_num = dir_entry.inode_num;
  reserved = copy_in dentry.reserved 0 dir_entry.reserved 0 24;
}

abbrev pub is_zero : ℤ → Bool
is_zero (pos n) = n == 0
is_zero (negsuc n) = false

-- The first argument counts the rounds left.
unfoldable pub find_dentry : ℕ → FileSystem → Mem → Dentry → ℕ → Option Dentry
find_dentry zero fs fname dentry i = none
find_dentry (suc n) fs fname dentry i =
    let rest = find_dentry n fs fname dentry (i + 1) in
    if is_zero (strncmp fname (fs.directory_entries i).file_name max_file_name_length)
    then some (fill_dentry dentry (fs.directory_entries i))
    else rest

unfoldable pub read_dentry_by_name : FileSystem → Mem → Dentry → Option Dentry
unfolding find_dentry
read_dentry_by_name fs fname dentry = find_dentry fs.num_directory_entries fs fname dentry 0

unfoldable pub read_dentry_by_index : FileSystem → ℕ → Dentry → Option Dentry
read_dentry_by_index fs index dentry =
    if leb fs.num_directory_entries index
    then none
    else some (fill_dentry dentry (fs.directory_entries index))

unfoldable pub read_block : FileSystem → ℕ → ℕ → Mem → ℕ → ℕ → Option ℕ × Mem
read_block fs block_index offset m buf length =
    if leb fs.num_data_blocks block_index
    then (none, m)
    else if leb fs_block_size offset
    then (none, m)
    else let length' =
        if ltb (fs_block_size - offset) length then fs_block_size - offset else length in
      (some length', copy_in m buf (fs.data_blocks block_index) offset length')

-- The local variables of the loop of `read_data`.
pub record Cursor : Type 0 where
  pub block_num : ℕ
  pub file_pos : ℕ
  pub block_pos : ℕ
  pub bytes_written : ℕ

unfoldable pub advance : Cursor → ℕ → Cursor
advance c res =
    let pos = add32 c.block_pos res in
    record {
      block_num = if leb fs_block_size pos then c.block_num + 1 else c.block_num;
      file_pos = add32 c.file_pos res;
      block_pos = if leb fs_block_size pos then pos - fs_block_size else pos;
      bytes_written = add32 c.bytes_written res;
    }

abbrev pub to_copy : ℕ → Cursor → ℕ
to_copy length c =
    if ltb (sub32 length c.bytes_written) (sub32 fs_block_size c.block_pos)
    then sub32 length c.bytes_written
    else sub32 fs_block_size c.block_pos

-- `if(res < 0) return -1;`, and else what follows.
abbrev pub or_fail : (ℕ → Mem → Option ℕ × Mem) → Option ℕ × Mem → Option ℕ × Mem
or_fail next (none, m) = (none, m)
or_fail next (some res, m) = next res m

-- Where the fuel runs out the result is that of an error; a round reads at least one byte, so
-- that `length + 1` rounds are enough.
unfoldable pub read_data_loop : ℕ → FileSystem → Inode → ℕ → ℕ → Cursor → Mem → Option ℕ × Mem
read_data_loop zero fs inode buf length c m = (none, m)
read_data_loop (suc fuel) fs inode buf length c m =
    let body : Option ℕ × Mem =
      or_fail (λ n m'. read_data_loop fuel fs inode buf length (advance c n) m')
        (read_block fs (inode.data_blocks c.block_num) c.block_pos m (buf + c.bytes_written)
          (to_copy length c)) in
    if ltb c.bytes_written length && ltb c.file_pos inode.file_length
    then body
    else (some c.bytes_written, m)

abbrev pub start : ℕ → Cursor
start offset = record {
  block_num = offset / fs_block_size;
  file_pos = offset;
  block_pos = offset % fs_block_size;
  bytes_written = 0;
}

unfoldable pub read_data : FileSystem → ℕ → ℕ → Mem → ℕ → ℕ → Option ℕ × Mem
read_data fs inode offset m buf length =
    let inode_block = fs.inodes inode in
    if leb fs.num_inodes inode
    then (none, m)
    else if leb inode_block.file_length offset
    then (some 0, m)
    else let length' =
        if ltb inode_block.file_length (add32 length offset)
        then sub32 inode_block.file_length offset
        else length in
      read_data_loop (length' + 1) fs inode_block buf length' (start offset) m

unfoldable pub get_file_size : FileSystem → ℕ → Option ℕ
get_file_size fs inode =
    if leb fs.num_inodes inode then none else some (fs.inodes inode).file_length
