-- ===== src/Fs/Image.antt =====
-- The layout of include/fs/ece391_fs.h over the bytes of an image, and `ece391_fs_init`.
use psych_os.Base.{ℕ, ◌+◌, ◌*◌, Mem}

pub record Dentry : Type 0 where
  pub file_name : Mem
  pub file_type : ℕ
  pub inode_num : ℕ
  pub reserved : Mem

pub record Inode : Type 0 where
  pub file_length : ℕ
  pub data_blocks : ℕ → ℕ

pub record FileSystem : Type 0 where
  pub num_directory_entries : ℕ
  pub num_inodes : ℕ
  pub num_data_blocks : ℕ
  pub directory_entries : ℕ → Dentry
  pub inodes : ℕ → Inode
  pub data_blocks : ℕ → Mem

abbrev pub max_file_name_length : ℕ
max_file_name_length = 32

abbrev pub fs_block_size : ℕ
fs_block_size = 4096

-- A little-endian `uint32_t`.
abbrev pub read32 : Mem → ℕ → ℕ
read32 m a = m a + 256 * m (a + 1) + 65536 * m (a + 2) + 16777216 * m (a + 3)

dentry_at : Mem → ℕ → Dentry
dentry_at m a = record {
  file_name = λ i. m (a + i);
  file_type = read32 m (a + 32);
  inode_num = read32 m (a + 36);
  reserved = λ i. m (a + 40 + i);
}

inode_at : Mem → ℕ → Inode
inode_at m a = record { file_length = read32 m a; data_blocks = λ k. read32 m (a + 4 + 4 * k) }

-- The inode blocks follow the boot block, and the data blocks follow them.
unfoldable pub ece391_fs_init : Mem → ℕ → FileSystem
unfolding dentry_at inode_at
ece391_fs_init m ptr = record {
  num_directory_entries = read32 m ptr;
  num_inodes = read32 m (ptr + 4);
  num_data_blocks = read32 m (ptr + 8);
  directory_entries = λ i. dentry_at m (ptr + 64 + 64 * i);
  inodes = λ k. inode_at m (ptr + 4096 + 4096 * k);
  data_blocks = λ b i. m (ptr + 4096 + 4096 * read32 m (ptr + 4) + 4096 * b + i);
}
