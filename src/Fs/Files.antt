-- ===== src/Fs/Files.antt =====
-- The functions of student-distrib/fs/fs.c.
use psych_os.Base.{ℕ, Option, none, some, Mem, add32, ltb, leb, ◌^◌, if◌then◌else◌}
use psych_os.Fs.Image.{Dentry, FileSystem, max_file_name_length}
use psych_os.Fs.Driver.{copy_in, read_data, read_dentry_by_name, read_dentry_by_index}

-- `file_t` of include/lib/file.h. The table of operations is one of those that the kernel
-- declares, by name; `fops_null` is the null pointer.
pub data FileOps : Type 0 where
  fops_null fops_rtc fops_dir fops_file fops_stdin fops_stdout : FileOps

pub record File : Type 0 where
  pub fops : FileOps
  pub file_position : ℕ
  pub flags : ℕ
  pub inode : ℕ

-- An `int32_t` result, with -1 as `none`; such results stay below 2^31.
unfoldable pub file_open : File → Option ℕ
file_open f = some 0

unfoldable pub file_close : File → Option ℕ
file_close f = some 0

-- `if(res < 0) return -1; f->file_position += res; return res;`
abbrev pub move_on : File → Option ℕ × Mem → Option ℕ × File × Mem
move_on f (none, m) = (none, f, m)
move_on f (some res, m) = (some res, record f { file_position = add32 f.file_position res }, m)

-- The length is passed on as the `uint32_t` with the pattern of `nbytes`.
unfoldable pub file_read : FileSystem → File → Mem → ℕ → ℕ → Option ℕ × File × Mem
file_read fs f m buf nbytes = move_on f (read_data fs f.inode f.file_position m buf nbytes)

unfoldable pub file_write : File → ℕ → ℕ → Option ℕ
file_write f buf nbytes = none

unfoldable pub read_file_by_name : FileSystem → Mem → Dentry → Mem → ℕ → ℕ → Option ℕ × Mem
read_file_by_name fs filename dentry m buf nbytes = elim (read_dentry_by_name fs filename dentry) [
  | none ↦ (none, m)
  | some d ↦ read_data fs d.inode_num 0 m buf nbytes
]

unfoldable pub dir_open : File → Option ℕ
dir_open f = some 0

unfoldable pub dir_close : File → Option ℕ
dir_close f = some 0

-- `nbytes` is a pattern of 32 bits; a negative one is above every limit as a number, and its
-- comparison as `int32_t` passes it on to `memcpy`. The first dentry is the uninitialised local.
unfoldable pub dir_read : FileSystem → Dentry → File → Mem → ℕ → ℕ → Option ℕ × File × Mem
dir_read fs dentry f m buf nbytes = elim (read_dentry_by_index fs f.file_position dentry) [
  | none ↦ (some 0, f, m)
  | some d ↦
      let n =
        if leb (2 ^ 31) nbytes
        then nbytes
        else if ltb nbytes max_file_name_length
        then nbytes
        else max_file_name_length in
      (some n, record f { file_position = add32 f.file_position 1 }, copy_in m buf d.file_name 0 n)
]

unfoldable pub dir_write : File → ℕ → ℕ → Option ℕ
dir_write f buf nbytes = none
