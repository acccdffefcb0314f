-- ===== src/KernelTests/Tests.antt =====
-- A file system with one entry.
use psych_os.Base.{Mem, ◌==◌, if◌then◌else◌, ◌||◌}
use psych_os.Fs.Image.{Dentry, FileSystem, ece391_fs_init}
use psych_os.Process.Sample.{blank}

-- One entry, "a", of a file of 3 bytes.
abbrev image : Mem
image a =
    if (a == 0) || ((a == 4) || (a == 8))
    then 1
    else if a == 64
    then 97
    else if a == 96
    then 2
    else if a == 4096
    then 3
    else 0

abbrev fs : FileSystem
fs = ece391_fs_init image 0

abbrev nothing : Dentry
nothing = record { file_name = blank; file_type = 0; inode_num = 0; reserved = blank }
