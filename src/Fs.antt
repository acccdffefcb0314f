-- ===== src/Fs.antt =====
-- student-distrib/fs/ece391_fs.c and fs/fs.c: the read-only file system image, and the file and
-- directory operations over it. The image is bytes at an address; `FileSystem` is the view that the
-- three pointers of `ece391_fs_init` give. User buffers are addresses in a memory apart from the
-- image. An error code of -1 is `none`.
pub mod Image
pub mod Driver
pub mod Files
pub mod Dentries
pub mod Reads
pub mod Overrun
pub mod Sequence
mod Tests
