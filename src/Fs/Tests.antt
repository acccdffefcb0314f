-- ===== src/Fs/Tests.antt =====
-- An image with one file of 5000 bytes in the blocks 1 and 0, of two blocks.
use psych_os.Base.{ℕ, ◌+◌, ◌-◌, ◌*◌, ◌≡◌, arith, Mem, some, ltb, leb, ◌&&◌, ◌==◌, if◌then◌else◌}
use psych_os.Fs.Image.{Dentry, Inode, FileSystem}
use psych_os.Fs.Driver.{read_dentry_by_name, read_data}
use psych_os.Fs.Files.{File, fops_file, file_read}
use psych_os.Fs.Reads.{IsSound, file_byte, read_data_lem}
use psych_os.Fs.Dentries.{HasNames, Found, read_dentry_by_name_lem}
use psych_os.Fs.Sequence.{IsReadable, file_read_twice}

abbrev blank : Mem
blank i = 0

-- The file is called "a", its inode is 0.
abbrev entry : Dentry
entry = record {
  file_name = λ i. if i == 0 then b'a' else 0;
  file_type = 2;
  inode_num = 0;
  reserved = blank;
}

-- The third block number is not one of the image's.
abbrev inode : Inode
inode = record {
  file_length = 5000;
  data_blocks = λ k. if k == 0 then 1 else if k == 1 then 0 else 9;
}

-- Byte `i` of block `b` is `100 * b + i`.
abbrev image : FileSystem
image = record {
  num_directory_entries = 1;
  num_inodes = 1;
  num_data_blocks = 2;
  directory_entries = λ i. entry;
  inodes = λ i. inode;
  data_blocks = λ b i. b * 100 + i;
}

-- The same with a file whose blocks all lie outside the image.
abbrev broken : FileSystem
broken = record image { num_data_blocks = 0 }

inode-IsSound : IsSound image inode
inode-IsSound = record { fits = omega arith; blocks = λ k l. ground arith }

names : HasNames image
names = record { bytes = λ i j. ground arith }

abbrev opened : File
opened = record { fops = fops_file; file_position = 4000; flags = 1; inode = 0 }

opened-IsReadable : IsReadable image opened
opened-IsReadable = record { there = omega arith; sound = inode-IsSound }

read_data_example :
    let (res, m') = read_data image 0 4000 blank 64 2000 in
    (res ≡ some 1000)
    × ((x : ℕ)
        → m' x
          ≡ (if leb 64 x && ltb x (64 + 1000) then file_byte image inode (4000 + (x - 64)) else 0))
unfolding read_data
read_data_example =
    read_data_lem image 0 4000 blank 64 2000 (omega arith) inode-IsSound (omega arith)

read_dentry_by_name_example :
    Found image entry.file_name entry 0 1 (read_dentry_by_name image entry.file_name entry)
read_dentry_by_name_example =
    read_dentry_by_name_lem image entry.file_name entry names (λ i. ground arith)

file_read_twice_example :
    let (r1, f1, m1) = file_read image opened blank 64 300 in
    let (r2, f2, m2) = file_read image f1 m1 (64 + 300) 2000 in
    (r1 ≡ some 300) × (r2 ≡ some 700) × (file_read image opened blank 64 2300 ≡ (some 1000, f2, m2))
file_read_twice_example =
    file_read_twice image opened blank 64 300 2000 opened-IsReadable (omega arith)
