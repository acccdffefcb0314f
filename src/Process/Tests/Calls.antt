-- ===== src/Process/Tests/Calls.antt =====
-- System calls of these processes, over an image with one file.
use psych_os.Base.{
  ℕ, ◌≡◌, ◌≢◌, ◌≤◌, ◌<◌, ◌⊎◌, refl, arith, [], ◌∷◌, none, some, get_or, ◌==◌, if◌then◌else◌, true,
  false,
}
use psych_os.Fs.Image.{Dentry, FileSystem}
use psych_os.Fs.Driver.{read_dentry_by_name}
use psych_os.Process.State.{Kernel}
use psych_os.Process.Descriptors.{in_use, has_close, file_of, syscall_open, syscall_close}
use psych_os.Process.Descriptors.Opening.{IsLowest, Opened, syscall_open_lem}
use psych_os.Process.Descriptors.Closing.{Closed, syscall_close_lem}
use psych_os.Fs.Files.{File, fops_file}
use psych_os.Fs.Sequence.{IsReadable, delivered}
use psych_os.Process.Transfer.{Surroundings, syscall_read}
use psych_os.Process.Transfer.Files.{read_open_file}
use psych_os.Process.Programs.{syscall_halt}
use psych_os.Process.Programs.Halting.{Resumed, syscall_halt_lem}
use psych_os.Process.Sample.{blank, process, kernel}

-- One entry, "a", of type 2.
abbrev dentry : Dentry
dentry = record {
  file_name = λ i. if i == 0 then b'a' else 0;
  file_type = 2;
  inode_num = 7;
  reserved = blank;
}

abbrev image : FileSystem
image = record {
  num_directory_entries = 1;
  num_inodes = 8;
  num_data_blocks = 1;
  directory_entries = λ i. dentry;
  inodes = λ i. record { file_length = 100; data_blocks = λ k. 0 };
  data_blocks = λ b. blank;
}

syscall_open_example :
    let (r, k') = syscall_open image dentry.file_name dentry kernel 1 0 0 in
    ((r ≡ none)
      × (k' ≡ kernel)
      × (((j : ℕ) → 0 ≤ j → j < 8 → in_use (file_of kernel 1 j) ≡ true)
          ⊎ ((read_dentry_by_name image dentry.file_name dentry ≡ none)
              ⊎ ((d : Dentry) × (read_dentry_by_name image dentry.file_name dentry ≡ some d)
                  × (2 < d.file_type)))))
    ⊎ ((fd : ℕ) × (d : Dentry) × (r ≡ some fd)
        × (fd < 8)
        × IsLowest (kernel.pcbs 1).fa 0 fd
        × (read_dentry_by_name image dentry.file_name dentry ≡ some d)
        × Opened kernel k' 1 fd d)
syscall_open_example = syscall_open_lem image dentry.file_name dentry kernel 1 0 0

syscall_close_example :
    let (r, k') = syscall_close kernel 1 3 in
    ((r ≡ some 0)
      × (3 < 8)
      × (in_use (file_of kernel 1 3) ≡ true)
      × (has_close (file_of kernel 1 3).fops ≡ true)
      × Closed kernel k' 1 3)
    ⊎ ((r ≡ none)
        × (k' ≡ kernel)
        × ((8 ≤ 3)
            ⊎ ((in_use (file_of kernel 1 3) ≡ false)
                ⊎ (has_close (file_of kernel 1 3).fops ≡ false))))
syscall_close_example = syscall_close_lem kernel 1 3

abbrev surroundings : Surroundings
surroundings = record { fs = image; dentry = dentry; interrupts = []; ticks = 0 }

abbrev open_file : File
open_file = record { fops = fops_file; file_position = 40; flags = 1; inode = 7 }

-- Descriptor 2 of slot 1 is open on the file.
abbrev reading : Kernel
reading = record kernel {
  pcbs = λ i. record (process i) { fa = λ j. if j == 2 then open_file else (process i).fa j };
}

open_file-IsReadable : IsReadable image open_file
open_file-IsReadable = record {
  there = omega arith;
  sound = record { fits = omega arith; blocks = λ k l. omega arith };
}

read_open_file_example :
    (k' : Kernel) × (syscall_read surroundings reading 1 2 0x8050000 500 ≡ some (some 60, k'))
    × (k'.tty.mem ≡ delivered image open_file blank 0x8050000 60)
    × ((file_of k' 1 2).file_position ≡ 100)
    × ((j : ℕ) → 2 ≢ j → file_of k' 1 j ≡ file_of reading 1 j)
read_open_file_example =
    read_open_file surroundings reading 1 2 0x8050000 500 (omega arith) refl refl refl
      open_file-IsReadable (omega arith)

-- The process of slot 3 is a child of that of slot 0.
abbrev nested : Kernel
nested = record kernel {
  pcbs = λ i. if i == 3 then record (process 3) { parent = some 0 } else process i;
}

syscall_halt_example :
    ((syscall_halt nested 3 258).0 ≡ some 2) × Resumed nested (syscall_halt nested 3 258).1 3 0
syscall_halt_example = syscall_halt_lem nested 3 0 258 (λ e. absurd (omega arith)) refl

-- A file "ls" of 100 bytes that starts as an executable does, with its entry point at 0x8048000.
abbrev executable : FileSystem
executable = record image {
  directory_entries =
      λ i. record dentry { file_name = λ j. if j == 0 then b'l' else if j == 1 then b's' else 0 };
  data_blocks = λ b j.
      get_or (0x7f ∷ 0x45 ∷ 0x4c ∷ 0x46 ∷ []) j
        (if j == 25 then 0x80 else if j == 26 then 4 else if j == 27 then 8 else 0);
}

-- Slot 4 is free.
abbrev vacant : Kernel
vacant = record kernel {
  pcbs = λ i. if i == 4 then record (process 4) { in_use = 0 } else process i;
}
