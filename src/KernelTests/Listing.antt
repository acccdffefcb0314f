-- ===== src/KernelTests/Listing.antt =====
-- The listing of all files is one line for each entry of the directory.
use psych_os.Base.{ℕ, zero, suc, ◌+◌, ◌-◌, ◌<◌, ◌^◌, ◌≡◌, some, List, [], ◌∷◌, ◌++◌, Mem, length}
use psych_os.Fs.Image.{Dentry, FileSystem}
use psych_os.Fs.Driver.{fill_dentry, get_file_size}
use psych_os.Tty.State.{Tty}
use psych_os.Printf.Said.{AllSaid}
use psych_os.KernelTests.{file_name_text, name_call, size_call}

abbrev pub spaces : ℕ → List ℕ
spaces zero = []
spaces (suc n) = b' ' ∷ spaces n

-- The numbers of a file system's entry are words.
abbrev pub IsWordy : FileSystem → Dentry → Type 0
IsWordy fs d =
    (d.file_type < 2 ^ 32) × ((n : ℕ) → get_file_size fs d.inode_num ≡ some n → n < 2 ^ 32)

-- The line of an entry: its name in quotes, spaces up to column 50, its type and its size.
abbrev pub IsLine : FileSystem → Dentry → List ℕ → Type 0
IsLine fs d out =
    (front : List ℕ) × (back : List ℕ) × AllSaid (name_call d ∷ []) front
    × AllSaid (size_call fs d ∷ []) back
    × (out ≡ front ++ (spaces (50 - length (file_name_text d)) ++ back))

module _ (conv_buf : Mem) (fs : FileSystem) where
  module _ (d : Dentry) where
    -- The entry as it is read.
    abbrev pub entry : ℕ → Dentry
    entry i = fill_dentry d (fs.directory_entries i)

    -- The lines of `n` entries from `i` on.
    abbrev pub AreLines : ℕ → ℕ → List ℕ → Type 0
    AreLines zero i out = out ≡ []
    AreLines (suc n) i out =
        (front : List ℕ) × (back : List ℕ) × (out ≡ front ++ back)
        × IsLine fs (entry i) front
        × AreLines n (i + 1) back
