-- ===== src/Fs/Sequence.antt =====
-- Reading a file piece by piece.
use psych_os.Base.{
  ℕ, ◌+◌, ◌-◌, ◌^◌, ◌≤◌, ◌<◌, min, ◌≡◌, refl, sym, arith, some, Mem, add32, ltb, leb, ◌&&◌,
  if◌then◌else◌, ap,
}
use psych_os.Fs.Image.{FileSystem}
use psych_os.Fs.Driver.{read_data}
use psych_os.Fs.Reads.{IsSound, file_byte, read_data_lem}
use psych_os.Fs.Files.{File, file_read}

-- A file of the image that can be read.
pub record IsReadable (fs : FileSystem) (f : File) : Type 0 where
  pub there : f.inode < fs.num_inodes
  pub sound : IsSound fs (fs.inodes f.inode)

abbrev pub remaining : FileSystem → File → ℕ
remaining fs f = (fs.inodes f.inode).file_length - f.file_position

-- Memory with the `n` bytes of the file from its position on copied to `buf`.
abbrev pub delivered : FileSystem → File → Mem → ℕ → ℕ → Mem
delivered fs f m buf n x =
    if leb buf x && ltb x (buf + n)
    then file_byte fs (fs.inodes f.inode) (f.file_position + (x - buf))
    else m x

-- `file_read` of a readable file delivers the next bytes of the file, at most `nbytes` and none
-- behind its end, returns their number and moves the position on by it.
pub file_read_lem :
    (fs : FileSystem) (f : File) (m : Mem) (buf nbytes : ℕ)
    → IsReadable fs f
    → nbytes + f.file_position < 2 ^ 32
    → let n = min nbytes (remaining fs f) in
      file_read fs f m buf nbytes
      ≡ (some n, record f { file_position = f.file_position + n }, delivered fs f m buf n)
unfolding file_read
file_read_lem fs f m buf nbytes r w =
    let e : add32 f.file_position n ≡ f.file_position + n = omega (arith, r.sound.fits) in
    rw (data_read, e)
  where
    n : ℕ
    n = min nbytes (remaining fs f)

    data_read : read_data fs f.inode f.file_position m buf nbytes ≡ (some n, delivered fs f m buf n)
    data_read =
        let (res, mem) = read_data_lem fs f.inode f.file_position m buf nbytes r.there r.sound w in
        λ i. (res i, λ x. mem x i)

delivered-add :
    (fs : FileSystem) (f : File) (m : Mem) (buf a b n x : ℕ)
    → a + b ≡ n
    → delivered fs
        (record f { file_position = f.file_position + a })
        (delivered fs f m buf a)
        (buf + a)
        b
        x
      ≡ delivered fs f m buf n x
delivered-add fs f m buf a b n x e = ground (arith, shifted)
  where
    shifted :
        buf + a ≤ x
        → file_byte fs (fs.inodes f.inode) (f.file_position + a + (x - (buf + a)))
          ≡ file_byte fs (fs.inodes f.inode) (f.file_position + (x - buf))
    shifted l = ap (file_byte fs (fs.inodes f.inode)) (omega arith)

-- Of a readable file, and with lengths whose sum with the position does not wrap, two calls of
-- `file_read`, the second behind the bytes of the first in the buffer, leave the same
-- memory and the same file as one call for the sum of the lengths, and return its count in two parts.
pub file_read_twice :
    (fs : FileSystem) (f : File) (m : Mem) (buf a b : ℕ)
    → IsReadable fs f
    → a + b + f.file_position < 2 ^ 32
    → let n = min a (remaining fs f) in
      let (r1, f1, m1) = file_read fs f m buf a in
      let (r2, f2, m2) = file_read fs f1 m1 (buf + n) b in
      (r1 ≡ some n)
      × (r2 ≡ some (min (a + b) (remaining fs f) - n))
      × (file_read fs f m buf (a + b) ≡ (some (min (a + b) (remaining fs f)), f2, m2))
file_read_twice fs f m buf a b r w =
    rw (one, all, two)
      (
        refl,
        ap some (omega arith),
        λ i. (
          some (min (a + b) (remaining fs f)),
          record f { file_position = at i },
          λ x. sym (delivered-add fs f m buf n k (min (a + b) (remaining fs f)) x (omega arith)) i,
        ),
      )
  where
    n : ℕ
    n = min a (remaining fs f)

    f1 : File
    f1 = record f { file_position = f.file_position + n }

    one : file_read fs f m buf a ≡ (some n, f1, delivered fs f m buf n)
    one = file_read_lem fs f m buf a r (omega arith)

    k : ℕ
    k = min b (remaining fs f1)

    at : f.file_position + min (a + b) (remaining fs f) ≡ f.file_position + n + k
    at = omega arith

    two : file_read fs f1 (delivered fs f m buf n) (buf + n) b ≡ (
      some k,
      record f { file_position = f.file_position + n + k },
      delivered fs f1 (delivered fs f m buf n) (buf + n) k,
    )
    two =
        file_read_lem fs f1 _ (buf + n) b (record { there = r.there; sound = r.sound })
          (omega arith)

    all : file_read fs f m buf (a + b) ≡ (
      some (min (a + b) (remaining fs f)),
      record f { file_position = f.file_position + min (a + b) (remaining fs f) },
      delivered fs f m buf (min (a + b) (remaining fs f)),
    )
    all = file_read_lem fs f m buf (a + b) r w
