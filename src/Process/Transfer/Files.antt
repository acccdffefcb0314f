-- ===== src/Process/Transfer/Files.antt =====
-- Reading an open file through its descriptor.
use psych_os.Base.{
  ℕ, ◌+◌, ◌^◌, min, ◌<◌, ◌≡◌, ◌≢◌, ◌∙◌, refl, ap, arith, true, false, none, some, leb,
  if◌then◌else◌,
}
use psych_os.Fs.Files.{fops_file, File}
use psych_os.Fs.Sequence.{IsReadable, remaining, delivered, file_read_lem}
use psych_os.Process.State.{Kernel}
use psych_os.Process.Descriptors.{in_use, file_of, set_file}
use psych_os.Process.Descriptors.Opening.{set_file-same, set_file-other}
use psych_os.Process.Transfer.{
  Surroundings, in_page, with_mem, stored, has_read, call_read, syscall_read,
}

-- `syscall_read` of a descriptor that is open on a file of the image, with a buffer that passes the
-- range test and a length whose sum with the position does not wrap, returns at most `nbytes` and no byte behind the end of the file, delivers exactly those
-- bytes to the buffer, moves the position of that descriptor on by their number, and changes no other
-- descriptor of the process.
pub read_open_file :
    (w : Surroundings) (k : Kernel) (slot fd buf nbytes : ℕ)
    → fd < 8
    → in_page buf nbytes ≡ true
    → in_use (file_of k slot fd) ≡ true
    → (file_of k slot fd).fops ≡ fops_file
    → IsReadable w.fs (file_of k slot fd)
    → nbytes + (file_of k slot fd).file_position < 2 ^ 32
    → (k' : Kernel) × (syscall_read w k slot fd buf nbytes
        ≡ some (some (min nbytes (remaining w.fs (file_of k slot fd))), k'))
      × (k'.tty.mem
          ≡ delivered w.fs
              (file_of k slot fd)
              k.tty.mem
              buf
              (min nbytes (remaining w.fs (file_of k slot fd))))
      × ((file_of k' slot fd).file_position
          ≡ (file_of k slot fd).file_position + min nbytes (remaining w.fs (file_of k slot fd)))
      × ((j : ℕ) → fd ≢ j → file_of k' slot j ≡ file_of k slot j)
unfolding syscall_read call_read stored
read_open_file w k slot fd buf nbytes l page used fops readable fits =
    let f = file_of k slot fd in
    let n = min nbytes (remaining w.fs f) in
    let below : leb 8 fd ≡ false = ground arith in
    let m = delivered w.fs f k.tty.mem buf n in
    let g : File = record f { file_position = f.file_position + n } in
    (
      set_file (with_mem k m) slot fd g,
      rw (page, below, used)
          (ap (λ o. if has_read o then call_read w o k slot fd buf nbytes else some (none, k)) fops
            ∙ ap (stored k slot fd) (file_read_lem w.fs f k.tty.mem buf nbytes readable fits)),
      refl,
      ap (λ h. h.file_position) (set_file-same (with_mem k m) slot fd g),
      λ j d. set_file-other (with_mem k m) slot fd g j d,
    )
