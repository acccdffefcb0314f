-- ===== src/Process/Descriptors/Opening.antt =====
-- Opening takes the lowest free descriptor, and closing gives it back.
use psych_os.Base.{
  ℕ, zero, suc, ◌+◌, ◌≤◌, ◌<◌, ◌≡◌, ◌≢◌, ◌⊎◌, inl, inr, ◌∙◌, refl, ap, arith, true, false,
  Bool-cases, Option, none, some, Option-cases, Mem, ◌==◌, ltb, eq-or-ne, lt-or-le,
}
use psych_os.Fs.Image.{Dentry, FileSystem}
use psych_os.Fs.Driver.{read_dentry_by_name}
use psych_os.Fs.Files.{File, file_open, dir_open}
use psych_os.Process.State.{Kernel}
use psych_os.Process.Clock.{rtc_open}
use psych_os.Process.Descriptors.{
  in_use, file_of, set_file, free_from, fops_table, call_open, take_descriptor, open_dentry,
  open_at, syscall_open,
}

-- `fd` is the lowest free descriptor at or above `i`.
pub record IsLowest (fa : ℕ → File) (i fd : ℕ) : Type 0 where
  pub from : i ≤ fd
  pub free : in_use (fa fd) ≡ false
  pub lower : (j : ℕ) → i ≤ j → j < fd → in_use (fa j) ≡ true

free_from_lem :
    (n : ℕ) (fa : ℕ → File) (i : ℕ)
    → ((free_from n fa i ≡ none) × ((j : ℕ) → i ≤ j → j < i + n → in_use (fa j) ≡ true))
      ⊎ ((fd : ℕ) × (free_from n fa i ≡ some fd) × (fd < i + n) × IsLowest fa i fd)
unfolding free_from
free_from_lem zero fa i = inl (refl, λ j a b. absurd (omega arith))
free_from_lem (suc n) fa i = elim (Bool-cases (in_use (fa i))) [
  | inl u ↦ elim (free_from_lem n fa (i + 1)) [
    | inl (e, all) ↦ inl (
      rw u e,
      λ j a b. elim (eq-or-ne i j) [
        | inl p ↦ rw (← p) u
        | inr p ↦ all j (omega arith) (omega arith)
      ],
    )
    | inr (fd, e, l, low) ↦ inr (
      fd,
      rw u e,
      omega arith,
      record {
        from = omega (arith, low.from);
        free = low.free;
        lower = λ j a b. elim (eq-or-ne i j) [
          | inl p ↦ rw (← p) u
          | inr p ↦ low.lower j (omega arith) b
        ];
      },
    )
  ]
  | inr u ↦ inr (
    i,
    rw u refl,
    omega arith,
    record { from = omega arith; free = u; lower = λ j a b. absurd (omega arith) },
  )
]

-- The descriptors of a process after `fd` has been opened on an entry.
pub record Opened (k k' : Kernel) (slot fd : ℕ) (d : Dentry) : Type 0 where
  pub table : (file_of k' slot fd).fops ≡ fops_table d.file_type
  pub flags : (file_of k' slot fd).flags ≡ 1
  pub position : (file_of k' slot fd).file_position ≡ 0
  pub inode : (file_of k' slot fd).inode ≡ d.inode_num
  pub others : (j : ℕ) → fd ≢ j → file_of k' slot j ≡ file_of k slot j
  pub processes : (i : ℕ) → slot ≢ i → k'.pcbs i ≡ k.pcbs i

-- What the `open` of a table leaves of the processes.
record Succeeds (k : Kernel) (slot : ℕ) (r : Option ℕ × Kernel) : Type 0 where
  result : r.0 ≡ some 0
  files : (r.1.pcbs slot).fa ≡ (k.pcbs slot).fa
  processes : (i : ℕ) → slot ≢ i → r.1.pcbs i ≡ k.pcbs i

call_open-Succeeds :
    (file_type : ℕ) (k : Kernel) (slot fd prev_b prev_a : ℕ)
    → Succeeds k slot (call_open (fops_table file_type) k slot fd prev_b prev_a)
unfolding call_open rtc_open file_open dir_open
call_open-Succeeds file_type k slot fd prev_b prev_a =
    let self : (slot == slot) ≡ true = ground arith in
    elim (Bool-cases (file_type == 0)) [
      | inl e ↦
          rw e (record { result = refl; files = rw self refl; processes = λ i n. ground arith })
      | inr e ↦ elim (Bool-cases (file_type == 1)) [
        | inl e' ↦ rw (e, e') (record { result = refl; files = refl; processes = λ i n. refl })
        | inr e' ↦ rw (e, e') (record { result = refl; files = refl; processes = λ i n. refl })
      ]
    ]

pub set_file-same :
    (k : Kernel) (slot fd : ℕ) (f : File) → file_of (set_file k slot fd f) slot fd ≡ f
set_file-same k slot fd f = ground arith

pub set_file-other :
    (k : Kernel) (slot fd : ℕ) (f : File) (j : ℕ)
    → fd ≢ j
    → file_of (set_file k slot fd f) slot j ≡ file_of k slot j
set_file-other k slot fd f j n = ground arith

pub set_file-process :
    (k : Kernel) (slot fd : ℕ) (f : File) (i : ℕ)
    → slot ≢ i
    → (set_file k slot fd f).pcbs i ≡ k.pcbs i
set_file-process k slot fd f i n = ground arith

take_descriptor-Opened :
    (k : Kernel) (slot fd : ℕ) (d : Dentry) (r : Option ℕ × Kernel)
    → Succeeds
        (set_file k slot fd (record (file_of k slot fd) { fops = fops_table d.file_type }))
        slot
        r
    → ((take_descriptor slot fd d.inode_num r).0 ≡ some fd)
      × Opened k (take_descriptor slot fd d.inode_num r).1 slot fd d
unfolding take_descriptor
take_descriptor-Opened k slot fd d (none, k') s = cc
take_descriptor-Opened k slot fd d (some res, k') s =
    let f : File = record (file_of k slot fd) { fops = fops_table d.file_type } in
    let g : File = record (file_of k' slot fd) {
      flags = 1;
      inode = d.inode_num;
      file_position = 0;
    } in
    let written = set_file-same k' slot fd g in
    let table_set : file_of k' slot fd ≡ f = ap (λ fa. fa fd) s.files ∙ set_file-same k slot fd f in
    (
      refl,
      record {
        table = ap (λ h. h.fops) written ∙ ap (λ h. h.fops) table_set;
        flags = ap (λ h. h.flags) written;
        position = ap (λ h. h.file_position) written;
        inode = ap (λ h. h.inode) written;
        others = λ j n.
            set_file-other k' slot fd g j n
            ∙ ap (λ fa. fa j) s.files
            ∙ set_file-other k slot fd f j n;
        processes = λ i n.
            set_file-process k' slot fd g i n ∙ s.processes i n ∙ set_file-process k slot fd f i n;
      },
    )

open_dentry-Opened :
    (k : Kernel) (slot fd prev_b prev_a : ℕ) (d : Dentry)
    → d.file_type < 3
    → let r = open_dentry k slot fd prev_b prev_a (some d) in
      (r.0 ≡ some fd) × Opened k r.1 slot fd d
unfolding open_dentry
open_dentry-Opened k slot fd prev_b prev_a d l =
    let t : ltb 2 d.file_type ≡ false = ground arith in
    rw t (
      take_descriptor-Opened k slot fd d _ (call_open-Succeeds d.file_type _ slot fd prev_b prev_a))

open_dentry_refused :
    (k : Kernel) (slot fd prev_b prev_a : ℕ) (d : Dentry)
    → 2 < d.file_type
    → open_dentry k slot fd prev_b prev_a (some d) ≡ (none, k)
unfolding open_dentry
open_dentry_refused k slot fd prev_b prev_a d l =
    let t : ltb 2 d.file_type ≡ true = ground arith in rw t refl

-- `syscall_open` returns -1 and changes nothing exactly where the eight descriptors are in use, the
-- file system has no entry of that name, or the entry's type is none of the three; else it returns
-- the lowest free descriptor, which then stands for the entry's inode with the operations of its type,
-- in use and at position 0, and no other descriptor and no other process has changed.
pub syscall_open_lem :
    (fs : FileSystem) (filename : Mem) (dentry : Dentry) (k : Kernel) (slot prev_b prev_a : ℕ)
    → let (r, k') = syscall_open fs filename dentry k slot prev_b prev_a in
      ((r ≡ none)
        × (k' ≡ k)
        × (((j : ℕ) → 0 ≤ j → j < 8 → in_use (file_of k slot j) ≡ true)
            ⊎ ((read_dentry_by_name fs filename dentry ≡ none)
                ⊎ ((d : Dentry) × (read_dentry_by_name fs filename dentry ≡ some d)
                    × (2 < d.file_type)))))
      ⊎ ((fd : ℕ) × (d : Dentry) × (r ≡ some fd)
          × (fd < 8)
          × IsLowest (k.pcbs slot).fa 0 fd
          × (read_dentry_by_name fs filename dentry ≡ some d)
          × Opened k k' slot fd d)
unfolding syscall_open open_at
syscall_open_lem fs filename dentry k slot prev_b prev_a =
    elim (free_from_lem 8 (k.pcbs slot).fa 0) [
      | inl (e, all) ↦ rw e (inl (refl, refl, inl (λ j a b. all j a (omega arith))))
      | inr (fd, e, l, low) ↦ elim (Option-cases (read_dentry_by_name fs filename dentry)) [
        | inl q ↦ rw (e, q) (inl (refl, refl, inr (inl refl)))
        | inr (d, q) ↦ elim (lt-or-le d.file_type 3) [
          | inl t ↦
              let (r, o) = open_dentry-Opened k slot fd prev_b prev_a d t in
              rw (e, q) (inr (fd, d, r, omega arith, low, refl, o))
          | inr t ↦
              rw (e, q, open_dentry_refused k slot fd prev_b prev_a d (omega arith))
                (inl (refl, refl, inr (inr (d, refl, omega arith))))
        ]
      ]
    ]
