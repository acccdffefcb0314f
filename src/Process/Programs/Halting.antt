-- ===== src/Process/Programs/Halting.antt =====
-- A program that halts gives the processor back to its parent.
use psych_os.Base.{
  ℕ, zero, suc, ◌+◌, ◌*◌, ◌/◌, ◌%◌, ◌≡◌, ◌≢◌, ◌∙◌, refl, ap, arith, true, false, Option, some, ◌==◌,
  leb, if_keeps,
}
use psych_os.Fs.Files.{
  FileOps, fops_null, fops_rtc, fops_dir, fops_file, fops_stdin, fops_stdout, File,
}
use psych_os.Process.State.{Kernel, in_kernel, process_none, process_running}
use psych_os.Process.Addresses.{get_kernel_stack_base_from_slot}
use psych_os.Process.Clock.{rtc_close}
use psych_os.Process.Descriptors.{in_use, file_of, set_file, has_close, call_close, syscall_close}
use psych_os.Process.Programs.{
  set_pcb, set_kernel_stack, close_all, close_files, resume_parent, halt_program, syscall_halt,
}

-- Closing a descriptor leaves the rest of the processes alone.
record Spared (slot : ℕ) (k k' : Kernel) : Type 0 where
  parent : (k'.pcbs slot).parent ≡ (k.pcbs slot).parent
  used : (k'.pcbs slot).in_use ≡ (k.pcbs slot).in_use
  others : (i : ℕ) → slot ≢ i → k'.pcbs i ≡ k.pcbs i

Spared-refl : (slot : ℕ) (k : Kernel) → Spared slot k k
Spared-refl slot k = record { parent = refl; used = refl; others = λ i n. refl }

Spared-trans :
    (slot : ℕ) (k k' k'' : Kernel) → Spared slot k k' → Spared slot k' k'' → Spared slot k k''
Spared-trans slot k k' k'' a b = record {
  parent = b.parent ∙ a.parent;
  used = b.used ∙ a.used;
  others = λ i n. b.others i n ∙ a.others i n;
}

set_file-Spared : (slot : ℕ) (k : Kernel) (fd : ℕ) (f : File) → Spared slot k (set_file k slot fd f)
set_file-Spared slot k fd f =
    let self : (slot == slot) ≡ true = ground arith in
    record { parent = rw self refl; used = rw self refl; others = λ i n. ground arith }

call_close-Spared :
    (o : FileOps) (slot : ℕ) (k : Kernel) (fd : ℕ) → Spared slot k (call_close o k slot fd).1
unfolding call_close rtc_close
call_close-Spared fops_rtc slot k fd =
    let self : (slot == slot) ≡ true = ground arith in
    record { parent = rw self refl; used = rw self refl; others = λ i n. ground arith }
call_close-Spared fops_dir slot k fd = Spared-refl slot k
call_close-Spared fops_file slot k fd = Spared-refl slot k
call_close-Spared fops_null slot k fd = Spared-refl slot k
call_close-Spared fops_stdin slot k fd = Spared-refl slot k
call_close-Spared fops_stdout slot k fd = Spared-refl slot k

syscall_close-Spared : (slot : ℕ) (k : Kernel) (fd : ℕ) → Spared slot k (syscall_close k slot fd).1
unfolding syscall_close
syscall_close-Spared slot k fd =
    let f = file_of k slot fd in
    let cleared : File = record f { flags = f.flags / 2 * 2 } in
    let same = Spared-refl slot k in
    let closed =
      Spared-trans slot k (set_file k slot fd cleared) _ (set_file-Spared slot k fd cleared)
        (call_close-Spared f.fops slot (set_file k slot fd cleared) fd) in
    let P : Option ℕ × Kernel → Type 0 = λ r. Spared slot k r.1 in
    if_keeps P (leb 8 fd) same
      (if_keeps P (in_use f) (if_keeps P (has_close f.fops) closed same) same)

close_all-Spared : (n : ℕ) (slot : ℕ) (k : Kernel) (fd : ℕ) → Spared slot k (close_all n k slot fd)
unfolding close_all
close_all-Spared zero slot k fd = Spared-refl slot k
close_all-Spared (suc n) slot k fd =
    Spared-trans slot k (syscall_close k slot fd).1 _ (syscall_close-Spared slot k fd)
      (close_all-Spared n slot (syscall_close k slot fd).1 (fd + 1))

-- The processor runs the parent's `syscall_execute`, and the child's slot is free.
pub record Resumed (k k' : Kernel) (slot parent : ℕ) : Type 0 where
  pub freed : (k'.pcbs slot).in_use ≡ 0
  pub stopped : (k'.pcbs slot).status ≡ process_none
  pub runs : (k'.pcbs parent).status ≡ process_running
  pub directory : k'.cr3 ≡ (k.pcbs parent).process_pd_ptr
  pub stack_base : k'.esp0 ≡ get_kernel_stack_base_from_slot (k.pcbs parent).slot_num
  pub stack : k'.esp ≡ (k.pcbs parent).regs_esp
  pub frame : k'.ebp ≡ (k.pcbs parent).regs_ebp
  pub mode : k'.running ≡ in_kernel
  pub others : (i : ℕ) → slot ≢ i → parent ≢ i → k'.pcbs i ≡ k.pcbs i

close_files-Spared :
    (slot : ℕ) (k : Kernel)
    → Spared slot (set_pcb k slot (record (k.pcbs slot) { in_use = 0 })) (close_files k slot)
unfolding close_files
close_files-Spared slot k = close_all-Spared 8 slot _ 0

closed_parent :
    (slot : ℕ) (k : Kernel) → ((close_files k slot).pcbs slot).parent ≡ (k.pcbs slot).parent
closed_parent slot k =
    let self : (slot == slot) ≡ true = ground arith in
    (close_files-Spared slot k).parent ∙ rw self refl

closed_use : (slot : ℕ) (k : Kernel) → ((close_files k slot).pcbs slot).in_use ≡ 0
closed_use slot k =
    let self : (slot == slot) ≡ true = ground arith in
    (close_files-Spared slot k).used ∙ rw self refl

closed_others : (slot : ℕ) (k : Kernel) (i : ℕ) → slot ≢ i → (close_files k slot).pcbs i ≡ k.pcbs i
closed_others slot k i n = (close_files-Spared slot k).others i n ∙ ground arith

resume_parent-Resumed :
    (k : Kernel) (slot parent : ℕ)
    → slot ≢ parent
    → (k.pcbs slot).in_use ≡ 0
    → Resumed k (resume_parent k slot parent) slot parent
unfolding resume_parent set_kernel_stack
resume_parent-Resumed k slot parent n u =
    let self : (slot == slot) ≡ true = ground arith in
    let same : (parent == parent) ≡ true = ground arith in
    let apart : (slot == parent) ≡ false = ground arith in
    let apart' : (parent == slot) ≡ false = ground arith in
    record {
      freed = rw (self, apart') u;
      stopped = rw (self, apart') refl;
      runs = rw same refl;
      directory = rw (same, apart) refl;
      stack_base = rw (same, apart) refl;
      stack = rw (same, apart) refl;
      frame = rw (same, apart) refl;
      mode = refl;
      others = λ i a b. ground arith;
    }

-- The program ends with a status: its parent gets the status and runs again.
pub halt_program_lem :
    (k : Kernel) (slot parent status : ℕ)
    → slot ≢ parent
    → (k.pcbs slot).parent ≡ some parent
    → ((halt_program k slot status).0 ≡ some status)
      × Resumed k (halt_program k slot status).1 slot parent
unfolding halt_program
halt_program_lem k slot parent status n e =
    let r = resume_parent-Resumed (close_files k slot) slot parent n (closed_use slot k) in
    let same = closed_others slot k parent n in
    rw (closed_parent slot k, e)
      (
        refl,
        record {
          freed = r.freed;
          stopped = r.stopped;
          runs = r.runs;
          directory = r.directory ∙ ap (λ p. p.process_pd_ptr) same;
          stack_base = r.stack_base ∙ ap (λ p. get_kernel_stack_base_from_slot p.slot_num) same;
          stack = r.stack ∙ ap (λ p. p.regs_esp) same;
          frame = r.frame ∙ ap (λ p. p.regs_ebp) same;
          mode = r.mode;
          others = λ i a b. r.others i a b ∙ closed_others slot k i a;
        },
      )

-- `syscall_halt` of a program with a parent gives the parent the low byte of its status, frees its
-- own slot, and goes on in the kernel for the parent, which runs again with its page directory, its
-- kernel stack and its saved registers; every other process is as it was.
pub syscall_halt_lem :
    (k : Kernel) (slot parent status : ℕ)
    → slot ≢ parent
    → (k.pcbs slot).parent ≡ some parent
    → ((syscall_halt k slot status).0 ≡ some (status % 256))
      × Resumed k (syscall_halt k slot status).1 slot parent
unfolding syscall_halt
syscall_halt_lem k slot parent status n e = halt_program_lem k slot parent (status % 256) n e
