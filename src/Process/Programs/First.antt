-- ===== src/Process/Programs/First.antt =====
-- The first programs: one on each terminal.
use psych_os.Base.{
  ℕ, ◌≡◌, ◌≢◌, refl, ap, subst, ◌∙◌, arith, Bool, true, false, Option, none, some, Mem, add32, ◌==◌,
  if◌then◌else◌,
}
use psych_os.Fs.Image.{Dentry, FileSystem}
use psych_os.Fs.Files.{fops_stdin, fops_stdout}
use psych_os.Tty.State.{Tty}
use psych_os.Tty.Screen.{get_terminal_output_buffer}
use psych_os.Paging.{get_process_pd}
use psych_os.Process.State.{Pcb, Kernel, process_running}
use psych_os.Process.Descriptors.{open_stdin_and_stdout}
use psych_os.Process.Transfer.{with_mem}
use psych_os.Process.Programs.{get_next_pid, set_pcb, start_first, first_loaded, first_parsed}

-- A program without a parent that owns terminal `i`.
pub record IsFirst (i pid : ℕ) (p : Pcb) : Type 0 where
  pub used : p.in_use ≡ 1
  pub runs : p.status ≡ process_running
  pub orphan : p.parent ≡ none
  pub childless : p.child ≡ none
  pub terminal : p.terminal_num ≡ i
  pub numbered : p.pid ≡ pid
  pub slot : p.slot_num ≡ i
  pub directory : p.process_pd_ptr ≡ get_process_pd i
  pub input : ((p.fa 0).fops ≡ fops_stdin) × ((p.fa 0).flags ≡ 1)
  pub output : ((p.fa 1).fops ≡ fops_stdout) × ((p.fa 1).flags ≡ 1)
  pub loaded : p.entrypoint ≢ 0

abbrev pub with_memory : Tty → Mem → Tty
with_memory t m = record t { mem = m }

pub record Started (i : ℕ) (k k' : Kernel) : Type 0 where
  pub first : IsFirst i k.next_pid (k'.pcbs i)
  pub others : (j : ℕ) → i ≢ j → k'.pcbs j ≡ k.pcbs j
  pub next : k'.next_pid ≡ add32 k.next_pid 1
  pub page : k'.vmem_page i ≡ get_terminal_output_buffer k.tty i
  pub pages : (j : ℕ) → i ≢ j → k'.vmem_page j ≡ k.vmem_page j
  pub terminals : (m : Mem) × (k'.tty ≡ with_memory k.tty m)
  pub chips : k'.pic ≡ k.pic

start_first-Started :
    (i : ℕ) (k : Kernel) (entrypoint : ℕ) (m : Mem)
    → (k.pcbs i).slot_num ≡ i
    → entrypoint ≢ 0
    → Started i k (start_first i (with_mem k m) entrypoint)
unfolding start_first get_next_pid open_stdin_and_stdout get_terminal_output_buffer
start_first-Started i k entrypoint m s n =
    let self : (i == i) ≡ true = ground arith in
    record {
      first = record {
        used = rw self refl;
        runs = rw self refl;
        orphan = rw self refl;
        childless = rw self refl;
        terminal = rw self refl;
        numbered = rw self refl;
        slot = rw self s;
        directory = rw self (ap get_process_pd s);
        input = (rw self refl, rw self refl);
        output = (rw self refl, rw self refl);
        loaded = rw self n;
      };
      others = λ j a. ground arith;
      next = refl;
      page = ground (arith, s);
      pages = λ j a. ground (arith, s);
      terminals = (m, refl);
      chips = refl;
    }

if_none-some :
    (b : Bool) {k k' : Kernel} → (if b then none else some k) ≡ some k' → (b ≡ false) × (k ≡ k')
if_none-some true h = cc
if_none-some false h = (refl, cc)

pub if_none-none : (b : Bool) (k : Kernel) → (if b then none else some k) ≡ none → b ≡ true
if_none-none true k h = refl
if_none-none false k h = cc

first_loaded-Started :
    (i : ℕ) (k k' : Kernel) (p : ℕ × Mem)
    → (k.pcbs i).slot_num ≡ i
    → first_loaded i k p ≡ some k'
    → Started i k k'
unfolding first_loaded
first_loaded-Started i k k' (entrypoint, m) s h =
    let (nonzero, same) = if_none-some (entrypoint == 0) h in
    subst (Started i k) same (
      start_first-Started i k entrypoint m s
        (λ z. (let t : (entrypoint == 0) ≡ true = ground arith in cc)))

-- A name and arguments stored in a block leave what a start looks at.
module _ (i : ℕ) (k : Kernel) (name args : Mem) where
  abbrev pub named : Kernel
  named = set_pcb k i (record (k.pcbs i) { program_name = name; args = args })

  named-Started : {k' : Kernel} → Started i named k' → Started i k k'
  named-Started {k'} s = record {
    first = s.first;
    others = λ j a. s.others j a ∙ ground arith;
    next = s.next;
    page = s.page;
    pages = s.pages;
    terminals = s.terminals;
    chips = s.chips;
  }

pub first_parsed-Started :
    (fs : FileSystem) (dentry : Dentry) (i : ℕ) (k k' : Kernel) (p : Option (ℕ × Mem × Mem))
    → (k.pcbs i).slot_num ≡ i
    → first_parsed fs dentry i k p ≡ some k'
    → Started i k k'
unfolding first_parsed
first_parsed-Started fs dentry i k k' none s h = cc
first_parsed-Started fs dentry i k k' (some (len, name, args)) s h =
    let self : (i == i) ≡ true = ground arith in
    named-Started i k name args (first_loaded-Started i (named i k name args) k' _ (rw self s) h)
