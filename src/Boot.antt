-- ===== src/Boot.antt =====
-- `entry` of student-distrib/kernel.c, with the layouts of include/arch/x86/multiboot.h. The boot
-- information lies in the memory; what the linker and the uninitialised locals provide is a record.
-- The registers that `lldt`, `ltr`, `lidt`, `sti` and `enable_paging` load are not part of the state.
pub mod Information
pub mod Printing
pub mod Started
mod Tests
use Prim.Native.String.{String}
use psych_os.Base.{
  ℕ, zero, suc, ◌+◌, ◌-◌, ◌*◌, ◌/◌, ◌%◌, ◌^◌, Bool, true, false, ◌&&◌, Option, none, some, List, [],
  ◌∷◌, ◌++◌, Mem, add32, ◌==◌, ltb, if◌then◌else◌, bytes, get_or,
}
use psych_os.Str.{strlen}
use psych_os.Fs.Image.{Dentry, FileSystem, read32, ece391_fs_init}
use psych_os.Pic.{i8259_init}
use psych_os.Tty.State.{Tty}
use psych_os.Tty.Screen.{clear_terminal}
use psych_os.Printf.Calls.{codes, num, text, PrintCall, print_calls}
use psych_os.Paging.{Entry, Tables, local_pd, initialize_paging_structs}
use psych_os.Interrupts.{IdtDesc, Handlers, setup_idt}
use psych_os.Segments.{SegDesc, Segments, setup_segments}
use psych_os.Process.State.{Kernel}
use psych_os.Process.Programs.{kernel_run_first_program}

-- Addresses and sizes that the linker gives, and what uninitialised locals hold.
pub record Linked : Type 0 where
  pub handlers : Handlers
  pub ldt : ℕ
  pub ldt_size : ℕ
  pub tss : ℕ
  pub tss_size : ℕ
  pub kernel_pt_addr : ℕ
  pub unset : SegDesc
  pub conv_buf : Mem
  pub dentry : Dentry

pub record Machine : Type 0 where
  pub kernel : Kernel
  pub idt : ℕ → IdtDesc
  pub segments : Segments
  pub tables : Tables
  pub kernel_pd : ℕ → Entry
  pub kernel_pt : ℕ → Entry
  pub fs : FileSystem

abbrev pub with_tty : Machine → Tty → Machine
with_tty s t = record s { kernel = record s.kernel { tty = t } }

-- `CHECK_FLAG(flags, bit)`
abbrev pub check_flag : ℕ → ℕ → Bool
check_flag flags bit = flags / 2 ^ bit % 2 == 1

abbrev pub flags_calls : Mem → ℕ → List PrintCall
flags_calls m mbi = (record { format = "flags = 0x%#x\n"; args = num (read32 m mbi) ∷ [] }) ∷ []

abbrev pub memory_calls : Mem → ℕ → List PrintCall
memory_calls m mbi =
    (record {
      format = "mem_lower = %uKB, mem_upper = %uKB\n";
      args = num (read32 m (mbi + 4)) ∷ num (read32 m (mbi + 8)) ∷ [];
    })
    ∷ []

abbrev pub device_calls : Mem → ℕ → List PrintCall
device_calls m mbi =
    (record { format = "boot_device = 0x%#x\n"; args = num (read32 m (mbi + 12)) ∷ [] }) ∷ []

abbrev pub command_calls : Mem → ℕ → ℕ → List PrintCall
command_calls m mbi len =
    (record { format = "cmdline = %s\n"; args = text (bytes m (read32 m (mbi + 16)) len) ∷ [] })
    ∷ []

-- A `char` as the `int` that it is promoted to.
abbrev pub promoted : ℕ → ℕ
promoted b = if ltb b 128 then b else b + (2 ^ 32 - 2 ^ 8)

-- The bytes from offset `i` of a module on, with `n` still to come.
pub byte_calls : ℕ → Mem → ℕ → ℕ → List PrintCall
byte_calls zero m mod_start i = []
byte_calls (suc n) m mod_start i =
    (record { format = "0x%x "; args = num (promoted (m (mod_start + i))) ∷ [] })
    ∷ byte_calls n m mod_start (i + 1)

abbrev pub one_module : Mem → ℕ → ℕ → List PrintCall
one_module m mod_addr mod_count =
    (record {
      format = "Module %d loaded at address: 0x%#x\n";
      args = num mod_count ∷ num (read32 m mod_addr) ∷ [];
    })
    ∷ (record {
      format = "Module %d ends at address: 0x%#x\n";
      args = num mod_count ∷ num (read32 m (mod_addr + 4)) ∷ [];
    })
    ∷ (record { format = "First few bytes of module:\n"; args = [] })
    ∷ (byte_calls 16 m (read32 m mod_addr) 0 ++ ((record { format = "\n"; args = [] }) ∷ []))

-- The modules from number `mod_count` on, with `n` still to come.
pub module_calls : ℕ → Mem → ℕ → ℕ → List PrintCall
unfolding byte_calls
module_calls zero m mod_addr mod_count = []
module_calls (suc n) m mod_addr mod_count =
    one_module m mod_addr mod_count ++ module_calls n m (mod_addr + 16) (mod_count + 1)

abbrev pub elf_calls : Mem → ℕ → List PrintCall
elf_calls m mbi =
    (record {
      format = "elf_sec: num = %u, size = 0x%#x, addr = 0x%#x, shndx = 0x%#x\n";
      args =
          num (read32 m (mbi + 28))
          ∷ num (read32 m (mbi + 32))
          ∷ num (read32 m (mbi + 36))
          ∷ num (read32 m (mbi + 40))
          ∷ [];
    })
    ∷ []

abbrev pub one_region : Mem → ℕ → PrintCall
one_region m mmap = record {
  format = " size = 0x%x,     base_addr = 0x%#x%#x\n     type = 0x%x,  length    = 0x%#x%#x\n";
  args =
      num (read32 m mmap)
      ∷ num (read32 m (mmap + 8))
      ∷ num (read32 m (mmap + 4))
      ∷ num (read32 m (mmap + 20))
      ∷ num (read32 m (mmap + 16))
      ∷ num (read32 m (mmap + 12))
      ∷ [];
}

pub also : PrintCall → Option (List PrintCall) → Option (List PrintCall)
also c none = none
also c (some cs) = some (c ∷ cs)

-- The regions from `mmap` up to `stop`; none where the fuel does not reach there.
pub region_calls : ℕ → Mem → ℕ → ℕ → Option (List PrintCall)
unfolding also
region_calls zero m mmap stop = none
region_calls (suc fuel) m mmap stop =
    let rest = region_calls fuel m (add32 (add32 mmap (read32 m mmap)) 4) stop in
    if ltb mmap stop then also (one_region m mmap) rest else some []

abbrev pub map_heading : Mem → ℕ → PrintCall
map_heading m mbi = record {
  format = "mmap_addr = 0x%#x, mmap_length = 0x%x\n";
  args = num (read32 m (mbi + 48)) ∷ num (read32 m (mbi + 44)) ∷ [];
}

abbrev pub map_calls : ℕ → Mem → ℕ → Option (List PrintCall)
map_calls fuel m mbi =
    also (map_heading m mbi) (
      region_calls fuel m (read32 m (mbi + 48)) (add32 (read32 m (mbi + 48)) (read32 m (mbi + 44))))

abbrev pub message : String → List PrintCall
message t = (record { format = t; args = [] }) ∷ []

-- The part of the information that a flag says is there.
abbrev pub when : Bool → Option (List PrintCall) → Option (List PrintCall)
when b cs = if b then cs else some []

pub commanded : Mem → ℕ → Option ℕ → Option (List PrintCall)
commanded m mbi none = none
commanded m mbi (some len) = some (command_calls m mbi len)

abbrev pub invalid_magic : ℕ → List PrintCall
invalid_magic magic =
    (record { format = "Invalid magic number: 0x%#x\n"; args = num magic ∷ [] }) ∷ []

-- How the boot ends: it is refused, no program could be started, or the first program runs.
pub data Booted : Type 0 where
  refused : Machine → Booted
  idle : Machine → Booted
  running : Machine → Booted

-- Go on once the calls have been printed.
module _ (l : Linked) where
  printed : Machine → Option Tty → (Machine → Option Booted) → Option Booted
  printed s none k = none
  printed s (some t) k = k (with_tty s t)

  pub say : Machine → List PrintCall → (Machine → Option Booted) → Option Booted
  unfolding printed
  say s cs k = printed s (print_calls l.conv_buf (some s.kernel.tty) cs) k

  say_all : Machine → Option (List PrintCall) → (Machine → Option Booted) → Option Booted
  unfolding say
  say_all s none k = none
  say_all s (some cs) k = say s cs k

  ran : Machine → Option Kernel → Booted
  ran s none = idle s
  ran s (some k) = running (record s { kernel = k })

  -- `kernel_run_first_program("shell")`
  pub run_shell : Machine → Option Booted
  unfolding ran
  run_shell s =
      some (
        ran s (kernel_run_first_program 6 s.fs l.dentry s.kernel (λ i. get_or (codes "shell") i 0)))

  pub setup_tables : Machine → Machine
  setup_tables s = record s {
    segments = setup_segments l.unset l.unset l.ldt l.ldt_size l.tss l.tss_size s.segments;
    idt = setup_idt l.handlers s.idt;
  }

  pub setup_pic : Machine → Machine
  setup_pic s = record s { kernel = record s.kernel { pic = i8259_init s.kernel.pic } }

  pub setup_fs : ℕ → Machine → Machine
  setup_fs mbi s = record s {
    fs =
        ece391_fs_init s.kernel.tty.mem
          (read32 s.kernel.tty.mem (read32 s.kernel.tty.mem (mbi + 24)));
  }

  -- `initialize_paging_structs` writes the same tables for the kernel as for a slot, but to the
  -- kernel's own directory and page table.
  pub setup_paging : Machine → Machine
  setup_paging s =
      let written = initialize_paging_structs s.tables 0 0xb8000 in
      record s {
        kernel_pd = local_pd s.tables.unset s.tables.vmem_pt_addr l.kernel_pt_addr;
        kernel_pt = written.tables 0;
        tables = record s.tables { vmem_pt = written.vmem_pt };
      }

  pub initialize : ℕ → Machine → Option Booted
  unfolding say setup_pic setup_fs setup_paging run_shell setup_tables
  initialize mbi s = say (setup_tables s) (message "Initializing the PIC\n") λ s1.
      say (setup_pic s1) (message "Initializing ECE391 File System\n") λ s2.
        say (setup_fs mbi s2) (message "Initializing Paging\n")
          λ s3. say (setup_paging s3) (message "Enabling Interrupts\n") run_shell

  refuse : Machine → List PrintCall → Option Booted
  unfolding say
  refuse s cs = say s cs λ t. some (refused t)

  -- What follows the flags 4 and 5, which exclude each other.
  describe : ℕ → Mem → ℕ → Machine → Option Booted
  unfolding say_all initialize region_calls refuse
  describe fuel m mbi s =
      let flags = read32 m mbi in
      let goes_on =
        say_all s (when (check_flag flags 5) (some (elf_calls m mbi)))
          λ s1. say_all s1 (when (check_flag flags 6) (map_calls fuel m mbi)) (initialize mbi) in
      if check_flag flags 4 && check_flag flags 5
      then refuse s (message "Both bits 4 and 5 are set.\n")
      else goes_on

  -- What the information says.
  pub inform : ℕ → Mem → ℕ → Machine → Option Booted
  unfolding say say_all commanded module_calls describe
  inform fuel m mbi s =
      let flags = read32 m mbi in
      let command = strlen fuel (λ i. m (read32 m (mbi + 16) + i)) in
      say s (flags_calls m mbi) λ s1.
        say_all s1 (when (check_flag flags 0) (some (memory_calls m mbi))) λ s2.
          say_all s2 (when (check_flag flags 1) (some (device_calls m mbi))) λ s3.
            say_all s3 (when (check_flag flags 2) (commanded m mbi command)) λ s4.
              say_all s4
                (when (check_flag flags 3)
                  (some (module_calls (read32 m (mbi + 20)) m (read32 m (mbi + 24)) 0)))
                (describe fuel m mbi)

  -- Fuel for the command line and for the memory map.
  pub entry : ℕ → ℕ → ℕ → Machine → Option Booted
  unfolding inform refuse
  entry fuel magic mbi s0 =
      let s = with_tty s0 (clear_terminal s0.kernel.tty 0) in
      if magic == 0x2badb002
      then inform fuel s0.kernel.tty.mem mbi s
      else refuse s (invalid_magic magic)
