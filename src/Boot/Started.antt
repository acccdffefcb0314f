-- ===== src/Boot/Started.antt =====
-- The boot as a whole.
use psych_os.Base.{
  ℕ, ◌+◌, ◌^◌, ◌<◌, ◌≡◌, ◌≢◌, ◌⊎◌, true, false, ◌&&◌, Option, none, some, List, Mem, ◌==◌,
  if◌then◌else◌, get_or,
}
use psych_os.Str.{strlen}
use psych_os.Fs.Image.{FileSystem, read32, ece391_fs_init}
use psych_os.Pic.{i8259_init}
use psych_os.Tty.State.{Tty}
use psych_os.Tty.Screen.{clear_terminal}
use psych_os.Tty.Calls.{put_all}
use psych_os.Printf.Calls.{codes}
use psych_os.Interrupts.Gates.{AreAddresses, gate_of, kernel_gate, handler_of}
use psych_os.Segments.Layout.{system_of}
use psych_os.Process.State.{Kernel}
use psych_os.Process.Programs.Launch.{CannotLoad, IsRunning}
use psych_os.Boot.{
  Linked, Machine, with_tty, check_flag, Booted, refused, idle, running, say, message, when,
  commanded, map_calls, setup_tables, setup_pic, setup_paging, run_shell,
}

-- The name of the first program, and the image of the first module.
abbrev pub shell : Mem
shell i = get_or (codes "shell") i 0

abbrev pub image_of : Mem → ℕ → FileSystem
image_of m mbi = ece391_fs_init m (read32 m (read32 m (mbi + 24)))

abbrev with_fs : Machine → FileSystem → Machine
with_fs s fs = record s { fs = fs }

abbrev after_paging : Linked → Machine → Option Booted
after_paging l s = say l (setup_paging l s) (message "Enabling Interrupts\n") (run_shell l)

-- The machine before its first program, but for what is on the screen.
pub ready : Linked → ℕ → Mem → Machine → Machine
ready l mbi m s = setup_paging l (record (setup_pic l (setup_tables l s)) { fs = image_of m mbi })

-- What the processor and the kernel find.
pub record IsSetUp (l : Linked) (mbi : ℕ) (s s' : Machine) : Type 0 where
  pub gates :
      (v : ℕ)
      → v < 256
      → gate_of (s'.idt v) ≡ kernel_gate (handler_of l.handlers v) (if v == 0x80 then 3 else 0)
  pub local_table :
      system_of s'.segments.ldt_desc_ptr
      ≡ some (record { kind = 2; base = l.ldt; limit = l.ldt_size; privilege = 0 })
  pub task_state :
      system_of s'.segments.tss_desc_ptr
      ≡ some (record { kind = 9; base = l.tss; limit = l.tss_size; privilege = 3 })
  pub controller : s'.kernel.pic ≡ i8259_init s.kernel.pic
  pub files : s'.fs ≡ image_of s.kernel.tty.mem mbi
  pub processes : s'.kernel.pcbs ≡ s.kernel.pcbs

-- The addresses and sizes fit their fields.
pub record IsLinked (l : Linked) : Type 0 where
  pub handlers_fit : AreAddresses l.handlers
  pub ldt_fits : l.ldt < 2 ^ 32
  pub ldt_size_fits : l.ldt_size < 2 ^ 20
  pub tss_fits : l.tss < 2 ^ 32
  pub tss_size_fits : l.tss_size < 2 ^ 20

-- How the boot ends on a machine that is set up.
abbrev pub Runs : Linked → Machine → Option Booted → Type 0
Runs l s result =
    ((result ≡ some (idle s))
      × ((j : ℕ) × (k : Kernel) × (j < 3) × CannotLoad 6 s.fs l.dentry shell j k))
    ⊎ ((k : Kernel) × (result ≡ some (running (record s { kernel = k }))) × IsRunning s.kernel k)

-- The boot information can be read with the fuel: the command line ends within it, and the memory
-- map is passed through, where the flags say that they are there.
pub record IsReadable (fuel : ℕ) (m : Mem) (mbi : ℕ) : Type 0 where
  pub command_there :
      when
        (check_flag (read32 m mbi) 2)
        (commanded m mbi (strlen fuel (λ i. m (read32 m (mbi + 16) + i))))
      ≢ none
  pub map_there : when (check_flag (read32 m mbi) 6) (map_calls fuel m mbi) ≢ none

-- What was printed on the first terminal, once it was cleared.
abbrev pub showing : Machine → List ℕ → Tty
showing s out = put_all out (clear_terminal s.kernel.tty 0) 0

-- The three ends of the boot.
abbrev pub Ends : Linked → ℕ → ℕ → Machine → Option Booted → Type 0
Ends l magic mbi s result =
    let flags = read32 s.kernel.tty.mem mbi in
    (((magic ≢ 0x2badb002) ⊎ ((check_flag flags 4 && check_flag flags 5) ≡ true))
      × ((out : List ℕ) × (result ≡ some (refused (with_tty s (showing s out))))))
    ⊎ ((magic ≡ 0x2badb002)
        × ((check_flag flags 4 && check_flag flags 5) ≡ false)
        × ((s' : Machine) × (out : List ℕ) × (s'.kernel.tty ≡ showing s out)
            × IsSetUp l mbi s s'
            × Runs l s' result))
