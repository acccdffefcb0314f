-- ===== src/Process/Sample.antt =====
-- A sample state: six processes of which those in the slots 0, 1 and 5 run, without parents.
use psych_os.Base.{ℕ, ◌+◌, ◌*◌, Mem, [], none, ◌==◌, ◌||◌, if◌then◌else◌}
use psych_os.CircularBuffer.{circular_buffer_init}
use psych_os.Pic.{initial}
use psych_os.Fs.Files.{fops_null}
use psych_os.Tty.State.{Tty, screen, backing}
use psych_os.Process.State.{Pcb, Kernel, in_kernel}

abbrev pub blank : Mem
blank a = 0

abbrev pub process : ℕ → Pcb
process i = record {
  parent = none;
  child = none;
  process_pd_ptr = 1000 + i;
  regs_esp = 0;
  regs_ebp = 0;
  fa = λ j. record { fops = fops_null; file_position = 0; flags = 0; inode = 0 };
  program_name = blank;
  args = blank;
  entrypoint = 64;
  slot_num = i;
  pid = i;
  in_use = if i == 6 then 0 else 1;
  terminal_num = if i == 5 then 2 else 0;
  rtc_enabled = 1;
  rtc_interval = 512;
  remaining_rtc_ticks = 3;
  status = if (i == 0) || ((i == 1) || (i == 5)) then 1 else 2;
}

abbrev pub tty : Tty
tty = record {
  keyboard_state = λ k. 0;
  caps_lock_status = 0;
  input_buffer_internal = λ t. 5000 + 128 * t;
  input_buffer = λ t. circular_buffer_init (5000 + 128 * t) 128;
  new_line_ready = λ t. 0;
  words = λ v i. 0;
  cursor_x = λ t. 0;
  cursor_y = λ t. 0;
  active_terminal = 0;
  video_memory = λ t. if t == 0 then screen else backing t;
  single_terminal = 0;
  ports = [];
  mem = blank;
}

abbrev pub kernel : Kernel
kernel = record {
  pcbs = process;
  tty = tty;
  pic = initial;
  vmem_page = λ i. screen;
  cr3 = 0;
  esp0 = 0;
  esp = 0x7fff00;
  ebp = 0x7fff80;
  running = in_kernel;
  system_ticks = 0;
  next_pid = 6;
  rtc_test_enabled = 0;
}
