-- ===== src/Boot/Tests.antt =====
-- A boot loader's information at address 100, without any of its optional parts, and addresses of a
-- kernel linked at 4 MB.
use psych_os.Fs.Image.{ece391_fs_init}
use psych_os.Paging.{Entry}
use psych_os.Interrupts.{IdtDesc, Handlers}
use psych_os.Segments.{SegDesc}
use psych_os.Process.Sample.{blank, kernel}
use psych_os.Boot.{Linked, Machine}

abbrev handlers : Handlers
handlers = record {
  null_handler = 0x400010;
  exceptions = λ i. 0x400100;
  syscall_wrapper = 0x400200;
  keyboard_wrapper = 0x400300;
  rtc_wrapper = 0x400400;
  pit_wrapper = 0x400500;
}

abbrev unset : SegDesc
unset = record {
  seg_lim_15_00 = 0;
  base_15_00 = 0;
  base_23_16 = 0;
  type_bits = 0;
  sys = 0;
  dpl = 0;
  present = 0;
  seg_lim_19_16 = 0;
  avail = 0;
  reserved = 0;
  opsize = 0;
  granularity = 0;
  base_31_24 = 0;
}

abbrev no_gate : IdtDesc
no_gate = record {
  offset_15_00 = 0;
  seg_selector = 0;
  reserved4 = 0;
  reserved3 = 0;
  reserved2 = 0;
  reserved1 = 0;
  size = 0;
  reserved0 = 0;
  dpl = 0;
  present = 0;
  offset_31_16 = 0;
}

abbrev no_entry : Entry
no_entry = record {
  present = 0;
  read_write = 0;
  user_accessible = 0;
  write_through = 0;
  cache_disabled = 0;
  accessed = 0;
  dirty = 0;
  page_size = 0;
  global = 0;
  physical_addr_31_to_12 = 0;
}

abbrev linked : Linked
linked = record {
  handlers = handlers;
  ldt = 0x401000;
  ldt_size = 32;
  tss = 0x402000;
  tss_size = 104;
  kernel_pt_addr = 0x403000;
  unset = unset;
  conv_buf = blank;
  dentry = record { file_name = blank; file_type = 0; inode_num = 0; reserved = blank };
}

abbrev machine : Machine
machine = record {
  kernel = kernel;
  idt = λ v. no_gate;
  segments = record {
    ldt_desc_ptr = unset;
    tss_desc_ptr = unset;
    tss = record { esp0 = 0; ss0 = 0; ldt_segment_selector = 0 };
  };
  tables = record {
    directories = λ s i. no_entry;
    tables = λ s i. no_entry;
    vmem_pt = λ i. no_entry;
    vmem_pt_addr = 0x404000;
    unset = no_entry;
  };
  kernel_pd = λ i. no_entry;
  kernel_pt = λ i. no_entry;
  fs = ece391_fs_init blank 0;
}
