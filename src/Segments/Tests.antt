-- ===== src/Segments/Tests.antt =====
-- Tables at the addresses that a kernel linked at 4 MB could give them.
use psych_os.Base.{◌≡◌, arith, some}
use psych_os.Segments.{SegDesc, Segments, setup_segments, set_stack_segment, kernel_ds, kernel_ldt}
use psych_os.Segments.Layout.{system_of, set_stack_segment_lem}

abbrev unset : SegDesc
unset = record {
  seg_lim_15_00 = 7;
  base_15_00 = 7;
  base_23_16 = 7;
  type_bits = 7;
  sys = 1;
  dpl = 1;
  present = 0;
  seg_lim_19_16 = 7;
  avail = 1;
  reserved = 1;
  opsize = 1;
  granularity = 1;
  base_31_24 = 7;
}

abbrev segments : Segments
segments = record {
  ldt_desc_ptr = unset;
  tss_desc_ptr = unset;
  tss = record { esp0 = 0; ss0 = 0; ldt_segment_selector = 0 };
}

set_stack_segment_lem_example :
    let s' =
      set_stack_segment unset 0x412345 104 0x7fe000
        (setup_segments unset unset 0x401000 32 0x412345 104 segments) in
    (system_of s'.ldt_desc_ptr
      ≡ some (record { kind = 2; base = 0x401000; limit = 32; privilege = 0 }))
    × (system_of s'.tss_desc_ptr
        ≡ some (record { kind = 9; base = 0x412345; limit = 104; privilege = 3 }))
    × (s'.tss ≡ record { esp0 = 0x7fe000; ss0 = kernel_ds; ldt_segment_selector = kernel_ldt })
set_stack_segment_lem_example =
    set_stack_segment_lem unset unset unset 0x401000 32 0x412345 104 0x7fe000 segments (omega arith)
      (omega arith) (omega arith) (omega arith)
