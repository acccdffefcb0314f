-- ===== src/Segments.antt =====
-- The segment descriptor and the task state segment of student-distrib/include/arch/x86/x86_desc.h,
-- and the two descriptors that student-distrib/kernel.c and `set_kernel_stack` of
-- student-distrib/arch/x86/task.c build.
pub mod Layout
mod Tests
use psych_os.Base.{ℕ, ◌+◌, ◌*◌, ◌/◌, ◌%◌, ◌^◌}

-- `seg_desc_t`: a field of a few bits holds what is assigned to it modulo its size.
pub record SegDesc : Type 0 where
  pub seg_lim_15_00 : ℕ
  pub base_15_00 : ℕ
  pub base_23_16 : ℕ
  pub type_bits : ℕ
  pub sys : ℕ
  pub dpl : ℕ
  pub present : ℕ
  pub seg_lim_19_16 : ℕ
  pub avail : ℕ
  pub reserved : ℕ
  pub opsize : ℕ
  pub granularity : ℕ
  pub base_31_24 : ℕ

-- The two words of the union, with the fields from the lowest bit up.
abbrev pub low_word : SegDesc → ℕ
low_word d = d.seg_lim_15_00 + 2 ^ 16 * d.base_15_00

abbrev pub high_word : SegDesc → ℕ
high_word d =
    d.base_23_16
    + 2 ^ 8 * d.type_bits
    + 2 ^ 12 * d.sys
    + 2 ^ 13 * d.dpl
    + 2 ^ 15 * d.present
    + 2 ^ 16 * d.seg_lim_19_16
    + 2 ^ 20 * d.avail
    + 2 ^ 21 * d.reserved
    + 2 ^ 22 * d.opsize
    + 2 ^ 23 * d.granularity
    + 2 ^ 24 * d.base_31_24

-- `SET_LDT_PARAMS` and `SET_TSS_PARAMS`, which are the same.
unfoldable pub set_params : SegDesc → ℕ → ℕ → SegDesc
set_params d addr lim = record d {
  base_31_24 = addr / 2 ^ 24 % 2 ^ 8;
  base_23_16 = addr / 2 ^ 16 % 2 ^ 8;
  base_15_00 = addr % 2 ^ 16;
  seg_lim_19_16 = lim / 2 ^ 16 % 2 ^ 4;
  seg_lim_15_00 = lim % 2 ^ 16;
}

-- `unset` is what the local variable holds before its fields are assigned.
unfoldable pub ldt_descriptor : SegDesc → ℕ → ℕ → SegDesc
unfolding set_params
ldt_descriptor unset ldt ldt_size =
    set_params
      (record unset {
        granularity = 0;
        opsize = 1;
        reserved = 0;
        avail = 0;
        present = 1;
        dpl = 0;
        sys = 0;
        type_bits = 2;
      })
      ldt ldt_size

unfoldable pub tss_descriptor : SegDesc → ℕ → ℕ → SegDesc
unfolding set_params
tss_descriptor unset tss tss_size =
    set_params
      (record unset {
        granularity = 0;
        opsize = 0;
        reserved = 0;
        avail = 0;
        seg_lim_19_16 = 0;
        present = 1;
        sys = 0;
        type_bits = 9;
        dpl = 3;
      })
      tss tss_size

-- The fields of `tss_t` that the kernel assigns.
pub record Tss : Type 0 where
  pub esp0 : ℕ
  pub ss0 : ℕ
  pub ldt_segment_selector : ℕ

-- The descriptors and the task state segment.
pub record Segments : Type 0 where
  pub ldt_desc_ptr : SegDesc
  pub tss_desc_ptr : SegDesc
  pub tss : Tss

abbrev pub kernel_ds : ℕ
kernel_ds = 0x18

abbrev pub kernel_ldt : ℕ
kernel_ldt = 0x38

-- What `entry` sets up; the addresses and sizes are those of the assembly file x86_desc.S.
unfoldable pub setup_segments : SegDesc → SegDesc → ℕ → ℕ → ℕ → ℕ → Segments → Segments
unfolding ldt_descriptor tss_descriptor
setup_segments unset unset' ldt ldt_size tss tss_size s = record s {
  ldt_desc_ptr = ldt_descriptor unset ldt ldt_size;
  tss_desc_ptr = tss_descriptor unset' tss tss_size;
  tss = record { ldt_segment_selector = kernel_ldt; ss0 = kernel_ds; esp0 = 0x800000 };
}

-- What `set_kernel_stack` does to them.
unfoldable pub set_stack_segment : SegDesc → ℕ → ℕ → ℕ → Segments → Segments
unfolding tss_descriptor
set_stack_segment unset tss tss_size stack s = record s {
  tss = record (s.tss) { ss0 = kernel_ds; esp0 = stack };
  tss_desc_ptr = tss_descriptor unset tss tss_size;
}
