-- ===== src/Segments/Layout.antt =====
-- What the processor makes of a descriptor.
use psych_os.Base.{
  ℕ, ◌+◌, ◌*◌, ◌/◌, ◌%◌, ◌^◌, ◌<◌, ◌≡◌, refl, arith, Option, none, some, ◌==◌, if◌then◌else◌,
}
use psych_os.Segments.{
  SegDesc, low_word, high_word, ldt_descriptor, tss_descriptor, Segments, setup_segments,
  set_stack_segment, kernel_ds, kernel_ldt,
}

-- A system segment: its kind, base address, limit, and the least privileged ring that may use it.
pub record System : Type 0 where
  pub kind : ℕ
  pub base : ℕ
  pub limit : ℕ
  pub privilege : ℕ

-- Bit 15 of the high word is `present`, the bits 8 to 12 the kind, where bit 12 is 0 for a system
-- segment; bit 23 is the granularity, which has to be a byte here.
pub system_of : SegDesc → Option System
system_of d =
    let low = low_word d in
    let high = high_word d in
    if high / 2 ^ 15 % 2 == 1
    then if high / 2 ^ 12 % 2 == 0
      then if high / 2 ^ 23 % 2 == 0
        then some (record {
          kind = high / 2 ^ 8 % 16;
          base = high / 2 ^ 24 * 2 ^ 24 + high % 2 ^ 8 * 2 ^ 16 + low / 2 ^ 16;
          limit = high / 2 ^ 16 % 16 * 2 ^ 16 + low % 2 ^ 16;
          privilege = high / 2 ^ 13 % 4;
        })
        else none
      else none
    else none

pub ldt_descriptor-system :
    (unset : SegDesc) (ldt ldt_size : ℕ)
    → ldt < 2 ^ 32
    → ldt_size < 2 ^ 20
    → system_of (ldt_descriptor unset ldt ldt_size)
      ≡ some (record { kind = 2; base = ldt; limit = ldt_size; privilege = 0 })
unfolding system_of ldt_descriptor
ldt_descriptor-system unset ldt ldt_size a l = ground arith

pub tss_descriptor-system :
    (unset : SegDesc) (tss tss_size : ℕ)
    → tss < 2 ^ 32
    → tss_size < 2 ^ 20
    → system_of (tss_descriptor unset tss tss_size)
      ≡ some (record { kind = 9; base = tss; limit = tss_size; privilege = 3 })
unfolding system_of tss_descriptor
tss_descriptor-system unset tss tss_size a l = ground arith

-- Whatever the local descriptors held, with tables at 32-bit addresses and sizes below 2^20: after
-- the set-up of the segments and any later change of the kernel stack, the processor reads from the
-- two descriptors a local descriptor table (kind 2, for the kernel only) and an available task
-- state segment (kind 9), each with exactly its base and limit; and the task state segment names
-- the kernel's data segment, the new stack and the local table.
pub set_stack_segment_lem :
    (unset unset' unset'' : SegDesc) (ldt ldt_size tss tss_size stack : ℕ) (s : Segments)
    → ldt < 2 ^ 32
    → ldt_size < 2 ^ 20
    → tss < 2 ^ 32
    → tss_size < 2 ^ 20
    → let s' =
        set_stack_segment unset'' tss tss_size stack
          (setup_segments unset unset' ldt ldt_size tss tss_size s) in
      (system_of s'.ldt_desc_ptr
        ≡ some (record { kind = 2; base = ldt; limit = ldt_size; privilege = 0 }))
      × (system_of s'.tss_desc_ptr
          ≡ some (record { kind = 9; base = tss; limit = tss_size; privilege = 3 }))
      × (s'.tss ≡ record { esp0 = stack; ss0 = kernel_ds; ldt_segment_selector = kernel_ldt })
unfolding set_stack_segment setup_segments
set_stack_segment_lem unset unset' unset'' ldt ldt_size tss tss_size stack s a l b m = (
  ldt_descriptor-system unset ldt ldt_size a l,
  tss_descriptor-system unset'' tss tss_size b m,
  refl,
)
