-- ===== src/Paging.antt =====
-- student-distrib/arch/x86/paging.c and include/arch/x86/paging.h: the page directory and the page
-- table of each process. Loading cr3 and flushing the translation buffer are not part of the state.
pub mod Translate
mod Tests
use psych_os.Base.{ℕ, ◌+◌, ◌-◌, ◌*◌, ◌/◌, Bool, ◌==◌, ◌&&◌, leb, ltb, if◌then◌else◌, update}

-- `pd_entry` and `pt_entry`, which have the same layout.
pub record Entry : Type 0 where
  pub present : ℕ
  pub read_write : ℕ
  pub user_accessible : ℕ
  pub write_through : ℕ
  pub cache_disabled : ℕ
  pub accessed : ℕ
  pub dirty : ℕ
  pub page_size : ℕ
  pub global : ℕ
  pub physical_addr_31_to_12 : ℕ

-- The structures of all slots. `unset` is what an entry holds whose other fields the code leaves
-- uninitialised, `vmem_pt_addr` the address that the linker gives to `vmem_pt`.
pub record Tables : Type 0 where
  pub directories : ℕ → ℕ → Entry
  pub tables : ℕ → ℕ → Entry
  pub vmem_pt : ℕ → Entry
  pub vmem_pt_addr : ℕ
  pub unset : Entry

abbrev pub four_mb : ℕ
four_mb = 4194304

unfoldable pub get_process_pd : ℕ → ℕ
get_process_pd slot_num = four_mb * 31 + 16384 * slot_num

unfoldable pub get_process_pt : ℕ → ℕ
get_process_pt slot_num = four_mb * 31 + 16384 * slot_num + 4096

abbrev pub blank : Entry → Entry
blank unset = record unset { present = 0 }

-- A present and writable entry: page frame, `global`, `page_size` and `user_accessible`.
abbrev pub entry : ℕ → ℕ → ℕ → ℕ → Entry
entry frame global size user = record {
  present = 1;
  read_write = 1;
  user_accessible = user;
  write_through = 0;
  cache_disabled = 0;
  accessed = 0;
  dirty = 0;
  page_size = size;
  global = global;
  physical_addr_31_to_12 = frame;
}

-- The directory that is left, whose entries are written in this order; `local_pt` is the address of
-- the page table.
unfoldable pub local_pd : Entry → ℕ → ℕ → ℕ → Entry
local_pd unset vmem_pt_addr local_pt =
    let cleared : ℕ → Entry = λ i. blank unset in
    let low = update cleared 0 (entry (vmem_pt_addr / 4096) 0 0 0) in
    let kernel = update low 1 (entry 1024 1 1 0) in
    let structures = update kernel 31 (entry (four_mb * 31 / 4096) 1 1 0) in
    let programs : ℕ → Entry =
      λ i. if leb 2 i && ltb i 8 then entry (2048 + 1024 * (i - 2)) 0 1 0 else structures i in
    update programs 33 (entry (local_pt / 4096) 0 0 1)

unfoldable pub initialize_paging_structs : Tables → ℕ → ℕ → Tables
unfolding local_pd
initialize_paging_structs s slot_num vmem_addr = record s {
  directories =
      update s.directories slot_num (local_pd s.unset s.vmem_pt_addr (get_process_pt slot_num));
  vmem_pt = λ i. if 4096 * i == 0xb8000 then entry (4096 * i / 4096) 0 0 0 else blank s.unset;
  tables =
      update s.tables slot_num
        (λ i. if i == 0 then entry (vmem_addr / 4096) 0 0 1 else blank s.unset);
}

unfoldable pub setup_process_paging : Tables → ℕ → ℕ → ℕ → ℕ × Tables
unfolding initialize_paging_structs
setup_process_paging s process_addr slot_num vmem_addr =
    let t = initialize_paging_structs s slot_num vmem_addr in
    (
      get_process_pd slot_num,
      record t {
        directories = update t.directories slot_num (
            update (t.directories slot_num) 32
              (entry (process_addr / four_mb * four_mb / 4096) 0 1 1));
        tables =
            update t.tables slot_num
              (update (t.tables slot_num) 0 (record (t.tables slot_num 0) { user_accessible = 1 }));
      },
    )

unfoldable pub set_process_vmem_page : Tables → ℕ → ℕ → Tables
set_process_vmem_page s slot_num vmem_addr = record s {
  tables = update s.tables slot_num (
      update (s.tables slot_num) 0
        (record (s.tables slot_num 0) { physical_addr_31_to_12 = vmem_addr / 4096; present = 1 }));
}

unfoldable pub get_process_vmem_page : ℕ → ℕ
get_process_vmem_page process_slot = 33 * four_mb
