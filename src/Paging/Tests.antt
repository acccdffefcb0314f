-- ===== src/Paging/Tests.antt =====
-- The slots 2 and 3 of structures that hold nothing yet.
use psych_os.Base.{◌≡◌, arith, some}
use psych_os.Paging.{Entry, Tables, entry}
use psych_os.Paging.Translate.{translate}
use psych_os.Paging.Translate.Setup.{set_up, setup_process_paging_lem}

abbrev nothing : Entry
nothing = record (entry 0 0 0 0) { present = 0 }

abbrev structures : Tables
structures = record {
  directories = λ i j. nothing;
  tables = λ i j. nothing;
  vmem_pt = λ i. nothing;
  vmem_pt_addr = 0x410000;
  unset = nothing;
}

setup_process_paging_example : translate (set_up structures 2 0xb8000) 2 0x8048010 ≡ some 0x1048010
setup_process_paging_example =
    setup_process_paging_lem structures 2 0xb8000 0x8048010 (omega arith) (omega arith)
