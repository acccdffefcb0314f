-- ===== src/Paging/Translate/Setup.antt =====
-- What the set-up of one slot means for its program, and for the other slots'.
use psych_os.Base.{ℕ, ◌+◌, ◌*◌, ◌/◌, ◌^◌, ◌<◌, ◌≡◌, ◌≢◌, refl, ap, arith, true, false, ◌==◌}
use psych_os.Process.Addresses.{get_process_page_from_slot}
use psych_os.Paging.{
  Tables, four_mb, get_process_pt, local_pd, entry, initialize_paging_structs, setup_process_paging,
}
use psych_os.Paging.Translate.{translate, user_map, usable, Arranged, Arranged-translate}

-- The paging that `setup_process_paging` sets up for a slot, with its own page.
abbrev pub set_up : Tables → ℕ → ℕ → Tables
set_up s slot vmem_addr =
    (setup_process_paging s (get_process_page_from_slot slot) slot vmem_addr).1

module _ (s : Tables) (slot vmem_addr : ℕ) (l : slot < 6) where
  self : (slot == slot) ≡ true
  self = ground arith

  setup_page : (set_up s slot vmem_addr).directories slot 32 ≡ entry (2048 + 1024 * slot) 0 1 1
  unfolding setup_process_paging initialize_paging_structs get_process_page_from_slot
  setup_page =
      let frame : get_process_page_from_slot slot / four_mb * four_mb / 4096 ≡ 2048 + 1024 * slot =
        omega arith in
      rw self (ap (λ k. entry k 0 1 1) frame)

  setup_table :
      (set_up s slot vmem_addr).directories slot 33 ≡ entry (get_process_pt slot / 4096) 0 0 1
  unfolding setup_process_paging initialize_paging_structs local_pd
  setup_table = rw self refl

  setup_other :
      (i : ℕ) → 32 ≢ i → 33 ≢ i → usable ((set_up s slot vmem_addr).directories slot i) ≡ false
  unfolding setup_process_paging initialize_paging_structs local_pd
  setup_other i n k = rw self (ground arith)

  setup_first : (set_up s slot vmem_addr).tables slot 0 ≡ entry (vmem_addr / 4096) 0 0 1
  unfolding setup_process_paging initialize_paging_structs
  setup_first = rw self refl

  setup_rest : (i : ℕ) → i ≢ 0 → usable ((set_up s slot vmem_addr).tables slot i) ≡ false
  unfolding setup_process_paging initialize_paging_structs
  setup_rest i n = rw self (ground arith)

  set_up-Arranged : Arranged (set_up s slot vmem_addr) slot vmem_addr
  set_up-Arranged = record {
    page_entry = setup_page;
    table_entry = setup_table;
    other_entry = setup_other;
    first_page = rw setup_first refl;
    first_frame = ap (λ e. e.physical_addr_31_to_12) setup_first;
    other_page = setup_rest;
  }

-- With the structures that `setup_process_paging` leaves for the page of one of the six slots, a
-- program of that slot reaches the 4 MB of its own page at 128 MB, the 4 KB of the video memory given
-- at 132 MB, and nothing else of memory.
pub setup_process_paging_lem :
    (s : Tables) (slot vmem_addr v : ℕ)
    → slot < 6
    → v < 2 ^ 32
    → translate (set_up s slot vmem_addr) slot v ≡ user_map slot vmem_addr v
setup_process_paging_lem s slot vmem_addr v l m =
    Arranged-translate _ slot vmem_addr v l m (set_up-Arranged s slot vmem_addr l)
