-- ===== src/Paging/Translate.antt =====
-- What the processor makes of the tables: where an address leads in user mode.
pub mod Setup
use psych_os.Base.{
  ℕ, ◌+◌, ◌-◌, ◌*◌, ◌/◌, ◌%◌, ◌^◌, ◌≤◌, ◌<◌, ◌≡◌, ◌≢◌, ◌⊎◌, inl, inr, ◌∙◌, refl, sym, ap, arith,
  Bool, true, false, Bool-cases, Option, none, some, ◌==◌, ◌&&◌, leb, ltb, if◌then◌else◌, update,
  eq-or-ne, lt-or-le,
}
use psych_os.Process.Addresses.{get_process_page_from_slot}
use psych_os.Paging.{
  Entry, Tables, four_mb, get_process_pt, local_pd, entry, blank, initialize_paging_structs,
  setup_process_paging, set_process_vmem_page, get_process_vmem_page,
}

-- A page table entry: its frame, if it may be used.
abbrev pub through_page : Entry → ℕ → Option ℕ
through_page e v =
    if (e.present == 1) && (e.user_accessible == 1)
    then some (e.physical_addr_31_to_12 * 4096 + v % 4096)
    else none

-- A directory entry: a page of 4 MB, or the table that its frame holds.
abbrev pub through_directory : (ℕ → ℕ → Entry) → Entry → ℕ → Option ℕ
through_directory table_at e v =
    if (e.present == 1) && (e.user_accessible == 1)
    then if e.page_size == 1
      then some (e.physical_addr_31_to_12 / 1024 * four_mb + v % four_mb)
      else through_page (table_at e.physical_addr_31_to_12 (v / 4096 % 1024)) v
    else none

-- The table in a frame: that of a slot, or `vmem_pt`.
abbrev pub table_in : Tables → ℕ → ℕ → ℕ → Entry
table_in s slot frame = if frame == get_process_pt slot / 4096 then s.tables slot else s.vmem_pt

-- The physical address of a virtual one, for a program of the slot.
abbrev pub translate : Tables → ℕ → ℕ → Option ℕ
translate s slot v = through_directory (table_in s slot) (s.directories slot (v / four_mb)) v

-- The program's 4 MB, and the 4 KB of its terminal's video memory; nothing else.
abbrev pub user_map : ℕ → ℕ → ℕ → Option ℕ
user_map slot vmem_addr v =
    if v / four_mb == 32
    then some (0x800000 + four_mb * slot + v % four_mb)
    else if v / 4096 == 33 * 1024
    then some (vmem_addr / 4096 * 4096 + v % 4096)
    else none

-- A program can go through an entry.
abbrev pub usable : Entry → Bool
usable e = (e.present == 1) && (e.user_accessible == 1)

-- The tables of a slot, as far as its program can go through them.
pub record Arranged (t : Tables) (slot vmem_addr : ℕ) : Type 0 where
  pub page_entry : t.directories slot 32 ≡ entry (2048 + 1024 * slot) 0 1 1
  pub table_entry : t.directories slot 33 ≡ entry (get_process_pt slot / 4096) 0 0 1
  pub other_entry : (i : ℕ) → 32 ≢ i → 33 ≢ i → usable (t.directories slot i) ≡ false
  pub first_page : usable (t.tables slot 0) ≡ true
  pub first_frame : (t.tables slot 0).physical_addr_31_to_12 ≡ vmem_addr / 4096
  pub other_page : (i : ℕ) → i ≢ 0 → usable (t.tables slot i) ≡ false

pub Arranged-translate :
    (t : Tables) (slot vmem_addr v : ℕ)
    → slot < 6
    → v < 2 ^ 32
    → Arranged t slot vmem_addr
    → translate t slot v ≡ user_map slot vmem_addr v
Arranged-translate t slot vmem_addr v l m a =
    let frame = get_process_pt slot / 4096 in
    let through : Entry → Option ℕ = λ x. through_directory (table_in t slot) x v in
    elim (eq-or-ne (v / four_mb) 32) [
      | inl e ↦
          let test : (v / four_mb == 32) ≡ true = ground arith in
          ap through (ap (t.directories slot) e ∙ a.page_entry) ∙ rw test (ap some (omega arith))
      | inr n ↦
          let test : (v / four_mb == 32) ≡ false = ground arith in
          elim (eq-or-ne (v / four_mb) 33) [
            | inl e ↦
                let own : (frame == frame) ≡ true = ground arith in
                ap through (ap (t.directories slot) e ∙ a.table_entry)
                ∙ (elim (eq-or-ne (v / 4096 % 1024) 0) [
                  | inl z ↦
                      let page : (v / 4096 == 33 * 1024) ≡ true = ground arith in
                      rw (own, z, a.first_page, a.first_frame, test, page) refl
                  | inr z ↦
                      let page : (v / 4096 == 33 * 1024) ≡ false = ground arith in
                      rw (own, a.other_page (v / 4096 % 1024) z, test, page) refl
                ])
            | inr k ↦
                let page : (v / 4096 == 33 * 1024) ≡ false = ground arith in
                let closed = a.other_entry (v / four_mb) (λ p. n (sym p)) (λ p. k (sym p)) in
                rw (closed, test, page) refl
          ]
    ]
