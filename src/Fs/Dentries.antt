-- ===== src/Fs/Dentries.antt =====
-- The two lookups of directory entries.
use psych_os.Base.{
  ℕ, zero, suc, ◌+◌, ◌≤◌, ◌<◌, ◌≡◌, ◌⊎◌, inl, inr, ◌∙◌, refl, arith, true, false, Option, none,
  some, Mem, lt-or-le, eq-or-ne, subst, ap, leb,
}
use psych_os.Base.Int.{ℤ, pos, negsuc}
use psych_os.Str.{strncmp}
use psych_os.Str.Text.{text}
use psych_os.Str.Compare.{strncmp_iff}
use psych_os.Fs.Image.{Dentry, FileSystem}
use psych_os.Fs.Driver.{
  fill_dentry, is_zero, find_dentry, read_dentry_by_name, read_dentry_by_index,
}

-- Names hold bytes.
pub record HasNames (fs : FileSystem) : Type 0 where
  pub bytes : (i j : ℕ) → (fs.directory_entries i).file_name j < 256

-- Entry `i` has the name, up to the first NUL or to 32 bytes.
abbrev pub Named : FileSystem → Mem → ℕ → Type 0
Named fs fname i = text fname 0 32 ≡ text (fs.directory_entries i).file_name 0 32

-- The lookup's outcome among the entries from `i` up to `n`.
pub data Found (fs : FileSystem) (fname : Mem) (dentry : Dentry) (i n : ℕ)
    : Option Dentry → Type 0 where
  found :
      {r : Option Dentry} (k : ℕ)
      → i ≤ k
      → k < n
      → Named fs fname k
      → ((j : ℕ) → i ≤ j → j < k → ¬ Named fs fname j)
      → r ≡ some (fill_dentry dentry (fs.directory_entries k))
      → Found fs fname dentry i n r
  missing :
      {r : Option Dentry}
      → ((j : ℕ) → i ≤ j → j < n → ¬ Named fs fname j)
      → r ≡ none
      → Found fs fname dentry i n r

is_zero_cases :
    (z : ℤ) → ((z ≡ pos 0) × (is_zero z ≡ true)) ⊎ ((¬ (z ≡ pos 0)) × (is_zero z ≡ false))
is_zero_cases (pos zero) = inl (refl, refl)
is_zero_cases (pos (suc n)) = inr (λ e. ground arith, ground arith)
is_zero_cases (negsuc n) = inr (λ e. cc, refl)

module _ (fs : FileSystem) (fname : Mem) (dentry : Dentry) (names : HasNames fs)
    (fname_bytes : (i : ℕ) → fname i < 256) where
  test_iff :
      (i : ℕ)
      → (Named fs fname i × (is_zero (strncmp fname (fs.directory_entries i).file_name 32) ≡ true))
        ⊎ ((¬ Named fs fname i)
            × (is_zero (strncmp fname (fs.directory_entries i).file_name 32) ≡ false))
  test_iff i =
      let both =
        strncmp_iff fname (fs.directory_entries i).file_name fname_bytes (names.bytes i) 32 in
      elim (is_zero_cases (strncmp fname (fs.directory_entries i).file_name 32)) [
        | inl (z, t) ↦ inl (both.0 z, t)
        | inr (z, f) ↦ inr (λ n. z (both.1 n), f)
      ]

  find_dentry-Found :
      (n i stop : ℕ) → i + n ≡ stop → Found fs fname dentry i stop (find_dentry n fs fname dentry i)
  unfolding find_dentry
  find_dentry-Found zero i stop e = missing (λ j a b. absurd (omega arith)) refl
  find_dentry-Found (suc n) i stop e = elim (test_iff i) [
    | inl (named, t) ↦
        found i (omega arith) (omega arith) named (λ j a b. absurd (omega arith)) (rw t)
    | inr (other, t) ↦ rw t (Found-suc other (find_dentry-Found n (i + 1) stop (omega arith)))
  ]
    where
      past :
          ¬ Named fs fname i
          → (k j : ℕ) → i ≤ j
          → j < k
          → ((j : ℕ) → i + 1 ≤ j → j < k → ¬ Named fs fname j)
          → ¬ Named fs fname j
      past other k j a b rest = elim (eq-or-ne i j) [
        | inl p ↦ subst (λ t. ¬ Named fs fname t) p other
        | inr p ↦ rest j (omega arith) b
      ]

      Found-suc :
          {r : Option Dentry}
          → ¬ Named fs fname i
          → Found fs fname dentry (i + 1) stop r
          → Found fs fname dentry i stop r
      Found-suc other (found k a b c d e) =
          found k (omega arith) b c (λ j p q. past other k j p q d) e
      Found-suc other (missing d e) = missing (λ j p q. past other stop j p q d) e

  -- `read_dentry_by_name`, over names and a name that are bytes, fills the entry from the first
  -- directory entry in use of that name (up to the first NUL, or to 32 bytes), and returns -1
  -- exactly when no entry in use has it.
  pub read_dentry_by_name_lem :
      Found fs fname dentry 0 fs.num_directory_entries (read_dentry_by_name fs fname dentry)
  unfolding read_dentry_by_name
  read_dentry_by_name_lem =
      find_dentry-Found fs.num_directory_entries 0 fs.num_directory_entries (omega arith)

Found-first :
    (fs : FileSystem) (fname : Mem) (dentry : Dentry) (k n : ℕ) (r : Option Dentry)
    → k < n
    → Named fs fname k
    → ((j : ℕ) → j < k → ¬ Named fs fname j)
    → Found fs fname dentry 0 n r
    → r ≡ some (fill_dentry dentry (fs.directory_entries k))
Found-first fs fname dentry k n r l here before (missing none_of e) =
    absurd (none_of k (omega arith) l here)
Found-first fs fname dentry k n r l here before (found j a b c d e) = elim (lt-or-le j k) [
  | inl p ↦ absurd (before j p c)
  | inr p ↦ elim (eq-or-ne j k) [
    | inl q ↦ e ∙ ap (λ t. some (fill_dentry dentry (fs.directory_entries t))) q
    | inr q ↦ absurd (d k (omega arith) (omega arith) here)
  ]
]

-- Looking an entry in use up by its own name gives what looking it up by its index gives, if no
-- entry before it has that name.
pub by_name-by_index :
    (fs : FileSystem) (dentry : Dentry) (k : ℕ)
    → HasNames fs
    → k < fs.num_directory_entries
    → ((j : ℕ) → j < k → ¬ Named fs (fs.directory_entries k).file_name j)
    → read_dentry_by_name fs (fs.directory_entries k).file_name dentry
      ≡ read_dentry_by_index fs k dentry
unfolding read_dentry_by_index
by_name-by_index fs dentry k names l first =
    let t : leb fs.num_directory_entries k ≡ false = ground arith in
    rw t (
      Found-first fs _ dentry k fs.num_directory_entries _ l refl first
        (read_dentry_by_name_lem fs _ dentry names (names.bytes k)))
