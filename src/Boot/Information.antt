-- ===== src/Boot/Information.antt =====
-- What is printed of the boot information can be printed.
use psych_os.Base.{
  ℕ, zero, suc, ◌+◌, ◌^◌, ◌<◌, refl, arith, Option, none, some, List, Mem, add32, ltb, if_keeps,
}
use psych_os.Fs.Image.{read32}
use psych_os.Printf.Calls.{PrintCall}
use psych_os.Printf.Said.{IsCall, AreCalls}
use psych_os.Printf.Checked.{checked-IsCall, AreCalls-append}
use psych_os.Boot.{
  flags_calls, memory_calls, device_calls, promoted, byte_calls, one_module, module_calls,
  elf_calls, one_region, also, region_calls, map_heading, map_calls,
}

-- Every address of the memory holds a byte.
abbrev pub AreBytes : Mem → Type 0
AreBytes m = (a : ℕ) → m a < 256

-- The calls can be printed, where there are any.
abbrev pub MayCall : Option (List PrintCall) → Type 0
MayCall none = Unit
MayCall (some cs) = AreCalls cs

module _ (m : Mem) (b : AreBytes m) where
  pub word_fits : (a : ℕ) → read32 m a < 2 ^ 32
  word_fits a = omega (arith, b a, b (a + 1), b (a + 2), b (a + 3))

  pub flags-AreCalls : (mbi : ℕ) → AreCalls (flags_calls m mbi)
  flags-AreCalls mbi = (checked-IsCall _ refl refl (word_fits mbi, tt), tt)

  pub memory-AreCalls : (mbi : ℕ) → AreCalls (memory_calls m mbi)
  memory-AreCalls mbi =
      (checked-IsCall _ refl refl (word_fits (mbi + 4), (word_fits (mbi + 8), tt)), tt)

  pub device-AreCalls : (mbi : ℕ) → AreCalls (device_calls m mbi)
  device-AreCalls mbi = (checked-IsCall _ refl refl (word_fits (mbi + 12), tt), tt)

  byte-AreCalls : (n mod_start i : ℕ) → AreCalls (byte_calls n m mod_start i)
  unfolding byte_calls
  byte-AreCalls zero mod_start i = tt
  byte-AreCalls (suc n) mod_start i =
      let fits : promoted (m (mod_start + i)) < 2 ^ 32 = ground (arith, b (mod_start + i)) in
      (checked-IsCall _ refl refl (fits, tt), byte-AreCalls n mod_start (i + 1))

  one_module-AreCalls :
      (mod_addr mod_count : ℕ) → mod_count < 2 ^ 32 → AreCalls (one_module m mod_addr mod_count)
  one_module-AreCalls mod_addr mod_count l = (
    checked-IsCall _ refl refl (l, (word_fits mod_addr, tt)),
    (
      checked-IsCall _ refl refl (l, (word_fits (mod_addr + 4), tt)),
      (
        checked-IsCall _ refl refl tt,
        AreCalls-append (byte_calls 16 m (read32 m mod_addr) 0) _
            (byte-AreCalls 16 (read32 m mod_addr) 0) (checked-IsCall _ refl refl tt, tt),
      ),
    ),
  )

  pub module-AreCalls :
      (n mod_addr mod_count : ℕ)
      → mod_count + n < 2 ^ 32
      → AreCalls (module_calls n m mod_addr mod_count)
  unfolding module_calls
  module-AreCalls zero mod_addr mod_count l = tt
  module-AreCalls (suc n) mod_addr mod_count l =
      AreCalls-append (one_module m mod_addr mod_count) _
        (one_module-AreCalls mod_addr mod_count (omega arith))
        (module-AreCalls n (mod_addr + 16) (mod_count + 1) (omega arith))

  pub elf-AreCalls : (mbi : ℕ) → AreCalls (elf_calls m mbi)
  elf-AreCalls mbi = (
    checked-IsCall _ refl refl (
      word_fits (mbi + 28),
      (word_fits (mbi + 32), (word_fits (mbi + 36), (word_fits (mbi + 40), tt))),
    ),
    tt,
  )

  one_region-IsCall : (mmap : ℕ) → IsCall (one_region m mmap)
  one_region-IsCall mmap = checked-IsCall _ refl refl (
    word_fits mmap,
    (
      word_fits (mmap + 8),
      (
        word_fits (mmap + 4),
        (word_fits (mmap + 20), (word_fits (mmap + 16), (word_fits (mmap + 12), tt))),
      ),
    ),
  )

  also-MayCall :
      (c : PrintCall) (o : Option (List PrintCall)) → IsCall c → MayCall o → MayCall (also c o)
  unfolding also
  also-MayCall c none k h = tt
  also-MayCall c (some cs) k h = (k, h)

  region-MayCall : (fuel mmap stop : ℕ) → MayCall (region_calls fuel m mmap stop)
  unfolding region_calls
  region-MayCall zero mmap stop = tt
  region-MayCall (suc fuel) mmap stop =
      let rest = region_calls fuel m (add32 (add32 mmap (read32 m mmap)) 4) stop in
      if_keeps MayCall (ltb mmap stop)
        (also-MayCall (one_region m mmap) rest (one_region-IsCall mmap)
          (region-MayCall fuel (add32 (add32 mmap (read32 m mmap)) 4) stop))
        tt

  pub map-MayCall : (fuel mbi : ℕ) → MayCall (map_calls fuel m mbi)
  map-MayCall fuel mbi =
      also-MayCall (map_heading m mbi) _
        (checked-IsCall _ refl refl (word_fits (mbi + 48), (word_fits (mbi + 44), tt)))
        (region-MayCall fuel (read32 m (mbi + 48))
          (add32 (read32 m (mbi + 48)) (read32 m (mbi + 44))))
