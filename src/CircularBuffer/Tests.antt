-- ===== src/CircularBuffer/Tests.antt =====
-- A buffer over four bytes at address 16 that holds the two bytes 19 and 16, round its end.
use psych_os.Base.{ℕ, ◌+◌, ◌≤◌, ◌<◌, ◌≡◌, ◌⊎◌, inr, refl, arith, Mem, [], ◌∷◌, bytes}
use psych_os.CircularBuffer.{CircularBuffer, circular_buffer_put, circular_buffer_get}
use psych_os.CircularBuffer.Inv.{IsValid, InRing, IsApart, contents}
use psych_os.CircularBuffer.Put.{circular_buffer_put_lem}
use psych_os.CircularBuffer.Get.{circular_buffer_get_lem}

abbrev wrapped : CircularBuffer
wrapped = record {
  max_len = 4;
  current_len = 2;
  data_start = 16;
  data_end = 20;
  head = 19;
  tail = 17;
}

-- Each address holds its own number.
abbrev memory : Mem
memory a = a

wrapped-IsValid : IsValid wrapped
wrapped-IsValid = record {
  nonnull = omega arith;
  storage = refl;
  fits = omega arith;
  head_from = omega arith;
  head_in = omega arith;
  tail_from = omega arith;
  tail_in = omega arith;
  bounded = omega arith;
  behind = inr refl;
}

source-IsApart : IsApart wrapped 100 2
source-IsApart = record { fits = omega arith; apart = inr (omega arith) }

circular_buffer_put_example :
    let (n, b', m') = circular_buffer_put wrapped memory 100 3 in
    (n ≡ 2)
    × IsValid b'
    × (contents b' m' ≡ 19 ∷ 16 ∷ 100 ∷ 101 ∷ [])
    × ((x : ℕ) → ¬ InRing wrapped x → m' x ≡ memory x)
unfolding circular_buffer_put
circular_buffer_put_example =
    circular_buffer_put_lem wrapped memory 100 3 wrapped-IsValid (omega arith) source-IsApart

circular_buffer_get_example :
    let (n, b', m') = circular_buffer_get wrapped memory 100 5 in
    (n ≡ 2)
    × (bytes m' 100 n ≡ 19 ∷ 16 ∷ [])
    × ((x : ℕ) → (x < 100) ⊎ (100 + n ≤ x) → m' x ≡ memory x)
    × (contents b' m' ≡ [])
    × IsValid b'
unfolding circular_buffer_get
circular_buffer_get_example =
    circular_buffer_get_lem wrapped memory 100 5 wrapped-IsValid source-IsApart
