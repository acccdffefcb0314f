-- ===== src/Printf/Puts.antt =====
-- What `puts` writes: the bytes in front of the first NUL, one after the other.
use psych_os.Base.{
  ℕ, zero, suc, ◌+◌, ◌<◌, ◌≡◌, ◌≢◌, refl, ap, ap₂, ◌∙◌, arith, false, some, List, [], ◌∷◌, ◌++◌,
  Mem, ◌==◌, bytes,
}
use psych_os.Str.Text.{EndsFrom}
use psych_os.Tty.State.{Tty}
use psych_os.Tty.Screen.{putc}
use psych_os.Tty.Calls.{put_all}
use psych_os.Printf.{puts_from, puts, put_string}

pub put_all-append :
    (front back : List ℕ) (s : Tty)
    → put_all (front ++ back) s 0 ≡ put_all back (put_all front s 0) 0
unfolding put_all
put_all-append [] back s = refl
put_all-append (ch ∷ front) back s = put_all-append front back _

puts_from_lem :
    (k fuel : ℕ) (s : Tty) (str : Mem) (at index : ℕ)
    → ((j : ℕ) → j < k → str (at + index + j) ≢ 0)
    → str (at + index + k) ≡ 0
    → k < fuel
    → puts_from fuel s str at index ≡ some (index + k, put_all (bytes str (at + index) k) s 0)
unfolding puts_from put_all putc
puts_from_lem k zero s str at index b e l = absurd (omega arith)
puts_from_lem zero (suc fuel) s str at index b e l =
    let z : str (at + index) ≡ 0 = ap str (omega arith) ∙ e in
    rw z (ap (λ n. some (n, s)) (omega arith))
puts_from_lem (suc k) (suc fuel) s str at index b e l =
    let n : (str (at + index) == 0) ≡ false =
      (let h : str (at + index) ≢ 0 = λ z. b 0 (omega arith) (ap str (omega arith) ∙ z) in
        ground arith) in
    let rest =
      puts_from_lem k fuel (putc s (str (at + index))) str at (index + 1)
        (λ j h z. b (j + 1) (omega arith) (ap str (omega arith) ∙ z)) (ap str (omega arith) ∙ e)
        (omega arith) in
    rw n (
      rest
      ∙ ap₂ (λ w a. some (w, put_all (bytes str a k) (putc s (str (at + index))) 0)) (omega arith)
          (omega arith))

-- A string of `k` bytes from `at` on.
pub record IsString (str : Mem) (at k : ℕ) : Type 0 where
  pub before : (j : ℕ) → j < k → str (at + j) ≢ 0
  pub ends : str (at + k) ≡ 0

pub puts_lem :
    (fuel : ℕ) (s : Tty) (str : Mem) (at k : ℕ)
    → IsString str at k
    → k < fuel
    → puts fuel s str at ≡ some (k, put_all (bytes str at k) s 0)
unfolding puts
puts_lem fuel s str at k i l =
    puts_from_lem k fuel s str at 0 (λ j h z. i.before j h (ap str (omega arith) ∙ z))
      (ap str (omega arith) ∙ i.ends) l
    ∙ ap₂ (λ w a. some (w, put_all (bytes str a k) s 0)) (omega arith) (omega arith)

pub put_string_lem :
    (fuel : ℕ) (s : Tty) (str : Mem) (at k : ℕ)
    → IsString str at k
    → k < fuel
    → put_string fuel s (some str) at ≡ some (put_all (bytes str at k) s 0)
unfolding put_string
put_string_lem fuel s str at k i l = rw (puts_lem fuel s str at k i l)

pub IsString-of_end : (str : Mem) (k : ℕ) → EndsFrom str 0 k → IsString str 0 k
IsString-of_end str k e = record {
  before = λ j h z. e.before j (omega arith) h (ap str (omega arith) ∙ z);
  ends = ap str (omega arith) ∙ e.ends;
}
