-- ===== src/Process/Command/Parsed.antt =====
-- `parse_command` splits a command line at its first space.
use psych_os.Base.{
  ℕ, zero, suc, ◌+◌, ◌-◌, ◌≤◌, ◌<◌, ◌≡◌, ◌≢◌, ◌⊎◌, inl, inr, ◌∙◌, refl, ap, ap₂, sym, arith, true,
  false, some, List, [], ◌∷◌, Mem, store, bytes, bytes-congr, length, ◌==◌, if◌then◌else◌, eq-or-ne,
  subst,
}
use psych_os.Str.{strlen, strncpy}
use psych_os.Str.Text.{text, EndsFrom, EndsFrom-suc, strlen_iff}
use psych_os.Str.Copy.{strncpy_lem}
use psych_os.Process.Command.{scan, copy_name, parse_command}

-- What a command line says: the bytes in front of the first space, and those behind it.
abbrev pub name_of : List ℕ → List ℕ
name_of [] = []
name_of (x ∷ xs) = if x == 32 then [] else x ∷ name_of xs

abbrev pub arguments_of : List ℕ → List ℕ
arguments_of [] = []
arguments_of (x ∷ xs) = if x == 32 then xs else arguments_of xs

-- The name has `c` bytes, of the `d` bytes from `i` on in front of the NUL.
record Scanned (command : Mem) (i d c : ℕ) : Type 0 where
  upto : c ≤ d
  clean : (j : ℕ) → i ≤ j → j < i + c → command j ≢ 0
  name : name_of (bytes command i d) ≡ bytes command i c
  stop :
      ((command (i + c) ≡ 0) × (arguments_of (bytes command i d) ≡ []))
      ⊎ ((c < d)
          × (command (i + c) ≡ 32)
          × (arguments_of (bytes command i d) ≡ bytes command (i + c + 1) (d - c - 1)))

scan_lem :
    (fuel : ℕ) (command : Mem) (i d : ℕ)
    → EndsFrom command i (i + d)
    → d < fuel
    → (c : ℕ) × (scan fuel command i ≡ some (i + c)) × Scanned command i d c
unfolding scan
scan_lem zero command i d e l = absurd (omega arith)
scan_lem (suc fuel) command i zero e l =
    let z : command i ≡ 0 = ap command (omega arith) ∙ e.ends in
    (
      0,
      ground arith,
      record {
        upto = omega arith;
        clean = λ j a b. absurd (omega arith);
        name = refl;
        stop = inl (e.ends, refl);
      },
    )
scan_lem (suc fuel) command i (suc d) e l =
    let nz : (command i == 0) ≡ false = ground (arith, e.before i (omega arith) (omega arith)) in
    elim (eq-or-ne (command i) 32) [
      | inl s ↦
          let t : (command i == 32) ≡ true = ground arith in
          (
            0,
            rw t (ap some (omega arith)),
            record {
              upto = omega arith;
              clean = λ j a b. absurd (omega arith);
              name = rw t refl;
              stop = inr (
                omega arith,
                ap command (omega arith) ∙ s,
                rw t (ap₂ (bytes command) (omega arith) (omega arith)),
              );
            },
          )
      | inr s ↦
          let t : (command i == 32) ≡ false = ground arith in
          let step : EndsFrom command (i + 1) (i + 1 + d) =
            subst (EndsFrom command (i + 1)) (omega arith)
              (EndsFrom-suc command i (i + suc d) (e.before i (omega arith) (omega arith)) e) in
          let (c, found, r) = scan_lem fuel command (i + 1) d step (omega arith) in
          (
            suc c,
            rw (t, nz) (found ∙ ap some (omega arith)),
            record {
              upto = omega (arith, r.upto);
              clean = λ j a b. elim (eq-or-ne i j) [
                | inl p ↦ subst (λ x. command x ≢ 0) p (e.before i (omega arith) (omega arith))
                | inr p ↦ r.clean j (omega arith) (omega arith)
              ];
              name = rw t (ap (λ xs. command i ∷ xs) r.name);
              stop = elim r.stop [
                | inl (z, a) ↦ inl (ap command (omega arith) ∙ z, rw t a)
                | inr (u, z, a) ↦ inr (
                  omega arith,
                  ap command (omega arith) ∙ z,
                  rw t (a ∙ ap₂ (bytes command) (omega arith) (omega arith)),
                )
              ];
            },
          )
    ]

length-bytes : (m : Mem) (a n : ℕ) → length (bytes m a n) ≡ n
length-bytes m a zero = refl
length-bytes m a (suc n) = ap suc (length-bytes m (a + 1) n)

text-bytes :
    (s : Mem) (i n : ℕ) → ((j : ℕ) → i ≤ j → j < i + n → s j ≢ 0) → text s i n ≡ bytes s i n
text-bytes s i zero h = refl
text-bytes s i (suc n) h =
    let t : (s i == 0) ≡ false = ground (arith, h i (omega arith) (omega arith)) in
    rw t (ap (λ xs. s i ∷ xs) (text-bytes s (i + 1) n (λ j a b. h j (omega arith) (omega arith))))

-- A text that fills its limit is all of the bytes.
text_full : (s : Mem) (i n : ℕ) → length (text s i n) ≡ n → bytes s i n ≡ text s i n
text_full s i zero h = refl
text_full s i (suc n) h = ground (arith, text_full s (i + 1) n)

-- A buffer that says a string: its bytes and a NUL.
abbrev pub Says : Mem → List ℕ → Type 0
Says m xs = (bytes m 0 (length xs) ≡ xs) × (m (length xs) ≡ 0)

copy_name-Says :
    (buf src : Mem) (n : ℕ)
    → ((j : ℕ) → j < n → src j ≢ 0)
    → Says (copy_name buf src n) (bytes src 0 n)
copy_name-Says buf src n h =
    let whole : text (strncpy buf src n) 0 n ≡ bytes src 0 n =
      (strncpy_lem buf src n).0 ∙ text-bytes src 0 n (λ j a b. h j (omega arith)) in
    let kept : bytes (copy_name buf src n) 0 n ≡ bytes (strncpy buf src n) 0 n =
      bytes-congr (strncpy buf src n) (copy_name buf src n) 0 n (λ x a b. ground arith) in
    rw (length-bytes src 0 n) (
      kept ∙ text_full (strncpy buf src n) 0 n (ap length whole ∙ length-bytes src 0 n) ∙ whole,
      ground arith,
    )

bytes-shift : (m : Mem) (a b n : ℕ) → bytes (λ i. m (a + i)) b n ≡ bytes m (a + b) n
bytes-shift m a b zero = refl
bytes-shift m a b (suc n) =
    ap (λ xs. m (a + b) ∷ xs) (bytes-shift m a (b + 1) n ∙ ap (λ x. bytes m x n) (omega arith))

-- What `parse_command` leaves for a command line `xs`.
pub record Parsed (xs : List ℕ) (len : ℕ) (name args : Mem) : Type 0 where
  pub name_says : Says name (name_of xs)
  pub args_say : Says args (arguments_of xs)
  pub args_length : len ≡ length (arguments_of xs)

module _ (fuel : ℕ) (command buf_name buf_args : Mem) (n : ℕ) (e : EndsFrom command 0 n)
    (l : n < fuel) where
  more_of : ℕ → Mem
  more_of c i = command (c + 1 + i)

  more_length : (c : ℕ) → c < n → strlen fuel (more_of c) ≡ some (n - c - 1)
  unfolding more_of
  more_length c u = (strlen_iff fuel (more_of c) (n - c - 1)).1 (
    record {
      reached = omega arith;
      ends = ap command (omega arith) ∙ e.ends;
      before = λ j a b. e.before (c + 1 + j) (omega arith) (omega arith);
    },
    omega arith,
  )

  more-Says :
      (c : ℕ)
      → c < n
      → Says (copy_name buf_args (more_of c) (n - c - 1)) (bytes command (c + 1) (n - c - 1))
  unfolding more_of
  more-Says c u =
      subst (Says (copy_name buf_args (more_of c) (n - c - 1)))
        (bytes-shift command (c + 1) 0 (n - c - 1)
          ∙ ap (λ x. bytes command x (n - c - 1)) (omega arith))
        (copy_name-Says buf_args (more_of c) (n - c - 1)
          (λ j a. e.before (c + 1 + j) (omega arith) (omega arith)))

  -- `parse_command` of a command line of `n` bytes, with fuel above that, leaves the bytes in front of
  -- the first space as the name and those behind it as the arguments, each with a NUL, and returns the
  -- length of the arguments; without a space all is name and the arguments are empty.
  pub parse_command_lem :
      (len : ℕ) × (name : Mem) × (args : Mem) × (parse_command fuel command buf_name buf_args
        ≡ some (len, name, args))
      × Parsed (bytes command 0 n) len name args
  unfolding parse_command more_of
  parse_command_lem =
      let (c, found, r) =
        scan_lem fuel command 0 n (subst (EndsFrom command 0) (omega arith) e) l in
      let named : Says (copy_name buf_name command c) (name_of (bytes command 0 n)) =
        subst (Says (copy_name buf_name command c)) (sym r.name)
          (copy_name-Says buf_name command c (λ j a. r.clean j (omega arith) (omega arith))) in
      let at : scan fuel command 0 ≡ some c = found ∙ ap some (omega arith) in
      elim r.stop [
        | inl (z, a) ↦
            let at_end : command c ≡ 0 = ap command (omega arith) ∙ z in
            let t : (command c == 32) ≡ false = ground arith in
            (
              0,
              copy_name buf_name command c,
              store buf_args 0 0,
              rw (at, t) refl,
              record { name_says = named; args_say = rw a (refl, refl); args_length = rw a refl },
            )
        | inr (u, s, a) ↦
            let at_space : command c ≡ 32 = ap command (omega arith) ∙ s in
            let t : (command c == 32) ≡ true = ground arith in
            let rest : arguments_of (bytes command 0 n) ≡ bytes command (c + 1) (n - c - 1) =
              a ∙ ap (λ x. bytes command x (n - c - 1)) (omega arith) in
            (
              n - c - 1,
              copy_name buf_name command c,
              copy_name buf_args (more_of c) (n - c - 1),
              rw (at, t, more_length c u) refl,
              record {
                name_says = named;
                args_say =
                    subst (Says (copy_name buf_args (more_of c) (n - c - 1))) (sym rest)
                      (more-Says c u);
                args_length = sym (ap length rest ∙ length-bytes command (c + 1) (n - c - 1));
              },
            )
      ]
