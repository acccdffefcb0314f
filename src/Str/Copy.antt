-- ===== src/Str/Copy.antt =====
-- `strcpy` and `strncpy` copy the text, and write nothing else.
use psych_os.Base.{
  ℕ, zero, suc, ◌+◌, ◌≤◌, ◌<◌, ◌≡◌, ◌≢◌, ◌⊎◌, inl, inr, ◌∙◌, refl, arith, some, Mem, store, ◌==◌,
  if◌then◌else◌, eq-or-ne, length, false, leb, ltb, ◌&&◌,
}
use psych_os.Str.{strcpy_from, strcpy, strncpy_copy, strncpy_fill, strncpy}
use psych_os.Str.Text.{text, EndsFrom, EndsFrom-suc, EndsFrom-zero}

-- What `strcpy` leaves from offset `i` on.
record CopiedTo (dest src out : Mem) (i n : ℕ) : Type 0 where
  copies : (j : ℕ) → i ≤ j → j ≤ n → out j ≡ src j
  outside : (j : ℕ) → (j < i) ⊎ (n < j) → out j ≡ dest j

strcpy_from-CopiedTo :
    (fuel : ℕ) (dest src : Mem) (i n : ℕ)
    → EndsFrom src i n
    → n < i + fuel
    → (out : Mem) × (strcpy_from fuel dest src i ≡ some out) × CopiedTo dest src out i n
unfolding strcpy_from
strcpy_from-CopiedTo zero dest src i n e l = absurd (omega (arith, e.reached))
strcpy_from-CopiedTo (suc fuel) dest src i n e l = elim (eq-or-ne (src i) 0) [
  | inl z ↦
      let p : i ≡ n = EndsFrom-zero src i n z e in
      (
        store dest i 0,
        ground arith,
        record {
          copies = λ j a b. let q : i ≡ j = omega arith in rw (← q) (ground arith);
          outside = λ j o. ground arith;
        },
      )
  | inr z ↦
      let e' : EndsFrom src (i + 1) n = EndsFrom-suc src i n z e in
      let (out, run, c) =
        strcpy_from-CopiedTo fuel (store dest i (src i)) src (i + 1) n e' (omega arith) in
      (
        out,
        ground arith,
        record {
          copies = λ j a b. elim (eq-or-ne i j) [
            | inl q ↦ rw (← q) (c.outside i (inl (omega arith)) ∙ ground arith)
            | inr q ↦ c.copies j (omega arith) b
          ];
          outside = λ j o. c.outside j (ground arith) ∙ ground (arith, e'.reached);
        },
      )
]

-- `strcpy` with fuel above the length copies the string and its NUL, and writes nothing behind it.
pub strcpy_lem :
    (fuel : ℕ) (dest src : Mem) (n : ℕ)
    → EndsFrom src 0 n
    → n < fuel
    → (out : Mem) × (strcpy fuel dest src ≡ some out)
      × ((j : ℕ) → j ≤ n → out j ≡ src j)
      × ((j : ℕ) → n < j → out j ≡ dest j)
unfolding strcpy
strcpy_lem fuel dest src n e l =
    let (out, run, c) = strcpy_from-CopiedTo fuel dest src 0 n e (omega arith) in
    (out, run, λ j b. c.copies j (omega arith) b, λ j b. c.outside j (inr b))

strncpy_fill_lem :
    (n : ℕ) (dest : Mem) (i j : ℕ)
    → strncpy_fill n dest i j ≡ (if leb i j && ltb j (i + n) then 0 else dest j)
unfolding strncpy_fill
strncpy_fill_lem zero dest i j = ground arith
strncpy_fill_lem (suc n) dest i j = ground (arith, strncpy_fill_lem n (store dest i 0) (i + 1) j)

-- What the first loop of `strncpy` leaves.
record Cut (dest src : Mem) (i n : ℕ) (out : ℕ × ℕ × Mem) : Type 0 where
  left : out.0 + length (text src i n) ≡ n
  at : out.1 ≡ i + length (text src i n)
  copies : (j : ℕ) → i ≤ j → j < out.1 → out.2 j ≡ src j
  outside : (j : ℕ) → (j < i) ⊎ (out.1 ≤ j) → out.2 j ≡ dest j

Cut-suc :
    (n : ℕ) (dest src : Mem) (i : ℕ) (out : ℕ × ℕ × Mem)
    → src i ≢ 0
    → Cut (store dest i (src i)) src (i + 1) n out
    → Cut dest src i (suc n) out
Cut-suc n dest src i out z c = record {
  left = ground arith;
  at = ground arith;
  copies = λ j a b. elim (eq-or-ne i j) [
    | inl q ↦ rw (← q) (c.outside i (inl (omega arith)) ∙ ground arith)
    | inr q ↦ c.copies j (omega arith) b
  ];
  outside = λ j o. c.outside j (ground arith) ∙ ground (arith, c.at);
}

strncpy_copy-Cut : (n : ℕ) (dest src : Mem) (i : ℕ) → Cut dest src i n (strncpy_copy n dest src i)
unfolding strncpy_copy
strncpy_copy-Cut zero dest src i = record {
  left = refl;
  at = omega arith;
  copies = λ j a b. absurd (omega arith);
  outside = λ j o. refl;
}
strncpy_copy-Cut (suc n) dest src i = elim (eq-or-ne (src i) 0) [
  | inl z ↦ record {
    left = ground arith;
    at = ground arith;
    copies = λ j a b. absurd (ground arith);
    outside = λ j o. ground arith;
  }
  | inr z ↦
      let more : (src i == 0) ≡ false = ground arith in
      rw more (Cut-suc n dest src i _ z (strncpy_copy-Cut n (store dest i (src i)) src (i + 1)))
]

-- A buffer that holds a text and then NULs says that text.
text_of_parts :
    (src out : Mem) (i n : ℕ)
    → ((j : ℕ) → i ≤ j → j < i + length (text src i n) → out j ≡ src j)
    → ((j : ℕ) → i + length (text src i n) ≤ j → j < i + n → out j ≡ 0)
    → text out i n ≡ text src i n
text_of_parts src out i zero h k = refl
text_of_parts src out i (suc n) h k = elim (eq-or-ne (src i) 0) [
  | inl z ↦ let o : out i ≡ 0 = k i (ground arith) (omega arith) in ground arith
  | inr z ↦
      let o : out i ≡ src i = h i (omega arith) (ground arith) in
      ground (
        arith,
        text_of_parts src out (i + 1) n (λ j a b. h j (omega arith) (ground arith))
            (λ j a b. k j (ground arith) (omega arith)),
      )
]

-- `strncpy` writes exactly the offsets below `n`: the text of the source, cut at `n` bytes, and
-- then NULs.
pub strncpy_lem :
    (dest src : Mem) (n : ℕ)
    → (text (strncpy dest src n) 0 n ≡ text src 0 n)
      × ((j : ℕ) → length (text src 0 n) ≤ j → j < n → strncpy dest src n j ≡ 0)
      × ((j : ℕ) → n ≤ j → strncpy dest src n j ≡ dest j)
unfolding strncpy
strncpy_lem dest src n = (
  text_of_parts src out 0 n
      (λ j a b.
        fill j ∙ ground (arith, c.at, c.left, c.copies j (omega arith) (omega (arith, c.at))))
      (λ j a b. padded j (omega arith) (omega arith)),
  padded,
  λ j a. fill j ∙ ground (arith, c.at, c.left, c.outside j (inr (omega (arith, c.at, c.left)))),
)
  where
    c : Cut dest src 0 n (strncpy_copy n dest src 0)
    c = strncpy_copy-Cut n dest src 0

    out : Mem
    out = strncpy dest src n

    fill :
        (j : ℕ)
        → let (left, i, d) = strncpy_copy n dest src 0 in
          out j ≡ (if leb i j && ltb j (i + left) then 0 else d j)
    fill j = let (left, i, d) = strncpy_copy n dest src 0 in strncpy_fill_lem left d i j

    padded : (j : ℕ) → length (text src 0 n) ≤ j → j < n → out j ≡ 0
    padded j a b = fill j ∙ ground (arith, c.at, c.left)
