-- ===== src/Printf/Format.antt =====
-- `printf` prints what its format says.
use psych_os.Base.{
  ℕ, suc, ◌+◌, ◌-◌, ◌%◌, ◌^◌, ◌<◌, ◌≡◌, ◌≢◌, refl, ap, ◌∙◌, arith, false, Option, some, List, [],
  ◌∷◌, ◌++◌, Mem, ◌==◌, bytes, length,
}
use psych_os.Base.Int.{signed32}
use psych_os.Tty.State.{Tty}
use psych_os.Tty.Screen.{putc}
use psych_os.Tty.Calls.{put_all}
use psych_os.Printf.{copying, convert, resume, printf_from, printf, length_from, used}
use psych_os.Printf.Puts.{IsString, put_string_lem, put_all-append}
use psych_os.Printf.Numbers.{
  IsNumeral, IsSigned, IsEight, Writes, print_hex-Writes, print_padded-Writes,
  print_unsigned-Writes, print_signed-Writes,
}
use psych_os.Printf.Pieces.{
  Piece, literal, percent, hexadecimal, eight_digits, unsigned, signed, character, string, spelling,
  format_of, words_of, StandsAt, fuel_for, behind, fuel_for-length, behind-length, fuel_for-append,
  behind-append, StandsAt-behind,
}

module _ (strings : ℕ) (m args : Mem) where
  -- The arguments that the pieces from `esp` on use are of 32 bits, and a string argument is a
  -- string shorter than `strings`; a literal is neither a NUL nor `%`.
  abbrev pub Fits : Piece → ℕ → Type 0
  Fits (literal c) w = (c ≢ 0) × (c ≢ b'%')
  Fits percent w = Unit
  Fits string w = (k : ℕ) × IsString m w k × (k < strings)
  Fits _ w = w < 2 ^ 32

  abbrev pub AllFit : List Piece → ℕ → Type 0
  AllFit [] esp = Unit
  AllFit (p ∷ ps) esp = Fits p (args esp) × AllFit ps (esp + words_of p)

  -- What a piece prints of the word `w`.
  abbrev pub Shows : Piece → ℕ → List ℕ → Type 0
  Shows (literal c) w out = out ≡ c ∷ []
  Shows percent w out = out ≡ b'%' ∷ []
  Shows hexadecimal w out = IsNumeral 16 w out
  Shows eight_digits w out = IsEight w out
  Shows unsigned w out = IsNumeral 10 w out
  Shows signed w out = IsSigned (signed32 w) out
  Shows character w out = out ≡ w % 256 ∷ []
  Shows string w out = (k : ℕ) × IsString m w k × (out ≡ bytes m w k)

  abbrev pub AllShow : List Piece → ℕ → List ℕ → Type 0
  AllShow [] esp out = out ≡ []
  AllShow (p ∷ ps) esp out =
      (front : List ℕ) × (back : List ℕ) × (out ≡ front ++ back)
      × Shows p (args esp) front
      × AllShow ps (esp + words_of p) back

  module _ (conv_buf : Mem) where
    -- A conversion writes what its piece shows, and uses its word.
    converted :
        (result : Option Tty) (P : List ℕ → Type 0) (s : Tty) (esp : ℕ)
        → Writes result s P
        → (out : List ℕ) × P out × (used esp result ≡ some (put_all out s 0, esp + 1))
    unfolding used
    converted result P s esp (out, p, e) = (out, p, rw e)

    abbrev Step : Piece → ℕ → ℕ → Tty → ℕ → Type 0
    Step p fuel buf s esp =
        (out : List ℕ) × Shows p (args esp) out
        × (printf_from strings m args conv_buf (fuel_for (spelling p) fuel) copying buf s esp
            ≡ printf_from strings m args conv_buf fuel copying (behind (spelling p) buf)
                (put_all out s 0) (esp + words_of p))

    literal-Step :
        (c fuel buf : ℕ) (s : Tty) (esp : ℕ)
        → c ≢ 0
        → c ≢ b'%'
        → m buf ≡ c
        → Step (literal c) fuel buf s esp
    unfolding printf_from putc put_all
    literal-Step c fuel buf s esp z n h =
        let t : (c == 0) ≡ false = ground arith in
        let u : (c == b'%') ≡ false = ground arith in
        let e : esp + 0 ≡ esp = omega arith in (c ∷ [], refl, rw (e, h, t, u))

    percent-Step :
        (fuel buf : ℕ) (s : Tty) (esp : ℕ)
        → m buf ≡ b'%'
        → m (buf + 1) ≡ b'%'
        → Step percent fuel buf s esp
    unfolding printf_from convert resume putc put_all
    percent-Step fuel buf s esp h k =
        let e : esp + 0 ≡ esp = omega arith in (b'%' ∷ [], refl, rw (e, h, k))

    character-Step :
        (fuel buf : ℕ) (s : Tty) (esp : ℕ)
        → m buf ≡ b'%'
        → m (buf + 1) ≡ b'c'
        → Step character fuel buf s esp
    unfolding printf_from convert resume putc put_all
    character-Step fuel buf s esp h k = (args esp % 256 ∷ [], refl, rw (h, k))

    hexadecimal-Step :
        (fuel buf : ℕ) (s : Tty) (esp : ℕ)
        → args esp < 2 ^ 32
        → m buf ≡ b'%'
        → m (buf + 1) ≡ b'x'
        → Step hexadecimal fuel buf s esp
    unfolding printf_from convert resume
    hexadecimal-Step fuel buf s esp l h k =
        let (out, p, e) = converted _ _ s esp (print_hex-Writes (args esp) s conv_buf l) in
        (out, p, rw (h, k, e))

    unsigned-Step :
        (fuel buf : ℕ) (s : Tty) (esp : ℕ)
        → args esp < 2 ^ 32
        → m buf ≡ b'%'
        → m (buf + 1) ≡ b'u'
        → Step unsigned fuel buf s esp
    unfolding printf_from convert resume
    unsigned-Step fuel buf s esp l h k =
        let (out, p, e) = converted _ _ s esp (print_unsigned-Writes (args esp) s conv_buf l) in
        (out, p, rw (h, k, e))

    signed-Step :
        (fuel buf : ℕ) (s : Tty) (esp : ℕ)
        → args esp < 2 ^ 32
        → m buf ≡ b'%'
        → m (buf + 1) ≡ b'd'
        → Step signed fuel buf s esp
    unfolding printf_from convert resume
    signed-Step fuel buf s esp l h k =
        let (out, p, e) = converted _ _ s esp (print_signed-Writes (args esp) s conv_buf l) in
        (out, p, rw (h, k, e))

    eight_digits-Step :
        (fuel buf : ℕ) (s : Tty) (esp : ℕ)
        → args esp < 2 ^ 32
        → m buf ≡ b'%'
        → m (buf + 1) ≡ b'#'
        → m (buf + 1 + 1) ≡ b'x'
        → Step eight_digits fuel buf s esp
    unfolding printf_from convert resume
    eight_digits-Step fuel buf s esp l h i k =
        let (out, p, e) = converted _ _ s esp (print_padded-Writes (args esp) s conv_buf l) in
        (out, p, rw (h, i, k, e))

    string-Step :
        (fuel buf : ℕ) (s : Tty) (esp : ℕ)
        → Fits string (args esp)
        → m buf ≡ b'%'
        → m (buf + 1) ≡ b's'
        → Step string fuel buf s esp
    unfolding printf_from convert resume used
    string-Step fuel buf s esp (k, i, l) h c =
        (bytes m (args esp) k, (k, i, refl), rw (h, c, put_string_lem strings s m (args esp) k i l))

    step :
        (p : Piece) (rest : List ℕ) (fuel buf : ℕ) (s : Tty) (esp : ℕ)
        → Fits p (args esp)
        → StandsAt m buf (spelling p ++ rest)
        → Step p fuel buf s esp
    step (literal c) rest fuel buf s esp f h = literal-Step c fuel buf s esp f.0 f.1 h.0
    step percent rest fuel buf s esp f h = percent-Step fuel buf s esp h.0 h.1.0
    step hexadecimal rest fuel buf s esp f h = hexadecimal-Step fuel buf s esp f h.0 h.1.0
    step eight_digits rest fuel buf s esp f h = eight_digits-Step fuel buf s esp f h.0 h.1.0 h.1.1.0
    step unsigned rest fuel buf s esp f h = unsigned-Step fuel buf s esp f h.0 h.1.0
    step signed rest fuel buf s esp f h = signed-Step fuel buf s esp f h.0 h.1.0
    step character rest fuel buf s esp f h = character-Step fuel buf s esp h.0 h.1.0
    step string rest fuel buf s esp f h = string-Step fuel buf s esp f h.0 h.1.0

    printf_from_lem :
        (ps : List Piece) (fuel buf : ℕ) (s : Tty) (esp : ℕ)
        → AllFit ps esp
        → StandsAt m buf (format_of ps)
        → (out : List ℕ) × AllShow ps esp out
          × (printf_from strings m args conv_buf
                (fuel_for (format_of ps) (suc fuel))
                copying
                buf
                s
                esp
              ≡ some (behind (format_of ps) buf, put_all out s 0))
    unfolding printf_from put_all
    printf_from_lem [] fuel buf s esp f h = ([], refl, rw h)
    printf_from_lem (p ∷ ps) fuel buf s esp f h =
        let rest = format_of ps in
        let (front, shown, e) = step p rest (fuel_for rest (suc fuel)) buf s esp f.0 h in
        let (back, later, e') =
          printf_from_lem ps fuel (behind (spelling p) buf) (put_all front s 0) (esp + words_of p)
            f.1 (StandsAt-behind m (spelling p) rest buf h) in
        (
          front ++ back,
          (front, back, refl, shown, later),
          rw
              (
                fuel_for-append (spelling p) rest (suc fuel),
                behind-append (spelling p) rest buf,
                put_all-append front back s,
              )
              (e ∙ e'),
        )

    -- `printf` of a format that consists of literals and of the conversions that it supports, each
    -- with an argument of 32 bits, or a string shorter than the fuel for strings, and with more
    -- fuel than the format has characters: it ends and returns the length of the format, and what
    -- it puts on the terminal is, piece by piece, the literal, `%`, the digits of the number in
    -- base 16 or 10 with no leading zero (for `%d` those of the signed integer, a minus sign in
    -- front), exactly eight hexadecimal digits for `%#x`, the character, or the string.
    pub printf_lem :
        (ps : List Piece) (fuel : ℕ) (s : Tty) (format : ℕ)
        → AllFit ps 0
        → StandsAt m format (format_of ps)
        → length (format_of ps) < fuel
        → (out : List ℕ) × AllShow ps 0 out
          × (printf strings m args conv_buf fuel s format
              ≡ some (length (format_of ps), put_all out s 0))
    unfolding printf length_from
    printf_lem ps fuel s format f h l =
        let cs = format_of ps in
        let spare = fuel - length cs - 1 in
        let enough : fuel ≡ fuel_for cs (suc spare) =
          omega (arith, fuel_for-length cs (suc spare)) in
        let (out, shown, e) = printf_from_lem ps spare format s 0 f h in
        let returned : behind cs format - format ≡ length cs =
          omega (arith, behind-length cs format) in
        (out, shown, ap (λ t. printf strings m args conv_buf t s format) enough ∙ rw (e, returned))
