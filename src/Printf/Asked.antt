-- ===== src/Printf/Asked.antt =====
-- What the pieces of a format say of the arguments that are given for it.
use Prim.Native.String.{String}
use psych_os.Base.{
  ℕ, ◌%◌, ◌^◌, ◌<◌, ◌≡◌, ◌≢◌, Bool, true, false, List, [], ◌∷◌, ◌++◌, ◌==◌, if◌then◌else◌,
}
use psych_os.Base.Int.{signed32}
use psych_os.Printf.{Mode, copying, specifier}
use psych_os.Printf.Numbers.{IsNumeral, IsSigned, IsEight}
use psych_os.Printf.Pieces.{
  Piece, literal, percent, hexadecimal, eight_digits, unsigned, signed, character, string,
}
use psych_os.Printf.Laid.{NoNul}
use psych_os.Printf.Calls.{codes, Arg, num, text}

-- The piece that a specifier names; a specifier that is not supported is no piece, and a NUL here.
abbrev pub piece_of : Bool → ℕ → Piece
piece_of alternate c =
    if c == b'%'
    then percent
    else if c == b'x'
    then if alternate then eight_digits else hexadecimal
    else if c == b'u'
    then unsigned
    else if c == b'd'
    then signed
    else if c == b'c'
    then character
    else if c == b's'
    then string
    else literal 0

-- A format taken apart.
abbrev pub pieces_from : Mode → List ℕ → List Piece
pieces_from copying [] = []
pieces_from (specifier alternate) [] = literal 0 ∷ []
pieces_from copying (c ∷ cs) =
    let conversion = pieces_from (specifier false) cs in
    let copied = literal c ∷ pieces_from copying cs in if c == b'%' then conversion else copied
pieces_from (specifier alternate) (c ∷ cs) =
    let again = pieces_from (specifier true) cs in
    let done = piece_of alternate c ∷ pieces_from copying cs in if c == b'#' then again else done

abbrev pub pieces : String → List Piece
pieces f = pieces_from copying (codes f)

-- The arguments suit the pieces: a number of 32 bits for a number or a character, a text without a
-- NUL for a string.
abbrev pub Suits : List Piece → List Arg → Type 0
Suits [] xs = Unit
Suits (literal c ∷ ps) xs = ((c ≢ 0) × (c ≢ b'%')) × Suits ps xs
Suits (percent ∷ ps) xs = Suits ps xs
Suits (string ∷ ps) [] = ⊥
Suits (string ∷ ps) (num w ∷ xs) = ⊥
Suits (string ∷ ps) (text t ∷ xs) = NoNul t × Suits ps xs
Suits (p ∷ ps) [] = ⊥
Suits (p ∷ ps) (text t ∷ xs) = ⊥
Suits (p ∷ ps) (num w ∷ xs) = (w < 2 ^ 32) × Suits ps xs

-- What a piece shows of a number.
abbrev pub ShowsNumber : Piece → ℕ → List ℕ → Type 0
ShowsNumber hexadecimal w out = IsNumeral 16 w out
ShowsNumber eight_digits w out = IsEight w out
ShowsNumber unsigned w out = IsNumeral 10 w out
ShowsNumber signed w out = IsSigned (signed32 w) out
ShowsNumber _ w out = out ≡ w % 256 ∷ []

-- What is printed for pieces and arguments.
abbrev pub Says : List Piece → List Arg → List ℕ → Type 0
Says [] xs out = out ≡ []
Says (literal c ∷ ps) xs out = (back : List ℕ) × (out ≡ c ∷ back) × Says ps xs back
Says (percent ∷ ps) xs out = (back : List ℕ) × (out ≡ b'%' ∷ back) × Says ps xs back
Says (string ∷ ps) [] out = ⊥
Says (string ∷ ps) (num w ∷ xs) out = ⊥
Says (string ∷ ps) (text t ∷ xs) out = (back : List ℕ) × (out ≡ t ++ back) × Says ps xs back
Says (p ∷ ps) [] out = ⊥
Says (p ∷ ps) (text t ∷ xs) out = ⊥
Says (p ∷ ps) (num w ∷ xs) out =
    (front : List ℕ) × (back : List ℕ) × (out ≡ front ++ back)
    × ShowsNumber p w front
    × Says ps xs back
