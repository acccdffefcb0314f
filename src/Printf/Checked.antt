-- ===== src/Printf/Checked.antt =====
-- Calls whose formats are checked by evaluation.
use psych_os.Base.{
  ℕ, ◌^◌, ◌<◌, ◌≡◌, arith, Bool, true, not, ◌&&◌, List, [], ◌∷◌, ◌++◌, ◌==◌, and_parts,
}
use psych_os.Printf.Pieces.{
  Piece, literal, percent, hexadecimal, eight_digits, unsigned, signed, character, string,
  format_of,
}
use psych_os.Printf.Laid.{NoNul}
use psych_os.Printf.Calls.{codes, Arg, num, text, PrintCall}
use psych_os.Printf.Asked.{pieces, Suits}
use psych_os.Printf.Said.{IsCall, AreCalls}

-- No literal is a NUL or `%`.
abbrev clean : List Piece → Bool
clean [] = true
clean (literal c ∷ ps) = not (c == 0) && (not (c == b'%') && clean ps)
clean (_ ∷ ps) = clean ps

abbrev pub no_nul : List ℕ → Bool
no_nul [] = true
no_nul (c ∷ cs) = not (c == 0) && no_nul cs

pub no_nul-NoNul : (cs : List ℕ) → no_nul cs ≡ true → NoNul cs
no_nul-NoNul [] h = tt
no_nul-NoNul (c ∷ cs) h =
    let (head, tail) = and_parts (not (c == 0)) (no_nul cs) h in
    (ground arith, no_nul-NoNul cs tail)

-- The arguments are those that the pieces want.
abbrev FitArgs : List Piece → List Arg → Type 0
FitArgs [] xs = Unit
FitArgs (literal c ∷ ps) xs = FitArgs ps xs
FitArgs (percent ∷ ps) xs = FitArgs ps xs
FitArgs (string ∷ ps) [] = ⊥
FitArgs (string ∷ ps) (num w ∷ xs) = ⊥
FitArgs (string ∷ ps) (text t ∷ xs) = (no_nul t ≡ true) × FitArgs ps xs
FitArgs (p ∷ ps) [] = ⊥
FitArgs (p ∷ ps) (text t ∷ xs) = ⊥
FitArgs (p ∷ ps) (num w ∷ xs) = (w < 2 ^ 32) × FitArgs ps xs

checked-Suits : (ps : List Piece) (xs : List Arg) → clean ps ≡ true → FitArgs ps xs → Suits ps xs
checked-Suits [] xs c f = tt
checked-Suits (literal a ∷ ps) xs c f =
    let (nonzero, rest) = and_parts (not (a == 0)) (not (a == b'%') && clean ps) c in
    let (plain, later) = and_parts (not (a == b'%')) (clean ps) rest in
    ((ground arith, ground arith), checked-Suits ps xs later f)
checked-Suits (percent ∷ ps) xs c f = checked-Suits ps xs c f
checked-Suits (string ∷ ps) (text t ∷ xs) c f = (no_nul-NoNul t f.0, checked-Suits ps xs c f.1)
checked-Suits (hexadecimal ∷ ps) (num w ∷ xs) c f = (f.0, checked-Suits ps xs c f.1)
checked-Suits (eight_digits ∷ ps) (num w ∷ xs) c f = (f.0, checked-Suits ps xs c f.1)
checked-Suits (unsigned ∷ ps) (num w ∷ xs) c f = (f.0, checked-Suits ps xs c f.1)
checked-Suits (signed ∷ ps) (num w ∷ xs) c f = (f.0, checked-Suits ps xs c f.1)
checked-Suits (character ∷ ps) (num w ∷ xs) c f = (f.0, checked-Suits ps xs c f.1)
checked-Suits (_ ∷ ps) _ c f = absurd f

pub checked-IsCall :
    (c : PrintCall)
    → format_of (pieces c.format) ≡ codes c.format
    → clean (pieces c.format) ≡ true
    → FitArgs (pieces c.format) c.args
    → IsCall c
checked-IsCall c e k f = record { spelled = e; suited = checked-Suits (pieces c.format) c.args k f }

pub AreCalls-append :
    (front back : List PrintCall) → AreCalls front → AreCalls back → AreCalls (front ++ back)
AreCalls-append [] back f b = b
AreCalls-append (c ∷ front) back f b = (f.0, AreCalls-append front back f.1 b)
