-- ===== src/Printf/Pieces.antt =====
-- The pieces of a format, and how they are spelled in memory.
use psych_os.Base.{ℕ, suc, ◌+◌, ◌≡◌, refl, ap, arith, List, [], ◌∷◌, ◌++◌, Mem, length}

-- What a format consists of.
pub data Piece : Type 0 where
  literal : ℕ → Piece
  percent hexadecimal eight_digits unsigned signed character string : Piece

abbrev pub spelling : Piece → List ℕ
spelling (literal c) = c ∷ []
spelling percent = b'%' ∷ b'%' ∷ []
spelling hexadecimal = b'%' ∷ b'x' ∷ []
spelling eight_digits = b'%' ∷ b'#' ∷ b'x' ∷ []
spelling unsigned = b'%' ∷ b'u' ∷ []
spelling signed = b'%' ∷ b'd' ∷ []
spelling character = b'%' ∷ b'c' ∷ []
spelling string = b'%' ∷ b's' ∷ []

abbrev pub format_of : List Piece → List ℕ
format_of [] = []
format_of (p ∷ ps) = spelling p ++ format_of ps

-- How many words of the stack a piece uses.
abbrev pub words_of : Piece → ℕ
words_of (literal c) = 0
words_of percent = 0
words_of _ = 1

-- The characters stand in memory from `a` on, and a NUL behind them.
abbrev pub StandsAt : Mem → ℕ → List ℕ → Type 0
StandsAt m a [] = m a ≡ 0
StandsAt m a (c ∷ cs) = (m a ≡ c) × StandsAt m (a + 1) cs

-- One unit of fuel for each character, and the address behind them.
abbrev pub fuel_for : List ℕ → ℕ → ℕ
fuel_for [] fuel = fuel
fuel_for (c ∷ cs) fuel = suc (fuel_for cs fuel)

abbrev pub behind : List ℕ → ℕ → ℕ
behind [] a = a
behind (c ∷ cs) a = behind cs (a + 1)

pub fuel_for-length : (cs : List ℕ) (fuel : ℕ) → fuel_for cs fuel ≡ length cs + fuel
fuel_for-length [] fuel = omega arith
fuel_for-length (c ∷ cs) fuel = omega (arith, fuel_for-length cs fuel)

pub behind-length : (cs : List ℕ) (a : ℕ) → behind cs a ≡ a + length cs
behind-length [] a = omega arith
behind-length (c ∷ cs) a = omega (arith, behind-length cs (a + 1))

pub fuel_for-append :
    (front back : List ℕ) (fuel : ℕ)
    → fuel_for (front ++ back) fuel ≡ fuel_for front (fuel_for back fuel)
fuel_for-append [] back fuel = refl
fuel_for-append (c ∷ front) back fuel = ap suc (fuel_for-append front back fuel)

pub behind-append :
    (front back : List ℕ) (a : ℕ) → behind (front ++ back) a ≡ behind back (behind front a)
behind-append [] back a = refl
behind-append (c ∷ front) back a = behind-append front back (a + 1)

pub StandsAt-behind :
    (m : Mem) (front back : List ℕ) (a : ℕ)
    → StandsAt m a (front ++ back)
    → StandsAt m (behind front a) back
StandsAt-behind m [] back a h = h
StandsAt-behind m (c ∷ front) back a h = StandsAt-behind m front back (a + 1) h.1
