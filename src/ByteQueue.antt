-- ===== src/ByteQueue.antt =====
-- The abstract view of a circular buffer: a queue of bytes, oldest first.
use psych_os.Base.{
  ℕ, ◌+◌, List, [], ◌∷◌, ◌++◌, Option, none, some, length, ltb, ◌==◌, if◌then◌else◌,
}
use psych_os.Base.Int.{ℤ, pos, negsuc}

-- At most `cap` bytes are held; the number tells how many went in.
abbrev pub push : ℕ → List ℕ → ℕ → ℕ × List ℕ
push cap q x = if ltb (length q) cap then (1, q ++ (x ∷ [])) else (0, q)

abbrev pub pop : List ℕ → ℕ × Option ℕ × List ℕ
pop [] = (0, none, [])
pop (x ∷ q) = (1, some x, q)

abbrev pub last : List ℕ → Option ℕ
last [] = none
last (x ∷ []) = some x
last (x ∷ y ∷ q) = last (y ∷ q)

abbrev pub drop_last : List ℕ → List ℕ
drop_last [] = []
drop_last (x ∷ []) = []
drop_last (x ∷ y ∷ q) = x ∷ drop_last (y ∷ q)

-- The first position of a byte, counted from `i`.
abbrev pub find_from : ℕ → List ℕ → ℕ → ℤ
find_from i [] val = negsuc 0
find_from i (x ∷ q) val = if x == val then pos i else find_from (i + 1) q val
