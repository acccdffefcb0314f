-- ===== src/User/Programs/Prints.antt =====
-- cat and ls print all that their file has, over any system whose reads deliver it in pieces.
use Prim.Native.String.{String}
use psych_os.Base.{
  ℕ, zero, suc, ◌<◌, ◌≡◌, ◌≢◌, refl, ap, sym, ◌∙◌, arith, Option, some, List, [], ◌∷◌, ◌++◌,
  append-nil, append_assoc, length,
}
use psych_os.Printf.Calls.{codes}
use psych_os.User.Calls.{◌>>=◌, SystemCalls}
use psych_os.User.Programs.{copy_loop, ls}

-- What a system does that delivers a file in pieces, and prints: `pieces` are what the reads of `n`
-- bytes from `fd` are still to return, none of them empty, and `printed` is what was written.
pub record Delivers {S : Type 0} (c : SystemCalls S) (fd n : ℕ) : Type 0 where
  pub pieces : S → List (List ℕ)
  pub printed : S → List ℕ
  pub read_end : (s : S) → pieces s ≡ [] → c.read fd n s ≡ some (some [], s)
  pub nonempty : (s : S) (ps : List (List ℕ)) → pieces s ≢ [] ∷ ps
  pub read_piece :
      (s : S) (b : ℕ) (bs : List ℕ) (ps : List (List ℕ))
      → pieces s ≡ (b ∷ bs) ∷ ps
      → (s' : S) × (c.read fd n s ≡ some (some (b ∷ bs), s'))
        × (pieces s' ≡ ps)
        × (printed s' ≡ printed s)
  pub write :
      (s : S) (bs : List ℕ)
      → (x : ℕ) × (s' : S) × (c.write 1 bs s ≡ some (some x, s'))
        × (pieces s' ≡ pieces s)
        × (printed s' ≡ printed s ++ bs)

-- The pieces one behind the other, as they are shown.
abbrev pub all_shown : (List ℕ → List ℕ) → List (List ℕ) → List ℕ
all_shown shown [] = []
all_shown shown (p ∷ ps) = shown p ++ all_shown shown ps

-- The system returns 0, with everything printed behind what was there.
abbrev pub PrintsAll :
    {S : Type 0} (c : SystemCalls S) (fd n : ℕ) (d : Delivers c fd n)
    → (List ℕ → List ℕ)
    → S
    → Option (ℕ × S)
    → Type 0
PrintsAll {S} c fd n d shown s r =
    (s' : S) × (r ≡ some (0, s'))
    × (d.printed s' ≡ d.printed s ++ all_shown shown (d.pieces s))
    × (d.pieces s' ≡ [])

module _ {S : Type 0} (c : SystemCalls S) (fd n : ℕ) (d : Delivers c fd n) where
  copy_loop_from :
      (fuel : ℕ) (complaint : String) (shown : List ℕ → List ℕ) (ps : List (List ℕ)) (s : S)
      → d.pieces s ≡ ps
      → length ps < fuel
      → (s' : S) × (copy_loop c fuel complaint n shown fd s ≡ some (0, s'))
        × (d.printed s' ≡ d.printed s ++ all_shown shown ps)
        × (d.pieces s' ≡ [])
  unfolding copy_loop
  copy_loop_from zero complaint shown ps s e l = ground arith
  copy_loop_from (suc fuel) complaint shown [] s e l =
      (s, rw (d.read_end s e, ◌>>=◌) refl, sym (append-nil (d.printed s)), e)
  copy_loop_from (suc fuel) complaint shown ([] ∷ ps) s e l = elim (d.nonempty s ps e) [ ]
  copy_loop_from (suc fuel) complaint shown ((b ∷ bs) ∷ ps) s e l =
      let (s1, read, left, same) = d.read_piece s b bs ps e in
      let (x, s2, wrote, left2, more) = d.write s1 (shown (b ∷ bs)) in
      let (s3, loops, all, done) =
        copy_loop_from fuel complaint shown ps s2 (left2 ∙ left) (omega (arith, l)) in
      let rest = all_shown shown ps in
      let before = ap (λ t. t ++ shown (b ∷ bs)) same in
      let through = ap (λ t. t ++ rest) (more ∙ before) in
      (
        s3,
        rw (read, ◌>>=◌, wrote, ◌>>=◌) loops,
        all ∙ through ∙ append_assoc (d.printed s) (shown (b ∷ bs)) rest,
        done,
      )

  -- The loop of cat and of ls, run over a system that delivers what its descriptor has in pieces:
  -- with more fuel than there are pieces it returns 0, everything is read, and what is printed is
  -- the pieces one behind the other, each as the program shows it.
  pub copy_loop_lem :
      (fuel : ℕ) (complaint : String) (shown : List ℕ → List ℕ) (s : S)
      → length (d.pieces s) < fuel
      → PrintsAll c fd n d shown s (copy_loop c fuel complaint n shown fd s)
  copy_loop_lem fuel complaint shown s l = copy_loop_from fuel complaint shown (d.pieces s) s refl l

module _ {S : Type 0} (c : SystemCalls S) (fd : ℕ) where
  -- ls, over a system that opens its directory and delivers the names of the files, each by one
  -- read of at most 32 bytes: with more fuel than there are names it returns 0, and prints each of
  -- them on a line of its own.
  pub ls_lem :
      (d : Delivers c fd 32) (fuel : ℕ) (s s1 : S)
      → c.open_file (codes ".") s ≡ some (some fd, s1)
      → length (d.pieces s1) < fuel
      → PrintsAll c fd 32 d (λ bs. bs ++ 10 ∷ []) s1 (ls c fuel s)
  unfolding ls
  ls_lem d fuel s s1 opened l =
      let loops =
        copy_loop_lem c fd 32 d fuel "directory entry read failed\n" (λ bs. bs ++ 10 ∷ []) s1 l in
      rw (opened, ◌>>=◌) loops
