-- ===== src/User/Programs/Tests.antt =====
-- A small system: lines that are typed, a file in pieces, what was run and what was printed.
use psych_os.Base.{
  ℕ, zero, suc, ◌≡◌, ◌≢◌, refl, ap, arith, Option, none, some, List, [], ◌∷◌, ◌++◌, length, get_or,
  drop,
}
use psych_os.Printf.Calls.{codes}
use psych_os.User.Calls.{Act, SystemCalls}
use psych_os.User.Programs.{ls}
use psych_os.User.Programs.Prints.{Delivers}
use psych_os.User.Programs.Runs.{Console}

-- The lines that are typed, the pieces of the file, the commands that ran, and the output.
abbrev World : Type 0
World = List (List ℕ) × List (ℕ × List ℕ) × List (List ℕ) × List ℕ

abbrev read_world : ℕ → Act World (Option (List ℕ))
read_world zero ([], file, cs, out) = some (none, ([], file, cs, out))
read_world zero (l ∷ ls, file, cs, out) = some (some l, (ls, file, cs, out))
read_world (suc fd) (ls, [], cs, out) = some (some [], (ls, [], cs, out))
read_world (suc fd) (ls, (b, bs) ∷ ps, cs, out) = some (some (b ∷ bs), (ls, ps, cs, out))

abbrev world_calls : SystemCalls World
world_calls = record {
  execute = λ command w. some (some 256, (w.0, w.1, w.2 ++ command ∷ [], w.3));
  read = λ fd n w. read_world fd w;
  write = λ fd bs w. some (some (length bs), (w.0, w.1, w.2, w.3 ++ bs));
  open_file = λ name w. some (some 2, w);
  close = λ fd w. some (some 0, w);
  getargs = λ n w. some (some (codes "f"), w);
  vidmap = λ a w. some (none, w);
  call_sys = λ number w. some (none, w);
}

abbrev pieces_of : List (ℕ × List ℕ) → List (List ℕ)
pieces_of [] = []
pieces_of ((b, bs) ∷ ps) = (b ∷ bs) ∷ pieces_of ps

read_piece :
    (s : World) (b : ℕ) (bs : List ℕ) (ps : List (List ℕ))
    → pieces_of s.1 ≡ (b ∷ bs) ∷ ps
    → (s' : World) × (read_world 2 s ≡ some (some (b ∷ bs), s'))
      × (pieces_of s'.1 ≡ ps)
      × (s'.3 ≡ s.3)
read_piece (ls, [], cs, out) b bs ps e = let z = ap length e in ground (arith, z)
read_piece (ls, (x, xs) ∷ rest, cs, out) b bs ps e =
    let s : World = (ls, rest, cs, out) in
    (s, ap (λ l. some (some (get_or l 0 []), s)) e, ap (drop 1) e, refl)

read_end : (s : World) → pieces_of s.1 ≡ [] → read_world 2 s ≡ some (some [], s)
read_end (ls, [], cs, out) e = refl
read_end (ls, (x, xs) ∷ rest, cs, out) e = let z = ap length e in ground (arith, z)

nonempty : (ps : List (ℕ × List ℕ)) (qs : List (List ℕ)) → pieces_of ps ≢ [] ∷ qs
nonempty [] qs e = let z = ap length e in ground (arith, z)
nonempty ((x, xs) ∷ ps) qs e = let z = ap (λ l. length (get_or l 0 [])) e in ground (arith, z)

abbrev delivers : (n : ℕ) → Delivers world_calls 2 n
delivers n = record {
  pieces = λ s. pieces_of s.1;
  printed = λ s. s.3;
  read_end = read_end;
  nonempty = λ s. nonempty s.1;
  read_piece = read_piece;
  write = λ s bs. (length bs, (s.0, s.1, s.2, s.3 ++ bs), refl, refl, refl);
}

read_line :
    (s : World) (l : List ℕ) (ls : List (List ℕ))
    → s.0 ≡ l ∷ ls
    → (s' : World) × (read_world 0 s ≡ some (some l, s')) × (s'.0 ≡ ls) × (s'.2 ≡ s.2)
read_line ([], file, cs, out) l ls e = let z = ap length e in ground (arith, z)
read_line (x ∷ xs, file, cs, out) l ls e =
    let s : World = (xs, file, cs, out) in
    (s, ap (λ t. some (some (get_or t 0 []), s)) e, ap (drop 1) e, refl)

abbrev console : Console world_calls
console = record {
  typed = λ s. s.0;
  ran = λ s. s.2;
  read_line = read_line;
  write = λ s bs. (some (length bs), (s.0, s.1, s.2, s.3 ++ bs), refl, refl, refl);
  execute = λ s command. (some 256, (s.0, s.1, s.2 ++ command ∷ [], s.3), refl, refl, refl);
}

-- "ls\n", an empty line, "exit\n", and "cat\n" behind it.
abbrev before : List (List ℕ)
before = codes "ls\n" ∷ codes "\n" ∷ []

abbrev start : World
start = (before ++ codes "exit\n" ∷ codes "cat\n" ∷ [], (97, 98 ∷ []) ∷ (99, []) ∷ [], [], [])
