-- ===== src/User/Programs/Runs.antt =====
-- The shell runs what is typed, over any system with a console.
use psych_os.Base.{ℕ, ◌≤◌, ◌≡◌, ◌≢◌, Bool, false, Option, none, some, List, [], ◌∷◌, ◌++◌, ◌==◌}
use psych_os.Base.Int.{ℤ, pos, negsuc}
use psych_os.Printf.Calls.{codes}
use psych_os.User.Calls.{SystemCalls}
use psych_os.User.Programs.{line_of}

-- A string without a NUL.
abbrev pub Unbroken : List ℕ → Type 0
Unbroken [] = 1 ≤ 1
Unbroken (b ∷ bs) = (1 ≤ b) × Unbroken bs

exit_by : Option ℤ → Bool
exit_by none = false
exit_by (some (pos n)) = n == 0
exit_by (some (negsuc n)) = false

-- A system with a console: `typed` are the lines that the reads of the input are still to return,
-- `ran` the commands that were executed, and any value may come back from a command or a write.
pub record Console {S : Type 0} (c : SystemCalls S) : Type 0 where
  pub typed : S → List (List ℕ)
  pub ran : S → List (List ℕ)
  pub read_line :
      (s : S) (l : List ℕ) (ls : List (List ℕ))
      → typed s ≡ l ∷ ls
      → (s' : S) × (c.read 0 1023 s ≡ some (some l, s')) × (typed s' ≡ ls) × (ran s' ≡ ran s)
  pub write :
      (s : S) (bs : List ℕ)
      → (x : Option ℕ) × (s' : S) × (c.write 1 bs s ≡ some (x, s'))
        × (typed s' ≡ typed s)
        × (ran s' ≡ ran s)
  pub execute :
      (s : S) (command : List ℕ)
      → (x : Option ℕ) × (s' : S) × (c.execute command s ≡ some (x, s'))
        × (typed s' ≡ typed s)
        × (ran s' ≡ ran s ++ command ∷ [])

abbrev command_of : List ℕ → List (List ℕ)
command_of [] = []
command_of (b ∷ bs) = (b ∷ bs) ∷ []

-- The lines that are not empty, in order.
abbrev pub commands_of : List (List ℕ) → List (List ℕ)
commands_of [] = []
commands_of (l ∷ ls) = command_of (line_of l) ++ commands_of ls

abbrev pub NoneExits : List (List ℕ) → Type 0
NoneExits [] = 1 ≤ 1
NoneExits (l ∷ ls) = (line_of l ≢ codes "exit") × NoneExits ls
