-- ===== src/User/Calls.antt =====
-- The system calls as a program sees them (syscalls/ece391syscall.h), and `ece391_fdputs` of
-- syscalls/ece391support.c. A buffer is passed as its bytes and returned as the bytes that were
-- read; -1 is `none`. A call that blocks for ever, or a loop that runs out of fuel, has no outcome.
use psych_os.Base.{ℕ, Option, none, some, List}
use psych_os.Printf.Calls.{codes}
use Prim.Native.String.{String}

-- What a program does to a system: a value and the system that is left.
abbrev pub Act : Type 0 → Type 0 → Type 0
Act S A = S → Option (A × S)

infixl 5 ◌>>=◌ ◌>>◌
abbrev pub ◌>>=◌ : {S A B : Type 0} → Act S A → (A → Act S B) → Act S B
◌>>=◌ m f s = elim (m s) [ none ↦ none | some (a, s') ↦ f a s' ]

abbrev pub ◌>>◌ : {S A B : Type 0} → Act S A → Act S B → Act S B
m >> k = m >>= λ _. k

abbrev pub pure : {S A : Type 0} → A → Act S A
pure a s = some (a, s)

abbrev pub never : {S A : Type 0} → Act S A
never s = none

pub record SystemCalls (S : Type 0) : Type 0 where
  pub execute : List ℕ → Act S (Option ℕ)
  pub read : ℕ → ℕ → Act S (Option (List ℕ))
  pub write : ℕ → List ℕ → Act S (Option ℕ)
  pub open_file : List ℕ → Act S (Option ℕ)
  pub close : ℕ → Act S (Option ℕ)
  pub getargs : ℕ → Act S (Option (List ℕ))
  pub vidmap : ℕ → Act S (Option ℕ)
  pub call_sys : ℕ → Act S (Option ℕ)

-- The result of the write is dropped.
abbrev pub fdputs : {S : Type 0} → SystemCalls S → ℕ → String → Act S (Option ℕ)
fdputs c fd s = c.write fd (codes s)
