-- ===== src/Printf/Calls.antt =====
-- Calls of printf as the kernel writes them: a literal format and its arguments. Each call finds its
-- format at address 0 of a memory, and the texts of its arguments behind it.
use Prim.Native.Char.{code}
use Prim.Native.String.{String}
use psych_os.Base.{ℕ, ◌+◌, Option, none, some, List, [], ◌∷◌, ◌++◌, Mem, length, get_or}
use psych_os.Tty.State.{Tty}
use psych_os.Printf.{printf, effect}

-- The characters of an ASCII text.
abbrev pub codes : String → List ℕ
codes String.[] = []
codes (String.◌∷◌ c s) = code c ∷ codes s

pub data Arg : Type 0 where
  num : ℕ → Arg
  text : List ℕ → Arg

pub record PrintCall : Type 0 where
  pub format : String
  pub args : List Arg

-- The bytes of the texts, each with its NUL.
abbrev pub texts : List Arg → List ℕ
texts [] = []
texts (num w ∷ xs) = texts xs
texts (text t ∷ xs) = t ++ 0 ∷ texts xs

-- The words on the stack, where the texts stand from address `p` on.
abbrev pub words_from : List Arg → ℕ → List ℕ
words_from [] p = []
words_from (num w ∷ xs) p = w ∷ words_from xs p
words_from (text t ∷ xs) p = p ∷ words_from xs (p + length t + 1)

abbrev pub memory_of : PrintCall → Mem
memory_of c i = get_or (codes c.format ++ 0 ∷ texts c.args) i 0

abbrev pub stack_of : PrintCall → Mem
stack_of c i = get_or (words_from c.args (length (codes c.format) + 1)) i 0

unfoldable pub print_call : Mem → Tty → PrintCall → Option Tty
unfolding effect
print_call conv_buf s c = effect (
    printf (length (texts c.args) + 1) (memory_of c) (stack_of c) conv_buf
      (length (codes c.format) + 1) s 0)

-- One call after the other.
unfoldable pub print_calls : Mem → Option Tty → List PrintCall → Option Tty
print_calls conv_buf none cs = none
print_calls conv_buf (some s) [] = some s
print_calls conv_buf (some s) (c ∷ cs) = print_calls conv_buf (print_call conv_buf s c) cs
