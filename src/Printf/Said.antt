-- ===== src/Printf/Said.antt =====
-- What a sequence of calls prints.
use psych_os.Base.{
  ℕ, ◌+◌, ◌^◌, ◌<◌, ◌≡◌, refl, ap, ap₂, sym, subst, ◌∙◌, arith, some, List, [], ◌∷◌, ◌++◌, Mem,
  bytes, length, length-append,
}
use psych_os.Tty.State.{Tty}
use psych_os.Tty.Calls.{put_all}
use psych_os.Printf.Puts.{IsString, put_all-append}
use psych_os.Printf.Pieces.{
  Piece, literal, percent, hexadecimal, eight_digits, unsigned, signed, character, string,
  format_of, StandsAt,
}
use psych_os.Printf.Format.{AllFit, AllShow, printf_lem}
use psych_os.Printf.Laid.{
  StandsIn, append-StandsIn, front-StandsIn, StandsAt-of_StandsIn, StandsAt-IsString,
  StandsAt-bytes, IsString-unique, StandsIn-behind,
}
use psych_os.Printf.Calls.{
  codes, Arg, num, text, PrintCall, texts, words_from, memory_of, stack_of, print_call, print_calls,
}
use psych_os.Printf.Asked.{pieces, Suits, ShowsNumber, Says}

module _ (strings : ℕ) (m args : Mem) where
  -- Where the texts stand at `p`, and the words at `esp`.
  abbrev Laid : List Arg → ℕ → ℕ → Type 0
  Laid xs p esp = StandsIn m p (texts xs) × StandsIn args esp (words_from xs p)

  Suits-AllFit :
      (ps : List Piece) (xs : List Arg) (p esp : ℕ)
      → Suits ps xs
      → Laid xs p esp
      → length (texts xs) < strings
      → AllFit strings m args ps esp
  Suits-AllFit [] xs p esp s l f = tt
  Suits-AllFit (literal c ∷ ps) xs p esp s l f =
      let e : esp ≡ esp + 0 = omega arith in
      (s.0, subst (AllFit strings m args ps) e (Suits-AllFit ps xs p esp s.1 l f))
  Suits-AllFit (percent ∷ ps) xs p esp s l f =
      let e : esp ≡ esp + 0 = omega arith in
      (tt, subst (AllFit strings m args ps) e (Suits-AllFit ps xs p esp s l f))
  Suits-AllFit (string ∷ ps) (text t ∷ xs) p esp s l f =
      let whole : length (t ++ 0 ∷ texts xs) ≡ length t + length (0 ∷ texts xs) =
        length-append t (0 ∷ texts xs) in
      let here : IsString m p (length t) =
        StandsAt-IsString m p t s.0 (StandsAt-of_StandsIn m p t (texts xs) l.0) in
      (
        (length t, subst (λ a. IsString m a (length t)) (sym (l.1.0)) here, omega (arith, whole)),
        Suits-AllFit ps xs (p + length t + 1) (esp + 1) s.1
            (StandsIn-behind m p t (texts xs) l.0, l.1.1) (omega (arith, whole)),
      )
  Suits-AllFit (hexadecimal ∷ ps) (num w ∷ xs) p esp s l f =
      (subst (λ t. t < 2 ^ 32) (sym (l.1.0)) s.0, Suits-AllFit ps xs p (esp + 1) s.1 (l.0, l.1.1) f)
  Suits-AllFit (eight_digits ∷ ps) (num w ∷ xs) p esp s l f =
      (subst (λ t. t < 2 ^ 32) (sym (l.1.0)) s.0, Suits-AllFit ps xs p (esp + 1) s.1 (l.0, l.1.1) f)
  Suits-AllFit (unsigned ∷ ps) (num w ∷ xs) p esp s l f =
      (subst (λ t. t < 2 ^ 32) (sym (l.1.0)) s.0, Suits-AllFit ps xs p (esp + 1) s.1 (l.0, l.1.1) f)
  Suits-AllFit (signed ∷ ps) (num w ∷ xs) p esp s l f =
      (subst (λ t. t < 2 ^ 32) (sym (l.1.0)) s.0, Suits-AllFit ps xs p (esp + 1) s.1 (l.0, l.1.1) f)
  Suits-AllFit (character ∷ ps) (num w ∷ xs) p esp s l f =
      (subst (λ t. t < 2 ^ 32) (sym (l.1.0)) s.0, Suits-AllFit ps xs p (esp + 1) s.1 (l.0, l.1.1) f)
  Suits-AllFit (_ ∷ ps) _ p esp s l f = absurd s

  -- What the pieces show is what they say of the arguments.
  shows-Says :
      (ps : List Piece) (xs : List Arg) (p esp : ℕ) (out : List ℕ)
      → Suits ps xs
      → Laid xs p esp
      → AllShow strings m args ps esp out
      → Says ps xs out
  shows-Says [] xs p esp out s l a = a
  shows-Says (literal c ∷ ps) xs p esp out s l (front, back, e, shown, later) =
      let same : esp + 0 ≡ esp = omega arith in
      (
        back,
        e ∙ ap (λ t. t ++ back) shown,
        shows-Says ps xs p esp back s.1 l
            (subst (λ t. AllShow strings m args ps t back) same later),
      )
  shows-Says (percent ∷ ps) xs p esp out s l (front, back, e, shown, later) =
      let same : esp + 0 ≡ esp = omega arith in
      (
        back,
        e ∙ ap (λ t. t ++ back) shown,
        shows-Says ps xs p esp back s l (subst (λ t. AllShow strings m args ps t back) same later),
      )
  shows-Says (string ∷ ps) (text t ∷ xs) p esp out s l (front, back, e, (k, i, shown), later) =
      let laid = StandsAt-of_StandsIn m p t (texts xs) l.0 in
      let here : IsString m (args esp) (length t) =
        subst (λ a. IsString m a (length t)) (sym (l.1.0)) (StandsAt-IsString m p t s.0 laid) in
      let same : k ≡ length t = IsString-unique m (args esp) k (length t) i here in
      let text_is : front ≡ t =
        shown ∙ ap₂ (λ a n. bytes m a n) (l.1.0) same ∙ StandsAt-bytes m p t laid in
      (
        back,
        e ∙ ap (λ f. f ++ back) text_is,
        shows-Says ps xs (p + length t + 1) (esp + 1) back s.1
            (StandsIn-behind m p t (texts xs) l.0, l.1.1) later,
      )
  shows-Says (hexadecimal ∷ ps) (num w ∷ xs) p esp out s l (front, back, e, shown, later) = (
    front,
    back,
    e,
    subst (λ t. ShowsNumber hexadecimal t front) (l.1.0) shown,
    shows-Says ps xs p (esp + 1) back s.1 (l.0, l.1.1) later,
  )
  shows-Says (eight_digits ∷ ps) (num w ∷ xs) p esp out s l (front, back, e, shown, later) = (
    front,
    back,
    e,
    subst (λ t. ShowsNumber eight_digits t front) (l.1.0) shown,
    shows-Says ps xs p (esp + 1) back s.1 (l.0, l.1.1) later,
  )
  shows-Says (unsigned ∷ ps) (num w ∷ xs) p esp out s l (front, back, e, shown, later) = (
    front,
    back,
    e,
    subst (λ t. ShowsNumber unsigned t front) (l.1.0) shown,
    shows-Says ps xs p (esp + 1) back s.1 (l.0, l.1.1) later,
  )
  shows-Says (signed ∷ ps) (num w ∷ xs) p esp out s l (front, back, e, shown, later) = (
    front,
    back,
    e,
    subst (λ t. ShowsNumber signed t front) (l.1.0) shown,
    shows-Says ps xs p (esp + 1) back s.1 (l.0, l.1.1) later,
  )
  shows-Says (character ∷ ps) (num w ∷ xs) p esp out s l (front, back, e, shown, later) = (
    front,
    back,
    e,
    subst (λ t. ShowsNumber character t front) (l.1.0) shown,
    shows-Says ps xs p (esp + 1) back s.1 (l.0, l.1.1) later,
  )
  shows-Says (_ ∷ ps) _ p esp out s l a = absurd s

-- A call whose format is spelled by its pieces, and whose arguments suit them.
pub record IsCall (c : PrintCall) : Type 0 where
  pub spelled : format_of (pieces c.format) ≡ codes c.format
  pub suited : Suits (pieces c.format) c.args

print_call_lem :
    (conv_buf : Mem) (s : Tty) (c : PrintCall)
    → IsCall c
    → (out : List ℕ) × Says (pieces c.format) c.args out
      × (print_call conv_buf s c ≡ some (put_all out s 0))
unfolding print_call
print_call_lem conv_buf s c k =
    let front = codes c.format in
    let strings = length (texts c.args) + 1 in
    let words = words_from c.args (length front + 1) in
    let behind : StandsIn (memory_of c) (length front + 1) (texts c.args) =
      (let whole = append-StandsIn front (0 ∷ texts c.args) in whole.1) in
    let laid : StandsIn (memory_of c) (length front + 1) (texts c.args)
        × StandsIn (stack_of c) 0 words =
      (behind, front-StandsIn [] words) in
    let at_zero : StandsAt (memory_of c) 0 (format_of (pieces c.format)) =
      subst (StandsAt (memory_of c) 0) (sym (k.spelled)) (
        StandsAt-of_StandsIn (memory_of c) 0 front (texts c.args)
          (front-StandsIn front (0 ∷ texts c.args))) in
    let fits =
      Suits-AllFit strings (memory_of c) (stack_of c) (pieces c.format) c.args (length front + 1) 0
        (k.suited) laid (omega arith) in
    let (out, shown, run) =
      printf_lem strings (memory_of c) (stack_of c) conv_buf (pieces c.format) (length front + 1) s
        0 fits at_zero (omega (arith, ap length (k.spelled))) in
    (
      out,
      shows-Says strings (memory_of c) (stack_of c) (pieces c.format) c.args (length front + 1) 0
          out (k.suited) laid shown,
      rw run refl,
    )

-- The calls print one after the other.
abbrev pub AllSaid : List PrintCall → List ℕ → Type 0
AllSaid [] out = out ≡ []
AllSaid (c ∷ cs) out =
    (front : List ℕ) × (back : List ℕ) × (out ≡ front ++ back)
    × Says (pieces c.format) c.args front
    × AllSaid cs back

abbrev pub AreCalls : List PrintCall → Type 0
AreCalls [] = Unit
AreCalls (c ∷ cs) = IsCall c × AreCalls cs

pub print_calls_lem :
    (conv_buf : Mem) (s : Tty) (cs : List PrintCall)
    → AreCalls cs
    → (out : List ℕ) × AllSaid cs out × (print_calls conv_buf (some s) cs ≡ some (put_all out s 0))
unfolding print_calls put_all
print_calls_lem conv_buf s [] k = ([], refl, refl)
print_calls_lem conv_buf s (c ∷ cs) k =
    let (front, said, run) = print_call_lem conv_buf s c k.0 in
    let (back, later, run') = print_calls_lem conv_buf (put_all front s 0) cs k.1 in
    (
      front ++ back,
      (front, back, refl, said, later),
      ap (λ t. print_calls conv_buf t cs) run ∙ run' ∙ ap some (sym (put_all-append front back s)),
    )
