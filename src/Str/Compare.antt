-- ===== src/Str/Compare.antt =====
-- `strncmp` decides whether two strings agree up to the first NUL or the limit.
use psych_os.Base.{ℕ, zero, suc, ◌+◌, ◌<◌, ◌≡◌, ◌↔◌, refl, arith, Mem}
use psych_os.Base.Int.{pos}
use psych_os.Str.{strncmp_from, strncmp}
use psych_os.Str.Text.{text}

module _ (s t : Mem) (s_bytes : (i : ℕ) → s i < 256) (t_bytes : (i : ℕ) → t i < 256) where
  text_of_strncmp : (n i : ℕ) → strncmp_from n s t i ≡ pos 0 → text s i n ≡ text t i n
  unfolding strncmp_from
  text_of_strncmp zero i h = refl
  text_of_strncmp (suc n) i h = ground (arith, text_of_strncmp n (i + 1), s_bytes i, t_bytes i)

  strncmp_of_text : (n i : ℕ) → text s i n ≡ text t i n → strncmp_from n s t i ≡ pos 0
  unfolding strncmp_from
  strncmp_of_text zero i h = refl
  strncmp_of_text (suc n) i h = ground (arith, strncmp_of_text n (i + 1), s_bytes i, t_bytes i)

  -- On strings of bytes `strncmp` returns 0 exactly when both say the same up to the first NUL,
  -- or up to `n` bytes where no NUL comes before.
  pub strncmp_iff : (n : ℕ) → (strncmp s t n ≡ pos 0) ↔ (text s 0 n ≡ text t 0 n)
  unfolding strncmp
  strncmp_iff n = (text_of_strncmp n 0, strncmp_of_text n 0)
