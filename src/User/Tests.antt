-- ===== src/User/Tests.antt =====
-- The string "ab" with a stale byte behind its end.
use psych_os.Base.{◌≡◌, Mem, get_or, [], ◌∷◌}
use psych_os.Str.{strlen, strcpy, strrev, itoa}
use psych_os.User.Support.{ece391_strlen, ece391_strcpy, ece391_strrev, ece391_itoa}
use psych_os.User.Support.Same.{ece391_support_lem}

abbrev ab : Mem
ab i = get_or (97 ∷ 98 ∷ 0 ∷ 7 ∷ []) i 0

abbrev zeros : Mem
zeros i = 0

ece391_support_lem_example :
    (ece391_strlen 8 ab ≡ strlen 8 ab)
    × (ece391_strcpy 8 zeros ab ≡ strcpy 8 zeros ab)
    × (ece391_strrev 8 ab ≡ strrev 8 ab)
    × (ece391_itoa 8 391 zeros 10 ≡ itoa 8 391 zeros 10)
ece391_support_lem_example = ece391_support_lem 8 391 10 ab zeros
