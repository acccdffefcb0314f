-- ===== src/MemOps/Tests.antt =====
-- Ranges that overlap, at addresses that are not aligned.
use psych_os.Base.{◌≡◌, Mem}
use psych_os.MemOps.{memset_word, memmove}
use psych_os.MemOps.Fill.{memset_word_lem}
use psych_os.MemOps.Move.{memmove_lem}

abbrev memory : Mem
memory a = a

memset_word_example : memset_word memory 5 300 9 14 ≡ 1
memset_word_example = memset_word_lem memory 5 300 9 14

memmove_example : memmove memory 7 5 9 13 ≡ 11
memmove_example = memmove_lem memory 7 5 9 13
