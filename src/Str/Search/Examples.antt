-- ===== src/Str/Search/Examples.antt =====
-- src/string.c: runs of the searches, and each theorem at an input.
use libcs.Prelude.{ℕ, ◌≡◌, refl, arith, Returns, none, some, List, [], ◌∷◌, ◌++◌, ok}
use libcs.Prelude.Int.{pos}
use libcs.Str.Mem.{find, nul_index}
use libcs.Str.Search.{memcmp, memmem_loop, memmem, strstr}
use libcs.Str.Search.Laws.{strstr-IsFirst, IsFirst}

-- What the runs below compute with.
program : Unit {0}
unfolding find nul_index memcmp memmem_loop memmem strstr
program = tt

-- "aabab" and "ab"
abbrev hay : List ℕ
hay = 97 ∷ 97 ∷ 98 ∷ 97 ∷ 98 ∷ []

abbrev needle : List ℕ
needle = 97 ∷ 98 ∷ []

second_place : strstr (hay ++ 0 ∷ []) (needle ++ 0 ∷ []) ≡ ok (some 1)
unfolding program
second_place = refl

no_place : strstr (needle ++ 0 ∷ []) (hay ++ 0 ∷ []) ≡ ok none
unfolding program
no_place = refl

lower : memcmp needle hay 2 ≡ ok (pos 1)
unfolding program
lower = refl

strstr-IsFirst_example :
    Returns
      (strstr (hay ++ 0 ∷ []) (needle ++ 0 ∷ []))
      (IsFirst 4 (hay ++ 0 ∷ []) (needle ++ 0 ∷ []) 2)
strstr-IsFirst_example =
    strstr-IsFirst hay needle [] []
      (omega arith, (omega arith, (omega arith, (omega arith, (omega arith, tt)))))
      (omega arith, (omega arith, tt))
