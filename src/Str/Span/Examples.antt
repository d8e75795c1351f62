-- ===== src/Str/Span/Examples.antt =====
-- src/string.c: spans and tokens of short strings.
use libcs.Prelude.{ℕ, ◌≡◌, refl, arith, none, some, List, [], ◌∷◌, ◌++◌, ok}
use libcs.Prelude.Text.{codes}
use libcs.Str.Mem.{nul_index, at, store}
use libcs.Str.Word.{find_or_end}
use libcs.Str.Span.{
  at_offset, fill, span_byte, span_set, strspn, strcspn, strpbrk, strchr, memrchr, strrchr, memccpy,
  cut_token, strtok_r, strsep,
}
use libcs.Str.Span.Laws.{leading, member, strspn-leading}

-- What the runs below compute with.
program : Unit {0}
unfolding nul_index at store find_or_end at_offset fill span_byte span_set strspn strcspn strpbrk
    strchr memrchr strrchr memccpy cut_token strtok_r strsep leading member
program = tt

abbrev list : List ℕ
list = codes ",a,,b" ++ 0 ∷ []

abbrev comma : List ℕ
comma = codes ", " ++ 0 ∷ []

first_token :
    strtok_r list (some 0) comma none ≡ ok (some 1, some 3, codes ",a" ++ 0 ∷ codes ",b" ++ 0 ∷ [])
unfolding program
first_token = refl

last_token : strtok_r list none comma (some 3) ≡ ok (some 4, none, list)
unfolding program
last_token = refl

empty_field : strsep list (some 0) comma ≡ ok (some 0, some 1, 0 ∷ codes "a,,b" ++ 0 ∷ [])
unfolding program
empty_field = refl

last_comma : strrchr list b',' ≡ ok (some 3)
unfolding program
last_comma = refl

first_of : strpbrk list (codes "xb" ++ 0 ∷ []) ≡ ok (some 4)
unfolding program
first_of = refl

copied : memccpy (9 ∷ 9 ∷ 9 ∷ []) list b'a' 3 ≡ ok (b',' ∷ b'a' ∷ 9 ∷ [], some 2)
unfolding program
copied = refl

strspn-leading_example :
    (strspn (codes ", b" ++ 0 ∷ []) (codes ", " ++ 0 ∷ []) ≡ ok 2)
    × (strcspn (codes ", b" ++ 0 ∷ []) (codes ", " ++ 0 ∷ []) ≡ ok 0)
unfolding program
strspn-leading_example =
    strspn-leading (codes ", b") (codes ", ") [] [] (omega arith) (omega arith) (omega arith)
