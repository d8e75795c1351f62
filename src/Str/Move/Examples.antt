-- ===== src/Str/Move/Examples.antt =====
-- src/string.c: runs of memmove, and its theorem at overlapping places.
use libcs.Prelude.{ℕ, ◌≡◌, refl, arith, List, [], ◌∷◌, ok}
use libcs.Str.Move.{load, write, copy, copy_up, down_bytes, down_words, down, memmove}
use libcs.Str.Move.Laws.{Moves}
use libcs.Str.Move.Loops.{memmove-Moves}

-- What the runs below compute with.
program : Unit {0}
unfolding load write copy copy_up down_bytes down_words down memmove
program = tt

abbrev twelve : List ℕ
twelve = 1 ∷ 2 ∷ 3 ∷ 4 ∷ 5 ∷ 6 ∷ 7 ∷ 8 ∷ 9 ∷ 10 ∷ 11 ∷ 12 ∷ []

up_by_one : memmove 5 1 0 11 twelve ≡ ok (1 ∷ 1 ∷ 2 ∷ 3 ∷ 4 ∷ 5 ∷ 6 ∷ 7 ∷ 8 ∷ 9 ∷ 10 ∷ 11 ∷ [])
unfolding program
up_by_one = refl

down_by_two : memmove 0 0 2 10 twelve ≡ ok (3 ∷ 4 ∷ 5 ∷ 6 ∷ 7 ∷ 8 ∷ 9 ∷ 10 ∷ 11 ∷ 12 ∷ 11 ∷ 12 ∷ [])
unfolding program
down_by_two = refl

memmove-Moves_example : Moves 1 0 11 twelve (memmove 5 1 0 11 twelve)
memmove-Moves_example = memmove-Moves 5 1 0 11 twelve (omega arith) (omega arith) (omega arith)
