-- ===== src/Search/Examples.antt =====
-- src/search.c: linear search and a queue of three elements.
use libcs.Prelude.{ℕ, ◌≡◌, refl, some, [], ◌∷◌}
use libcs.Prelude.Int.{ℤ, sub_ℕ}
use libcs.Search.Linear.{lfind, lsearch, Store, insque, remque}

-- What the runs below compute with.
program : Unit {0}
unfolding lfind lsearch insque remque
program = tt

abbrev difference : ℕ → ℕ → ℤ
difference a b = sub_ℕ a b

found : lfind difference 5 (4 ∷ 5 ∷ 5 ∷ []) ≡ some 1
unfolding program
found = refl

appended : lsearch difference 6 (4 ∷ 5 ∷ []) ≡ (2, 4 ∷ 5 ∷ 6 ∷ [])
unfolding program
appended = refl

abbrev empty : Store
empty a = record { next = 0; prev = 0 }

abbrev queue : Store
queue = insque 30 10 (insque 20 10 (insque 10 0 empty))

linked : queue 30 ≡ record { next = 20; prev = 10 }
unfolding program
linked = refl

unlinked : remque 30 queue 10 ≡ record { next = 20; prev = 0 }
unfolding program
unlinked = refl
