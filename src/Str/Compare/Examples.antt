-- ===== src/Str/Compare/Examples.antt =====
-- src/string.c: runs of the comparisons, and each theorem at an input.
use libcs.Prelude.{ℕ, ◌≡◌, ◌↔◌, refl, arith, List, [], ◌∷◌, ◌++◌, ok}
use libcs.Prelude.Int.{ℤ, pos, negsuc}
use libcs.Str.Search.{memcmp}
use libcs.Str.Compare.{
  strcmp, strncmp_loop, strncmp, bcmp_loop, timingsafe_bcmp, less_mask, memcmp_loop,
  timingsafe_memcmp,
}
use libcs.Str.Compare.Laws.{first_difference, strcmp_lem}
use libcs.Str.Compare.Timing.{timingsafe_memcmp-memcmp}

-- What the runs below compute with.
program : Unit {0}
unfolding memcmp strcmp strncmp_loop strncmp bcmp_loop timingsafe_bcmp less_mask memcmp_loop
    timingsafe_memcmp
program = tt

-- "ab" and "ac"
abbrev ab : List ℕ
ab = 97 ∷ 98 ∷ []

abbrev ac : List ℕ
ac = 97 ∷ 99 ∷ []

same_start : strncmp (ab ++ 0 ∷ []) (ac ++ 0 ∷ []) 1 ≡ ok (pos 0)
unfolding program
same_start = refl

less_by_time : timingsafe_memcmp ab ac 2 ≡ ok (negsuc 0)
unfolding program
less_by_time = refl

strcmp_lem_example :
    (d : ℤ) × (strcmp (ab ++ 0 ∷ []) (ac ++ 0 ∷ []) ≡ ok d)
    × (d ≡ first_difference ab ac)
    × ((d ≡ pos 0) ↔ (ab ≡ ac))
strcmp_lem_example =
    strcmp_lem ab ac [] [] (omega arith, (omega arith, tt)) (omega arith, (omega arith, tt))

timingsafe_memcmp-memcmp_example : timingsafe_memcmp ab ac 2 ≡ ok (negsuc 0)
unfolding memcmp
timingsafe_memcmp-memcmp_example =
    timingsafe_memcmp-memcmp ab ac 2 (omega arith, (omega arith, tt))
      (omega arith, (omega arith, tt)) (omega arith) (omega arith)
