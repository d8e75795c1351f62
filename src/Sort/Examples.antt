-- ===== src/Sort/Examples.antt =====
-- src/qsort.c: runs on small arrays, and each theorem at an array.
use libcs.Prelude.{ℕ, zero, suc, ◌≡◌, refl, arith, subst, Returns, List, [], ◌∷◌, ok, fault}
use libcs.Prelude.Int.{ℤ, pos, sub_ℕ, ◌≤ℤ◌}
use libcs.Sort.{
  swap, compare_at, sink, insert_from, insertion, larger_child, sift, heapify, drain, heapsort,
  order, median, scan_up, scan_down, partition, introsort, bit_length, qsort, bsearch_from, bsearch,
}
use libcs.Sort.Permute.{some_value}
use libcs.Sort.Safety.{Rearranges}
use libcs.Sort.Safety.Quick.{qsort-Rearranges}
use libcs.Sort.Bisect.{IsOrdered, Above, Below, Finds, bsearch-Finds}

-- What the runs below compute with.
program : Unit {0}
unfolding swap compare_at sink insert_from insertion larger_child sift heapify drain heapsort order
    median scan_up scan_down partition introsort bit_length qsort bsearch_from bsearch
program = tt

abbrev difference : ℕ → ℕ → ℤ
difference a b = sub_ℕ a b

difference_self : (a : ℕ) → difference a a ≤ℤ pos 0
difference_self a = ground arith

abbrev eighteen : List ℕ
eighteen = 9 ∷ 4 ∷ 17 ∷ 1 ∷ 12 ∷ 8 ∷ 0 ∷ 15 ∷ 3 ∷ 11 ∷ 6 ∷ 14 ∷ 2 ∷ 16 ∷ 5 ∷ 13 ∷ 7 ∷ 10 ∷ []

abbrev in_order : List ℕ
in_order = 0 ∷ 1 ∷ 2 ∷ 3 ∷ 4 ∷ 5 ∷ 6 ∷ 7 ∷ 8 ∷ 9 ∷ 10 ∷ 11 ∷ 12 ∷ 13 ∷ 14 ∷ 15 ∷ 16 ∷ 17 ∷ []

quick : qsort difference 18 eighteen ≡ ok in_order
unfolding program
quick = refl

heap : heapsort difference 0 18 eighteen ≡ ok in_order
unfolding program
heap = refl

-- A function that calls every element greater than every other, itself included, sends the partition
-- below the array.
always_greater : qsort (λ (a b : ℕ). pos 1) 18 eighteen ≡ fault
unfolding program
always_greater = refl

abbrev odd : List ℕ
odd = 1 ∷ 3 ∷ []

odd-IsOrdered : IsOrdered difference 3 2 odd
odd-IsOrdered zero (suc zero) a b h k e f =
    subst
      (λ b.
        (Above difference 3 b → Above difference 3 a)
        × (Below difference 3 a → Below difference 3 b))
      (some_value f)
      (subst
        (λ a.
          (Above difference 3 3 → Above difference 3 a)
          × (Below difference 3 a → Below difference 3 3))
        (some_value e) (λ g. refl, λ g. absurd (cc)))
odd-IsOrdered zero zero a b h k e f = absurd (omega arith)
odd-IsOrdered zero (suc (suc j)) a b h k e f = absurd (omega arith)
odd-IsOrdered (suc i) zero a b h k e f = absurd (omega arith)
odd-IsOrdered (suc i) (suc j) a b h k e f = absurd (omega arith)

qsort-Rearranges_example : Rearranges eighteen (qsort difference 18 eighteen)
qsort-Rearranges_example = qsort-Rearranges difference difference_self 18 eighteen (omega arith)

bsearch-Finds_example : Returns (bsearch difference 3 2 odd) (Finds difference 3 2 odd)
bsearch-Finds_example = bsearch-Finds difference 3 2 odd (omega arith) odd-IsOrdered
