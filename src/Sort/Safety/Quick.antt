-- ===== src/Sort/Safety/Quick.antt =====
-- src/qsort.c: the partition, and the sort as a whole.
use mathlib.Core.List.Perm
use libcs.Prelude.{
  get_elem?-lt, ℕ, zero, suc, ◌+◌, ◌-◌, ◌*◌, ◌/◌, ◌≡◌, ◌<◌, ◌≤◌, refl, arith, Bool, true, false,
  Bool-cases, inl, inr, List, Run, ok, ◌>>=◌, ltb, leb, if◌then◌else◌, length,
}
use libcs.Prelude.Int.{ℤ, pos, ltb_ℤ, ◌≤ℤ◌}
use libcs.Sort.{
  compare_at, order, median, scan_up, scan_down, partition, introsort, bit_length, qsort,
}
use libcs.Sort.Permute.{Permutes}
use libcs.Sort.Safety.{
  Rearranges, Permutes-trans, same-Rearranges, bind-Rearranges, swap-Rearranges, compare_at_lem,
  insertion-Rearranges,
}
use libcs.Sort.Safety.Heap.{heapsort-Rearranges}

module _ {ℓ} {A : Type ℓ} (cmp : A → A → ℤ) where
  order_lem :
      (a b : ℕ) (xs : List A)
      → a < length xs
      → b < length xs
      → (t : Bool) × (ys : List A) × (order cmp a b xs ≡ ok (t, ys)) × Permutes xs ys
  unfolding order
  order_lem a b xs h k =
      let (d, e) = compare_at_lem cmp xs a b h k in
      elim (Bool-cases (ltb_ℤ d (pos 0))) [
        | inl less ↦
            let (ys, e', p) = swap-Rearranges xs a b h k in (true, ys, rw (e, less, e') refl, p)
        | inr fine ↦ (false, xs, rw (e, fine) refl, (Perm.refl xs, refl))
      ]

  second_order :
      (a b : ℕ) (t : Bool) (xs : List A)
      → a < length xs
      → b < length xs
      → Rearranges xs (if t then (order cmp a b xs >>= λ r. ok r.1) else ok xs)
  second_order a b false xs h k = same-Rearranges xs
  second_order a b true xs h k = let (t, ys, e, p) = order_lem a b xs h k in (ys, rw e refl, p)

  median-Rearranges :
      (base n : ℕ) (xs : List A)
      → 1 ≤ n
      → base + n ≤ length xs
      → Rearranges xs (median cmp base n xs)
  unfolding median
  median-Rearranges base n xs h k =
      let (t, ys, e, p) = order_lem (base + n / 2) base xs (omega arith) (omega arith) in
      let (u, zs, e', q) =
        order_lem (base + (n - 1)) (base + n / 2) ys (omega (arith, p.1)) (omega (arith, p.1)) in
      let both = Permutes-trans xs ys zs p q in
      let (ws, last, r) =
        bind-Rearranges
          (second_order (base + n / 2) base u zs (omega (arith, both.1)) (omega (arith, both.1)))
          (λ vs same.
            swap-Rearranges vs base (base + n / 2) (omega (arith, both.1))
              (omega (arith, both.1))) in
      (ws, rw (e, e', last) refl, Permutes-trans xs zs ws both r)

  scan_up_lem :
      (k base i n : ℕ) (xs : List A)
      → n ≤ k + i
      → i < n
      → base + n ≤ length xs
      → (i' : ℕ) × (scan_up cmp k base i n xs ≡ ok i') × (i < i') × (i' ≤ n)
  unfolding scan_up
  scan_up_lem zero base i n xs h l m = absurd (omega arith)
  scan_up_lem (suc k) base i n xs h l m = elim (Bool-cases (ltb (suc i) n)) [
    | inr last ↦ (suc i, rw last refl, omega arith, omega arith)
    | inl inside ↦
        let (d, e) = compare_at_lem cmp xs (base + suc i) base (ground arith) (omega arith) in
        elim (Bool-cases (ltb_ℤ d (pos 0))) [
          | inr stop ↦ (suc i, rw (inside, e, stop) refl, omega arith, omega arith)
          | inl less ↦
              let (i', e', below, small) =
                scan_up_lem k base (suc i) n xs (omega arith) (ground arith) m in
              (i', rw (inside, e, less, e') refl, omega arith, small)
        ]
  ]

  module _ (self : (x : A) → cmp x x ≤ℤ pos 0) where
    compare_self :
        (xs : List A) (i : ℕ)
        → i < length xs
        → (d : ℤ) × (compare_at cmp i i xs ≡ ok d) × (ltb_ℤ (pos 0) d ≡ false)
    unfolding compare_at
    compare_self xs i h =
        let (a, e) = get_elem?-lt xs i h in (cmp a a, rw e refl, ground (arith, self a))

    scan_down_lem :
        (base j : ℕ) (xs : List A)
        → base + suc j ≤ length xs
        → (j' : ℕ) × (scan_down cmp base (suc j) xs ≡ ok j') × (j' ≤ j)
    unfolding scan_down
    scan_down_lem base zero xs h =
        let start : base + 0 ≡ base = omega arith in
        let (d, e, stop) = compare_self xs base (omega arith) in
        (0, rw (start, e, stop) refl, omega arith)
    scan_down_lem base (suc j) xs h =
        let (d, e) = compare_at_lem cmp xs (base + suc j) base (omega arith) (omega arith) in
        elim (Bool-cases (ltb_ℤ (pos 0) d)) [
          | inr stop ↦ (suc j, rw (e, stop) refl, omega arith)
          | inl greater ↦
              let (j', e', below) = scan_down_lem base j xs (omega arith) in
              (j', rw (e, greater, e') refl, omega arith)
        ]

    partition_lem :
        (rounds base i j n : ℕ) (xs : List A)
        → n ≤ rounds + i
        → i < n
        → 1 ≤ j
        → j ≤ n
        → base + n ≤ length xs
        → (j' : ℕ) × (ys : List A) × (partition cmp rounds base i j n xs ≡ ok (j', ys))
          × (j' < n)
          × Permutes xs ys
    unfolding partition
    partition_lem zero base i j n xs h k l m o = absurd (omega arith)
    partition_lem (suc rounds) base i zero n xs h k l m o = absurd (omega arith)
    partition_lem (suc rounds) base i (suc j) n xs h k l m o =
        let (i', up, above, iEnd) = scan_up_lem n base i n xs (omega arith) k o in
        let (j', down, below) = scan_down_lem base j xs (omega arith) in
        elim (Bool-cases (leb j' i')) [
          | inl met ↦
              let (ys, e, p) = swap-Rearranges xs base (base + j') (omega arith) (omega arith) in
              (j', ys, rw (up, down, met, e) refl, omega arith, p)
          | inr apart ↦
              let (ys, e, p) =
                swap-Rearranges xs (base + i') (base + j') (ground arith) (omega arith) in
              let (r, zs, e', small, q) =
                partition_lem rounds base i' j' n ys (omega arith) (ground arith) (ground arith)
                  (omega arith) (omega (arith, p.1)) in
              (r, zs, rw (up, down, apart, e, e') refl, small, Permutes-trans xs ys zs p q)
        ]

    introsort-Rearranges :
        (depth base n : ℕ) (xs : List A)
        → base + n ≤ length xs
        → Rearranges xs (introsort cmp depth base n xs)
    unfolding introsort
    introsort-Rearranges zero base n xs h = elim (Bool-cases (ltb 16 n)) [
      | inl long ↦ rw long (heapsort-Rearranges cmp base n xs h)
      | inr short ↦ rw short (insertion-Rearranges cmp base n xs h)
    ]
    introsort-Rearranges (suc depth) base n xs h = elim (Bool-cases (ltb 16 n)) [
      | inr short ↦ rw short (insertion-Rearranges cmp base n xs h)
      | inl long ↦
          let (ys, e, p) = median-Rearranges base n xs (ground arith) h in
          let (j, zs, e', small, q) =
            partition_lem n base 0 n n ys (omega arith) (ground arith) (ground arith) (omega arith)
              (omega (arith, p.1)) in
          let both = Permutes-trans xs ys zs p q in
          rw (long, e, e')
            (elim (Bool-cases (ltb j (n - j - 1))) [
              | inl less ↦ rw less (
                  widen xs zs _ both (
                    bind-Rearranges (introsort-Rearranges depth base j zs (omega (arith, both.1)))
                      (λ ws same.
                        introsort-Rearranges depth (base + (j + 1)) (n - j - 1) ws
                          (omega (arith, both.1)))))
              | inr more ↦ rw more (
                  widen xs zs _ both (
                    bind-Rearranges
                      (introsort-Rearranges depth (base + (j + 1)) (n - j - 1) zs
                        (omega (arith, both.1)))
                      (λ ws same. introsort-Rearranges depth base j ws (omega (arith, both.1)))))
            ])
    ]
      where
        widen :
            (xs zs : List A) (m : Run (List A)) → Permutes xs zs → Rearranges zs m → Rearranges xs m
        widen xs zs m p (ws, e, q) = (ws, e, Permutes-trans xs zs ws p q)

    -- `qsort` of an array of at least `n` elements, with any comparison function that calls no element
    -- greater than itself: it returns, makes no access outside the array, however inconsistent the
    -- function is otherwise, and leaves a permutation of the elements.
    pub qsort-Rearranges : (n : ℕ) (xs : List A) → n ≤ length xs → Rearranges xs (qsort cmp n xs)
    unfolding qsort
    qsort-Rearranges n xs h = elim (Bool-cases (ltb n 2)) [
      | inl few ↦ rw few (same-Rearranges xs)
      | inr many ↦ rw many (introsort-Rearranges (2 * bit_length 64 n) 0 n xs (omega arith))
    ]
