-- ===== src/Sort/Safety/Heap.antt =====
-- src/qsort.c: the heapsort that a deep recursion falls back to.
use libcs.Prelude.{
  ℕ, zero, suc, ◌+◌, ◌*◌, ◌/◌, ◌≡◌, ◌<◌, ◌≤◌, refl, arith, Bool-cases, inl, inr, List, ok, ltb, leb,
  length,
}
use libcs.Prelude.Int.{ℤ, pos, ltb_ℤ}
use libcs.Sort.{larger_child, sift, heapify, drain, heapsort}
use libcs.Sort.Safety.{
  Rearranges, same-Rearranges, bind-Rearranges, swap-Rearranges, compare_at_lem,
}

module _ {ℓ} {A : Type ℓ} (cmp : A → A → ℤ) where
  larger_child_lem :
      (base child n : ℕ) (xs : List A)
      → base + n ≤ length xs
      → child < n
      → (c : ℕ) × (larger_child cmp base child n xs ≡ ok c) × (child ≤ c) × (c < n)
  unfolding larger_child
  larger_child_lem base child n xs h k = elim (Bool-cases (ltb (child + 1) n)) [
    | inr last ↦ (child, rw last refl, omega arith, k)
    | inl two ↦
        let (d, e) =
          compare_at_lem cmp xs (base + child) (base + (child + 1)) (omega arith) (ground arith) in
        elim (Bool-cases (ltb_ℤ d (pos 0))) [
          | inl less ↦ (child + 1, rw (two, e, less) refl, omega arith, ground arith)
          | inr not_less ↦ (child, rw (two, e, not_less) refl, omega arith, k)
        ]
  ]

  sift-Rearranges :
      (rounds base root n : ℕ) (xs : List A)
      → n < rounds + root
      → root < n
      → base + n ≤ length xs
      → Rearranges xs (sift cmp rounds base root n xs)
  unfolding sift
  sift-Rearranges zero base root n xs h k l = absurd (omega arith)
  sift-Rearranges (suc rounds) base root n xs h k l = elim (Bool-cases (leb n (2 * root + 1))) [
    | inl leaf ↦ rw leaf (same-Rearranges xs)
    | inr inner ↦
        let (child, e, below, small) = larger_child_lem base (2 * root + 1) n xs l (ground arith) in
        let (d, e') =
          compare_at_lem cmp xs (base + root) (base + child) (omega arith) (omega arith) in
        elim (Bool-cases (ltb_ℤ d (pos 0))) [
          | inr heap ↦ rw (inner, e, e', heap) (same-Rearranges xs)
          | inl less ↦
              rw (inner, e, e', less)
                (bind-Rearranges
                  (swap-Rearranges xs (base + root) (base + child) (omega arith) (omega arith))
                  (λ ys same.
                    sift-Rearranges rounds base child n ys (omega arith) small (omega arith)))
        ]
  ]

  heapify-Rearranges :
      (base i n : ℕ) (xs : List A)
      → i ≤ n
      → base + n ≤ length xs
      → Rearranges xs (heapify cmp base i n xs)
  unfolding heapify
  heapify-Rearranges base zero n xs h k = same-Rearranges xs
  heapify-Rearranges base (suc i) n xs h k =
      bind-Rearranges (sift-Rearranges (suc n) base i n xs (omega arith) (omega arith) k)
        (λ ys same. heapify-Rearranges base i n ys (omega arith) (omega arith))

  drain-Rearranges :
      (base n : ℕ) (xs : List A) → base + n ≤ length xs → Rearranges xs (drain cmp base n xs)
  unfolding drain
  drain-Rearranges base zero xs h = same-Rearranges xs
  drain-Rearranges base (suc zero) xs h = same-Rearranges xs
  drain-Rearranges base (suc (suc end)) xs h =
      bind-Rearranges (swap-Rearranges xs base (base + suc end) (omega arith) (omega arith))
        (λ ys same.
          bind-Rearranges
            (sift-Rearranges (suc (suc end)) base 0 (suc end) ys (omega arith) (omega arith)
              (omega arith))
            (λ zs same'. drain-Rearranges base (suc end) zs (omega arith)))

  pub heapsort-Rearranges :
      (base n : ℕ) (xs : List A) → base + n ≤ length xs → Rearranges xs (heapsort cmp base n xs)
  unfolding heapsort
  heapsort-Rearranges base n xs h =
      bind-Rearranges (heapify-Rearranges base (n / 2) n xs (omega arith) h)
        (λ ys same. drain-Rearranges base n ys (omega arith))
