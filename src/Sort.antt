-- ===== src/Sort.antt =====
-- src/qsort.c: introsort and binary search. The array is the list of its elements; a pointer into it is an
-- index, and an access past the end is a fault. The comparison function is a parameter, as it is the
-- caller's: nothing is asked of it but what a theorem names. Elements are exchanged whole; the chunks in
-- which `swap` copies their bytes are left out.
pub mod Permute
pub mod Safety
pub mod Bisect
mod Examples
use libcs.Prelude.{
  ℕ, zero, suc, ◌+◌, ◌-◌, ◌*◌, ◌/◌, ◌^◌, Bool, true, false, not, ◌&&◌, Option, none, some, List, [],
  ◌∷◌, Run, ok, fault, ◌>>=◌, from_option, ltb, leb, ◌==◌, if◌then◌else◌, get_elem?, set,
}
use libcs.Prelude.Int.{ℤ, pos, ltb_ℤ, eqb_ℤ}

-- `swap(a, b, w)`.
unfoldable pub swap {ℓ} : {A : Type ℓ} → ℕ → ℕ → List A → Run (List A)
swap i j xs =
    if i == j
    then ok xs
    else (from_option (get_elem? xs i) >>= λ a.
        from_option (get_elem? xs j) >>= λ b. ok (set (set xs i b) j a))

-- `64 - __builtin_clzl(n)`: the bits of `n`, of which `size_t` has 64.
unfoldable pub bit_length : ℕ → ℕ → ℕ
bit_length zero n = 0
bit_length (suc k) n = let rest = bit_length k (n / 2) in if n == 0 then 0 else suc rest

module _ {ℓ} {A : Type ℓ} (cmp : A → A → ℤ) where
  -- `CMP(c, base + i * c->w, base + j * c->w)`.
  unfoldable pub compare_at : ℕ → ℕ → List A → Run ℤ
  compare_at i j xs =
      from_option (get_elem? xs i) >>= λ a. from_option (get_elem? xs j) >>= λ b. ok (cmp a b)

  -- The inner loop of `insertion`, from `j` down.
  unfoldable pub sink : ℕ → ℕ → List A → Run (List A)
  sink base zero xs = ok xs
  sink base (suc j) xs = compare_at (base + j) (base + suc j) xs >>= λ d.
      if ltb_ℤ (pos 0) d
      then (swap (base + j) (base + suc j) xs >>= λ ys. sink base j ys)
      else ok xs

  -- The outer loop of `insertion`, for the next `k` elements from `i`.
  unfoldable pub insert_from : ℕ → ℕ → ℕ → List A → Run (List A)
  insert_from base i zero xs = ok xs
  insert_from base i (suc k) xs = sink base i xs >>= λ ys. insert_from base (suc i) k ys

  -- `insertion(base, n, c)`.
  unfoldable pub insertion : ℕ → ℕ → List A → Run (List A)
  insertion base n xs = insert_from base 1 (n - 1) xs

  -- The child of `root` that `sift` compares it with.
  unfoldable pub larger_child : ℕ → ℕ → ℕ → List A → Run ℕ
  larger_child base child n xs =
      if ltb (child + 1) n
      then (compare_at (base + child) (base + (child + 1)) xs >>= λ d.
          ok (if ltb_ℤ d (pos 0) then child + 1 else child))
      else ok child

  -- `sift(base, root, n, c)`, with the number of rounds left.
  unfoldable pub sift : ℕ → ℕ → ℕ → ℕ → List A → Run (List A)
  sift zero base root n xs = fault
  sift (suc rounds) base root n xs =
      if leb n (2 * root + 1)
      then ok xs
      else (larger_child base (2 * root + 1) n xs >>= λ child.
          compare_at (base + root) (base + child) xs >>= λ d.
          if not (ltb_ℤ d (pos 0))
          then ok xs
          else (swap (base + root) (base + child) xs >>= λ ys. sift rounds base child n ys))

  -- The two loops of `heapsort_`; `n + 1` rounds are enough for each `sift`.
  unfoldable pub heapify : ℕ → ℕ → ℕ → List A → Run (List A)
  heapify base zero n xs = ok xs
  heapify base (suc i) n xs = sift (suc n) base i n xs >>= λ ys. heapify base i n ys

  unfoldable pub drain : ℕ → ℕ → List A → Run (List A)
  drain base zero xs = ok xs
  drain base (suc zero) xs = ok xs
  drain base (suc (suc end)) xs = swap base (base + suc end) xs >>= λ ys.
      sift (suc (suc end)) base 0 (suc end) ys >>= λ zs. drain base (suc end) zs

  -- `heapsort_(base, n, c)`.
  unfoldable pub heapsort : ℕ → ℕ → List A → Run (List A)
  heapsort base n xs = heapify base (n / 2) n xs >>= λ ys. drain base n ys

  -- `if (CMP(c, base + a, base + b) < 0) swap(...)`, and whether it did.
  unfoldable pub order : ℕ → ℕ → List A → Run (Bool × List A)
  order a b xs = compare_at a b xs >>= λ d.
      if ltb_ℤ d (pos 0) then (swap a b xs >>= λ ys. ok (true, ys)) else ok (false, xs)

  -- The median of three into position 0.
  unfoldable pub median : ℕ → ℕ → List A → Run (List A)
  median base n xs = order (base + n / 2) base xs >>= λ p.
      order (base + (n - 1)) (base + n / 2) p.1 >>= λ q.
      (if q.0 then (order (base + n / 2) base q.1 >>= λ r. ok r.1) else ok q.1) >>= λ ys.
      swap base (base + n / 2) ys

  -- `do i++; while (i < n && CMP(c, base + i * w, base) < 0);`, with at most `k` steps to `n`.
  unfoldable pub scan_up : ℕ → ℕ → ℕ → ℕ → List A → Run ℕ
  scan_up zero base i n xs = fault
  scan_up (suc k) base i n xs =
      if ltb (suc i) n
      then (compare_at (base + suc i) base xs >>= λ d.
          if ltb_ℤ d (pos 0) then scan_up k base (suc i) n xs else ok (suc i))
      else ok (suc i)

  -- `do j--; while (CMP(c, base + j * w, base) > 0);`: below 0 the access is out of bounds.
  unfoldable pub scan_down : ℕ → ℕ → List A → Run ℕ
  scan_down base zero xs = fault
  scan_down base (suc j) xs =
      compare_at (base + j) base xs >>= λ d. if ltb_ℤ (pos 0) d then scan_down base j xs else ok j

  -- The partition loop, with the number of rounds left, and the last exchange: `j` and the array.
  unfoldable pub partition : ℕ → ℕ → ℕ → ℕ → ℕ → List A → Run (ℕ × List A)
  partition zero base i j n xs = fault
  partition (suc rounds) base i j n xs = scan_up n base i n xs >>= λ i'.
      scan_down base j xs >>= λ j'.
      if leb j' i'
      then (swap base (base + j') xs >>= λ ys. ok (j', ys))
      else (swap (base + i') (base + j') xs >>= λ ys. partition rounds base i' j' n ys)

  -- `introsort(base, n, depth, c)`. The code recurses into the smaller part and goes round its loop for
  -- the larger, with the same depth.
  unfoldable pub introsort : ℕ → ℕ → ℕ → List A → Run (List A)
  introsort zero base n xs = if ltb 16 n then heapsort base n xs else insertion base n xs
  introsort (suc depth) base n xs =
      if ltb 16 n
      then (median base n xs >>= λ ys. partition n base 0 n n ys >>= λ p.
          let left = p.0 in
          let right = n - p.0 - 1 in
          if ltb left right
          then (introsort depth base left p.1 >>= λ zs. introsort depth (base + (p.0 + 1)) right zs)
          else (introsort depth (base + (p.0 + 1)) right p.1 >>= λ zs.
              introsort depth base left zs))
      else insertion base n xs

  -- `qsort_r(base, n, w, cmp, arg)` for a size `w` that is not 0.
  unfoldable pub qsort : ℕ → List A → Run (List A)
  qsort n xs = if ltb n 2 then ok xs else introsort (2 * bit_length 64 n) 0 n xs

-- `bsearch(key, base, n, w, cmp)`, as an index, with the number of rounds left; a round leaves fewer
-- elements, so `n` rounds are enough.
module _ {ℓ κ} {A : Type ℓ} {K : Type κ} (cmp : K → A → ℤ) (key : K) where
  unfoldable pub bsearch_from : ℕ → ℕ → ℕ → List A → Run (Option ℕ)
  bsearch_from zero b n xs = ok none
  bsearch_from (suc rounds) b n xs =
      if n == 0
      then ok none
      else (from_option (get_elem? xs (b + n / 2)) >>= λ a.
          if eqb_ℤ (cmp key a) (pos 0)
          then ok (some (b + n / 2))
          else (if ltb_ℤ (pos 0) (cmp key a)
              then bsearch_from rounds (b + n / 2 + 1) (n - (n / 2 + 1)) xs
              else bsearch_from rounds b (n / 2) xs))

  unfoldable pub bsearch : ℕ → List A → Run (Option ℕ)
  bsearch n xs = bsearch_from n 0 n xs
