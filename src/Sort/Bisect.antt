-- ===== src/Sort/Bisect.antt =====
-- src/qsort.c: what `bsearch` finds.
use libcs.Prelude.{
  get_elem?-lt, ℕ, zero, suc, ◌+◌, ◌-◌, ◌/◌, ◌≡◌, ◌≢◌, ◌<◌, ◌≤◌, arith, ap, sym, subst, ◌∙◌, true,
  false, Bool-cases, inl, inr, Option, none, some, List, Returns, ◌==◌, length, get_elem?,
}
use native.Mathlib.Decide.{dec_lt}
use libcs.Prelude.Int.{ℤ, pos, ltb_ℤ, eqb_ℤ}
use libcs.Sort.{bsearch_from, bsearch}
use libcs.Sort.Permute.{some_value}

module _ {A K : Type 0} (cmp : K → A → ℤ) (key : K) where
  abbrev pub Above : A → Type 0
  Above a = ltb_ℤ (pos 0) (cmp key a) ≡ true

  abbrev pub Below : A → Type 0
  Below a = ltb_ℤ (cmp key a) (pos 0) ≡ true

  -- In the order of the array the key is greater than some elements, then equal to some, then less than
  -- the rest.
  abbrev pub IsOrdered : ℕ → List A → Type 0
  IsOrdered n xs =
      (i j : ℕ) (a b : A)
      → i < j
      → j < n
      → get_elem? xs i ≡ some a
      → get_elem? xs j ≡ some b
      → (Above b → Above a) × (Below a → Below b)

  -- An element equal to the key, or that there is none among the first `n`.
  abbrev pub Finds : ℕ → List A → Option ℕ → Type 0
  Finds n xs none = (i : ℕ) (a : A) → i < n → get_elem? xs i ≡ some a → cmp key a ≢ pos 0
  Finds n xs (some i) = (i < n) × (a : A) × (get_elem? xs i ≡ some a) × (cmp key a ≡ pos 0)

  abbrev LowerAbove : ℕ → List A → Type 0
  LowerAbove b xs = (i : ℕ) (a : A) → i < b → get_elem? xs i ≡ some a → Above a

  abbrev UpperBelow : ℕ → ℕ → List A → Type 0
  UpperBelow e n xs = (i : ℕ) (a : A) → e ≤ i → i < n → get_elem? xs i ≡ some a → Below a

  not_zero_above : (z : ℤ) → ltb_ℤ (pos 0) z ≡ true → z ≢ pos 0
  not_zero_above z h e = absurd (let g = rw e at h in cc)

  not_zero_below : (z : ℤ) → ltb_ℤ z (pos 0) ≡ true → z ≢ pos 0
  not_zero_below z h e = absurd (let g = rw e at h in cc)

  below_else : (z : ℤ) → eqb_ℤ z (pos 0) ≡ false → ltb_ℤ (pos 0) z ≡ false → ltb_ℤ z (pos 0) ≡ true
  below_else z h k = ground arith

  is_zero_of : (z : ℤ) → eqb_ℤ z (pos 0) ≡ true → z ≡ pos 0
  is_zero_of z h = ground arith

  same_place :
      (xs : List A) (i j : ℕ) (a c : A)
      → i ≡ j
      → get_elem? xs i ≡ some c
      → get_elem? xs j ≡ some a
      → a ≡ c
  same_place xs i j a c h e f = some_value (sym f ∙ ap (get_elem? xs) (sym h) ∙ e)

  lower :
      (m size : ℕ) (xs : List A) (a : A)
      → IsOrdered size xs
      → m < size
      → get_elem? xs m ≡ some a
      → Above a
      → LowerAbove (m + 1) xs
  lower m size xs a order small e above i c near q = elim (dec_lt i m) [
    | yes left ↦ (order i m c a left small q e).0 above
    | no here ↦ subst Above (same_place xs i m a c (omega arith) q e) above
  ]

  upper :
      (m size : ℕ) (xs : List A) (a : A)
      → IsOrdered size xs
      → m < size
      → get_elem? xs m ≡ some a
      → Below a
      → UpperBelow m size xs
  upper m size xs a order small e below i c far end q = elim (dec_lt m i) [
    | yes right ↦ (order m i a c right end e q).1 below
    | no here ↦ subst Below (same_place xs i m a c (omega arith) q e) below
  ]

  bsearch_from-Finds :
      (rounds b n size : ℕ) (xs : List A)
      → n ≤ rounds
      → b + n ≤ size
      → size ≤ length xs
      → IsOrdered size xs
      → LowerAbove b xs
      → UpperBelow (b + n) size xs
      → Returns (bsearch_from cmp key rounds b n xs) (Finds size xs)
  unfolding bsearch_from
  bsearch_from-Finds zero b n size xs h k l order low high = λ i a small e. elim (dec_lt i b) [
    | yes left ↦ not_zero_above (cmp key a) (low i a left e)
    | no right ↦ not_zero_below (cmp key a) (high i a (omega arith) small e)
  ]
  bsearch_from-Finds (suc rounds) b n size xs h k l order low high = elim (Bool-cases (n == 0)) [
    | inl empty ↦ rw empty (λ i a small e. elim (dec_lt i b) [
      | yes left ↦ not_zero_above (cmp key a) (low i a left e)
      | no right ↦ not_zero_below (cmp key a) (high i a (ground arith) small e)
    ])
    | inr more ↦
        let (a, e) = get_elem?-lt xs (b + n / 2) (ground arith) in
        elim (Bool-cases (eqb_ℤ (cmp key a) (pos 0))) [
          | inl equal ↦ rw (more, e, equal) (ground arith, a, e, is_zero_of (cmp key a) equal)
          | inr unequal ↦ elim (Bool-cases (ltb_ℤ (pos 0) (cmp key a))) [
            | inl above ↦
                rw (more, e, unequal, above)
                  (bsearch_from-Finds rounds (b + n / 2 + 1) (n - (n / 2 + 1)) size xs (omega arith)
                    (ground arith) l order
                    (lower (b + n / 2) size xs a order (ground arith) e above)
                    (λ i c far small q. high i c (ground arith) small q))
            | inr not_above ↦
                rw (more, e, unequal, not_above)
                  (bsearch_from-Finds rounds b (n / 2) size xs (ground arith) (omega arith) l order
                    low
                    (upper (b + n / 2) size xs a order (ground arith) e
                      (below_else (cmp key a) unequal not_above)))
          ]
        ]
  ]

  -- `bsearch` in an array whose elements are in the key's order: it returns without an access outside the
  -- array, with the index of an element that the comparison calls equal to the key, or with
  -- none, and then no element is equal to the key.
  pub bsearch-Finds :
      (size : ℕ) (xs : List A)
      → size ≤ length xs
      → IsOrdered size xs
      → Returns (bsearch cmp key size xs) (Finds size xs)
  unfolding bsearch
  bsearch-Finds size xs h order =
      bsearch_from-Finds size 0 size size xs (omega arith) (omega arith) h order
        (λ i a left e. absurd (omega arith)) (λ i a far small e. absurd (omega arith))
