-- ===== src/Str/Compare/Laws.antt =====
-- src/string.c: the comparisons against the order of strings.
use libcs.Prelude.{
  NoNul, ℕ, zero, suc, ◌≡◌, refl, arith, ap₂, sym, ◌↔◌, Bool, true, false, ◌&&◌, Bool-cases, inl,
  inr, List, [], ◌∷◌, ◌++◌, ok, ◌==◌, if◌then◌else◌, take,
}
use libcs.Prelude.Int.{ℤ, pos, sub_ℕ}
use libcs.Str.Compare.{strcmp, strncmp_loop, strncmp}

-- The difference of the first bytes that differ, where a string that ends counts as a null byte.
abbrev pub first_difference : List ℕ → List ℕ → ℤ
first_difference [] [] = pos 0
first_difference [] (y ∷ u) = sub_ℕ 0 y
first_difference (x ∷ t) [] = sub_ℕ x 0
first_difference (x ∷ t) (y ∷ u) = if x == y then first_difference t u else sub_ℕ x y

strcmp-first_difference :
    (t u r s : List ℕ)
    → NoNul t
    → NoNul u
    → strcmp (t ++ 0 ∷ r) (u ++ 0 ∷ s) ≡ ok (first_difference t u)
unfolding strcmp
strcmp-first_difference [] [] r s h k = refl
strcmp-first_difference [] (y ∷ u) r s h k =
    let differ : (0 == y) ≡ false = ground (arith, k.0) in rw differ refl
strcmp-first_difference (x ∷ t) [] r s h k =
    let differ : (x == 0) ≡ false = ground (arith, h.0) in rw differ refl
strcmp-first_difference (x ∷ t) (y ∷ u) r s h k =
    let more : (x == 0) ≡ false = ground (arith, h.0) in
    rw (more, strcmp-first_difference t u r s h.1 k.1) (by_byte (x == y))
  where
    by_byte :
        (e : Bool)
        → (if e && true then ok (first_difference t u) else ok (sub_ℕ x y))
          ≡ ok (if e then first_difference t u else sub_ℕ x y)
    by_byte true = refl
    by_byte false = refl

pub first_difference-zero :
    (t u : List ℕ) → NoNul t → NoNul u → (first_difference t u ≡ pos 0) ↔ (t ≡ u)
first_difference-zero t u h k = (same t u h k, λ e. rw (sym e) (self t))
  where
    self : (t : List ℕ) → first_difference t t ≡ pos 0
    self [] = refl
    self (x ∷ t) = let e : (x == x) ≡ true = ground arith in rw e (self t)

    same : (t u : List ℕ) → NoNul t → NoNul u → first_difference t u ≡ pos 0 → t ≡ u
    same [] [] h k e = refl
    same [] (y ∷ u) h k e = absurd (ground (arith, k.0))
    same (x ∷ t) [] h k e = absurd (ground (arith, h.0))
    same (x ∷ t) (y ∷ u) h k e = elim (Bool-cases (x == y)) [
      | inl b ↦
          let g = rw b at e in
          ap₂ (λ (x : ℕ) (t : List ℕ). x ∷ t) (ground arith) (same t u h.1 k.1 g)
      | inr b ↦ let g = rw b at e in absurd (ground arith)
    ]

-- `strcmp` of two strings gives the difference of the first bytes that differ, and 0 exactly if the
-- strings are equal.
pub strcmp_lem :
    (t u r s : List ℕ)
    → NoNul t
    → NoNul u
    → (d : ℤ) × (strcmp (t ++ 0 ∷ r) (u ++ 0 ∷ s) ≡ ok d)
      × (d ≡ first_difference t u)
      × ((d ≡ pos 0) ↔ (t ≡ u))
strcmp_lem t u r s h k =
    (first_difference t u, strcmp-first_difference t u r s h k, refl, first_difference-zero t u h k)

strncmp_loop-first_difference :
    (t u r s : List ℕ) (n : ℕ)
    → NoNul t
    → NoNul u
    → strncmp_loop (t ++ 0 ∷ r) (u ++ 0 ∷ s) n
      ≡ ok (first_difference (take (suc n) t) (take (suc n) u))
unfolding strncmp_loop
strncmp_loop-first_difference [] [] r s zero h k = refl
strncmp_loop-first_difference [] [] r s (suc n) h k = refl
strncmp_loop-first_difference [] (y ∷ u) r s zero h k = refl
strncmp_loop-first_difference [] (y ∷ u) r s (suc n) h k = refl
strncmp_loop-first_difference (x ∷ t) [] r s zero h k = refl
strncmp_loop-first_difference (x ∷ t) [] r s (suc n) h k =
    let more : (x == 0) ≡ false = ground (arith, h.0) in rw more refl
strncmp_loop-first_difference (x ∷ t) (y ∷ u) r s zero h k = ground arith
strncmp_loop-first_difference (x ∷ t) (y ∷ u) r s (suc n) h k =
    let more_x : (x == 0) ≡ false = ground (arith, h.0) in
    let more_y : (y == 0) ≡ false = ground (arith, k.0) in
    rw (more_x, more_y, strncmp_loop-first_difference t u r s n h.1 k.1) (by_byte (x == y) _)
  where
    by_byte :
        (e : Bool) (d : ℤ) → (if e then ok d else ok (sub_ℕ x y)) ≡ ok (if e then d else sub_ℕ x y)
    by_byte true d = refl
    by_byte false d = refl

-- `strncmp` of two strings is `strcmp` of their first `n` bytes.
pub strncmp-first_difference :
    (t u r s : List ℕ) (n : ℕ)
    → NoNul t
    → NoNul u
    → strncmp (t ++ 0 ∷ r) (u ++ 0 ∷ s) n ≡ ok (first_difference (take n t) (take n u))
unfolding strncmp
strncmp-first_difference t u r s zero h k = refl
strncmp-first_difference t u r s (suc n) h k = strncmp_loop-first_difference t u r s n h k
