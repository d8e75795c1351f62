-- ===== src/Str/Compare/Timing.antt =====
-- src/string.c: the comparisons whose time does not depend on the bytes, against memcmp.
use Prim.Native.Nat.{bit_and, bit_or, bit_xor}
use libcs.Prelude.{
  ℕ, zero, suc, ◌+◌, ◌-◌, ◌%◌, ◌^◌, ◌≡◌, ◌<◌, ◌≤◌, refl, arith, ap, ◌∙◌, Bool, true, false, not,
  ◌&&◌, ◌||◌, Bool-cases, inl, inr, ◌⊎◌, List, [], ◌∷◌, ok, ◌>>=◌, ltb, ◌==◌, ==_iff, if◌then◌else◌,
  length,
}
use native.Mathlib.Decide.{dec_lt}
use libcs.Prelude.Int.{ℤ, pos, negsuc, sub_ℕ, ltb_ℤ, eqb_ℤ}
use libcs.Str.Word.Zero.{IsBytes}
use libcs.Prelude.Bits.{bit_xor-eq_zero, bit_or-eq_zero}
use libcs.Str.Search.{memcmp}
use libcs.Str.Search.Places.{memcmp-starts_with}
use libcs.Str.Compare.{bcmp_loop, timingsafe_bcmp, less_mask, memcmp_loop, timingsafe_memcmp}

-- The sign of a difference, as -1, 0 or 1.
abbrev pub sign : ℤ → ℤ
sign z = if ltb_ℤ z (pos 0) then negsuc 0 else (if ltb_ℤ (pos 0) z then pos 1 else pos 0)

abbrev all_ones : ℕ
all_ones = 2 ^ 32 - 1

less_mask_lem : (x y : ℕ) → x < 256 → y < 256 → less_mask x y ≡ (if ltb x y then all_ones else 0)
unfolding less_mask
less_mask_lem x y h k = ground arith

-- The masks of two bytes: one or the other is all ones, or neither.
data Masks (lt gt : ℕ) : Type 0 where
  less : lt ≡ all_ones → gt ≡ 0 → Masks lt gt
  same : lt ≡ 0 → gt ≡ 0 → Masks lt gt
  greater : lt ≡ 0 → gt ≡ all_ones → Masks lt gt

less_mask-Masks : (x y : ℕ) → x < 256 → y < 256 → Masks (less_mask x y) (less_mask y x)
less_mask-Masks x y h k = elim (dec_lt x y) [
  | yes l ↦ less (less_mask_lem x y h k ∙ ground arith) (less_mask_lem y x k h ∙ ground arith)
  | no m ↦ elim (dec_lt y x) [
    | yes g ↦ greater (less_mask_lem x y h k ∙ ground arith) (less_mask_lem y x k h ∙ ground arith)
    | no e ↦ same (less_mask_lem x y h k ∙ ground arith) (less_mask_lem y x k h ∙ ground arith)
  ]
]

abbrev Settled : ℕ → ℕ → ℕ → Type 0
Settled res lt gt =
    (bit_or res (bit_and ((lt + (2 ^ 32 - gt)) % 2 ^ 32) 0) ≡ res)
    × (bit_or all_ones (bit_or lt gt) ≡ all_ones)

settled : (res lt gt : ℕ) → (res ≡ 1) ⊎ (res ≡ all_ones) → Masks lt gt → Settled res lt gt
settled res lt gt (inl e) (less a b) = rw (e, a, b) (refl, refl)
settled res lt gt (inl e) (same a b) = rw (e, a, b) (refl, refl)
settled res lt gt (inl e) (greater a b) = rw (e, a, b) (refl, refl)
settled res lt gt (inr e) (less a b) = rw (e, a, b) (refl, refl)
settled res lt gt (inr e) (same a b) = rw (e, a, b) (refl, refl)
settled res lt gt (inr e) (greater a b) = rw (e, a, b) (refl, refl)

-- Once a byte has differed, `res` stays.
decided :
    (p q : List ℕ) (n res : ℕ)
    → IsBytes p
    → IsBytes q
    → n ≤ length p
    → n ≤ length q
    → (res ≡ 1) ⊎ (res ≡ all_ones)
    → memcmp_loop p q n res all_ones ≡ ok res
unfolding memcmp_loop
decided p q zero res b c h k l = refl
decided [] q (suc n) res b c h k l = absurd (omega arith)
decided (x ∷ p) [] (suc n) res b c h k l = absurd (omega arith)
decided (x ∷ p) (y ∷ q) (suc n) res b c h k l =
    let (r, d) = settled res (less_mask x y) (less_mask y x) l (less_mask-Masks x y b.0 c.0) in
    rw (r, d) (decided p q n res b.1 c.1 (omega arith) (omega arith) l)

-- The result as an `int`.
abbrev as_int : ℕ → ℤ
as_int res = if ltb res (2 ^ 31) then pos res else negsuc (2 ^ 32 - 1 - res)

undecided :
    (p q : List ℕ) (n : ℕ)
    → IsBytes p
    → IsBytes q
    → n ≤ length p
    → n ≤ length q
    → (memcmp_loop p q n 0 0 >>= λ res. ok (as_int res)) ≡ (memcmp p q n >>= λ d. ok (sign d))
unfolding memcmp_loop memcmp
undecided p q zero b c h k = refl
undecided [] q (suc n) b c h k = absurd (omega arith)
undecided (x ∷ p) [] (suc n) b c h k = absurd (omega arith)
undecided (x ∷ p) (y ∷ q) (suc n) b c h k = elim (dec_lt x y) [
  | yes l ↦
      let differ : (x == y) ≡ false = ground arith in
      let negative : sign (sub_ℕ x y) ≡ negsuc 0 = ground arith in
      let lt : less_mask x y ≡ all_ones = less_mask_lem x y b.0 c.0 ∙ ground arith in
      let gt : less_mask y x ≡ 0 = less_mask_lem y x c.0 b.0 ∙ ground arith in
      rw
        (
          lt,
          gt,
          decided p q n all_ones b.1 c.1 (omega arith) (omega arith) (inr refl),
          differ,
          negative,
        )
        refl
  | no m ↦ elim (dec_lt y x) [
    | yes g ↦
        let differ : (x == y) ≡ false = ground arith in
        let positive : sign (sub_ℕ x y) ≡ pos 1 = ground arith in
        let lt : less_mask x y ≡ 0 = less_mask_lem x y b.0 c.0 ∙ ground arith in
        let gt : less_mask y x ≡ all_ones = less_mask_lem y x c.0 b.0 ∙ ground arith in
        rw
          (lt, gt, decided p q n 1 b.1 c.1 (omega arith) (omega arith) (inl refl), differ, positive)
          refl
    | no e ↦
        let equal : (x == y) ≡ true = ground arith in
        let lt : less_mask x y ≡ 0 = less_mask_lem x y b.0 c.0 ∙ ground arith in
        let gt : less_mask y x ≡ 0 = less_mask_lem y x c.0 b.0 ∙ ground arith in
        rw (lt, gt, equal) (undecided p q n b.1 c.1 (omega arith) (omega arith))
  ]
]

-- `timingsafe_memcmp` of two buffers of at least `n` bytes gives the sign of what `memcmp` gives.
pub timingsafe_memcmp-memcmp :
    (p q : List ℕ) (n : ℕ)
    → IsBytes p
    → IsBytes q
    → n ≤ length p
    → n ≤ length q
    → timingsafe_memcmp p q n ≡ (memcmp p q n >>= λ d. ok (sign d))
unfolding timingsafe_memcmp
timingsafe_memcmp-memcmp p q n b c h k = undecided p q n b c h k

or_false : (t : Bool) → t ≡ (t || false)
or_false true = refl
or_false false = refl

or_true : (t : Bool) → (t || true) ≡ true
or_true true = refl
or_true false = refl

and_true : (t : Bool) → (t && true) ≡ t
and_true true = refl
and_true false = refl

and_false : (t : Bool) → (t && false) ≡ false
and_false true = refl
and_false false = refl

bcmp_loop-memcmp :
    (p q : List ℕ) (n r : ℕ)
    → IsBytes p
    → IsBytes q
    → n ≤ length p
    → n ≤ length q
    → r < 256
    → (bcmp_loop p q n r >>= λ v. ok (not (v == 0)))
      ≡ (memcmp p q n >>= λ d. ok (not (r == 0) || not (eqb_ℤ d (pos 0))))
unfolding bcmp_loop memcmp
bcmp_loop-memcmp p q zero r b c h k l = ap ok (or_false (not (r == 0)))
bcmp_loop-memcmp [] q (suc n) r b c h k l = absurd (omega arith)
bcmp_loop-memcmp (x ∷ p) [] (suc n) r b c h k l = absurd (omega arith)
bcmp_loop-memcmp (x ∷ p) (y ∷ q) (suc n) r b c h k l =
    let (byte, null) = bit_xor-eq_zero x y b.0 c.0 in
    let (next, is_null) = bit_or-eq_zero r (bit_xor x y) l byte in
    bcmp_loop-memcmp p q n (bit_or r (bit_xor x y)) b.1 c.1 (omega arith) (omega arith) next
    ∙ elim (Bool-cases (x == y)) [
      | inl equal ↦
          let z : (bit_xor x y == 0) ≡ true =
            (==_iff (bit_xor x y) 0).1 (null.1 ((==_iff x y).0 equal)) in
          rw (is_null, equal, z, and_true (r == 0)) refl
      | inr differ ↦
          let (d, e, _) = memcmp-starts_with p q n (omega arith) (omega arith) in
          let z : (bit_xor x y == 0) ≡ false = ground (arith, null) in
          let w : eqb_ℤ (sub_ℕ x y) (pos 0) ≡ false = ground arith in
          rw (is_null, differ, e, z, w, and_false (r == 0), or_true (not (r == 0))) refl
    ]

-- `timingsafe_bcmp` of two buffers of at least `n` bytes tells whether `memcmp` does not give 0.
pub timingsafe_bcmp-memcmp :
    (p q : List ℕ) (n : ℕ)
    → IsBytes p
    → IsBytes q
    → n ≤ length p
    → n ≤ length q
    → timingsafe_bcmp p q n ≡ (memcmp p q n >>= λ d. ok (not (eqb_ℤ d (pos 0))))
unfolding timingsafe_bcmp
timingsafe_bcmp-memcmp p q n b c h k = bcmp_loop-memcmp p q n 0 b c h k (omega arith)
