-- ===== src/Str/Compare.antt =====
-- src/string.c: comparison of strings, and the comparisons whose time does not depend on the bytes.
pub mod Laws
pub mod Timing
mod Examples
use Prim.Native.Nat.{bit_and, bit_or, bit_xor}
use libcs.Prelude.{
  ℕ, zero, suc, ◌+◌, ◌-◌, ◌/◌, ◌%◌, ◌^◌, Bool, not, ◌&&◌, List, [], ◌∷◌, Run, ok, fault, ◌>>=◌, ltb,
  ◌==◌, if◌then◌else◌,
}
use libcs.Prelude.Int.{ℤ, pos, negsuc, sub_ℕ}

-- `strcmp(l, r)`.
unfoldable pub strcmp : List ℕ → List ℕ → Run ℤ
strcmp [] r = fault
strcmp (x ∷ l) [] = fault
strcmp (x ∷ l) (y ∷ r) =
    let rest = strcmp l r in if (x == y) && not (x == 0) then rest else ok (sub_ℕ x y)

-- The loop of `strncmp`, after `n--`.
unfoldable pub strncmp_loop : List ℕ → List ℕ → ℕ → Run ℤ
strncmp_loop [] r n = fault
strncmp_loop (x ∷ l) [] n = fault
strncmp_loop (x ∷ l) (y ∷ r) zero = ok (sub_ℕ x y)
strncmp_loop (x ∷ l) (y ∷ r) (suc n) =
    let rest = strncmp_loop l r n in
    if not (x == 0) && not (y == 0) && (x == y) then rest else ok (sub_ℕ x y)

-- `strncmp(l, r, n)`.
unfoldable pub strncmp : List ℕ → List ℕ → ℕ → Run ℤ
strncmp l r zero = ok (pos 0)
strncmp l r (suc n) = strncmp_loop l r n

-- The loop of `timingsafe_bcmp`, and the function.
unfoldable pub bcmp_loop : List ℕ → List ℕ → ℕ → ℕ → Run ℕ
bcmp_loop p q zero r = ok r
bcmp_loop [] q (suc n) r = fault
bcmp_loop (x ∷ p) [] (suc n) r = fault
bcmp_loop (x ∷ p) (y ∷ q) (suc n) r = bcmp_loop p q n (bit_or r (bit_xor x y))

unfoldable pub timingsafe_bcmp : List ℕ → List ℕ → ℕ → Run Bool
timingsafe_bcmp p q n = bcmp_loop p q n 0 >>= λ r. ok (not (r == 0))

-- `(a - b) >> 8` of two bytes, and the other `int` values of `timingsafe_memcmp`, by their 32 bits.
unfoldable pub less_mask : ℕ → ℕ → ℕ
less_mask a b = elim (sub_ℕ a b) [ pos d ↦ d / 256 | negsuc d ↦ 2 ^ 32 - 1 - d / 256 ]

-- The loop of `timingsafe_memcmp`, with `res` and `done`.
unfoldable pub memcmp_loop : List ℕ → List ℕ → ℕ → ℕ → ℕ → Run ℕ
memcmp_loop p q zero res done = ok res
memcmp_loop [] q (suc n) res done = fault
memcmp_loop (x ∷ p) [] (suc n) res done = fault
memcmp_loop (x ∷ p) (y ∷ q) (suc n) res done =
    let lt = less_mask x y in
    let gt = less_mask y x in
    let cmp = (lt + (2 ^ 32 - gt)) % 2 ^ 32 in
    memcmp_loop p q n (bit_or res (bit_and cmp (2 ^ 32 - 1 - done))) (bit_or done (bit_or lt gt))

-- `timingsafe_memcmp(a, b, n)`.
unfoldable pub timingsafe_memcmp : List ℕ → List ℕ → ℕ → Run ℤ
timingsafe_memcmp p q n = memcmp_loop p q n 0 0 >>= λ res.
    ok (if ltb res (2 ^ 31) then pos res else negsuc (2 ^ 32 - 1 - res))
