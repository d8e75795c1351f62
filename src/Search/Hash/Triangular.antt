-- ===== src/Search/Hash/Triangular.antt =====
-- src/search.c: the slots that hsearch probes. The steps grow by one, so that the distances are the triangular
-- numbers, which are all different modulo a power of two.
use native.Mathlib.Nat.{mod-add-mod, mod-add-div, pow-suc}
use native.Mathlib.Decide.{dec_le}
use libcs.Prelude.{
  ℕ, zero, suc, ◌+◌, ◌-◌, ◌*◌, ◌/◌, ◌%◌, ◌^◌, ◌<◌, ◌≤◌, ◌≡◌, ◌≢◌, arith, ap, ◌∙◌, sym, ◌⊎◌, inl,
  inr,
}

unfoldable pub triangle : ℕ → ℕ
triangle zero = 0
triangle (suc n) = triangle n + suc n

-- The slot probed after `n` steps, from the hash `h`.
unfoldable pub nth : (size h n : ℕ) → ℕ
nth size h n = (h + triangle n) % size

pub nth-zero : (size h : ℕ) → h % size ≡ nth size h 0
unfolding nth triangle
nth-zero size h = ap (λ (x : ℕ). x % size) (omega arith)

pub nth-suc : (size h n : ℕ) → (nth size h n + suc n) % size ≡ nth size h (suc n)
unfolding nth triangle
nth-suc size h n =
    mod-add-mod (h + triangle n) size (suc n) ∙ ap (λ (x : ℕ). x % size) (omega arith)

triangle_difference : (i d : ℕ) → 2 * triangle (i + d) ≡ 2 * triangle i + d * (2 * i + d + 1)
unfolding triangle
triangle_difference i zero = let same : i + 0 ≡ i = omega arith in omega (arith, ap triangle same)
triangle_difference i (suc d) =
    let same : i + suc d ≡ suc (i + d) = omega arith in
    let next : triangle (i + suc d) ≡ triangle (i + d) + (i + suc d) =
      omega (arith, ap triangle same) in
    let wider : suc d * (2 * i + suc d + 1) ≡ d * (2 * i + d + 1) + 2 * (i + suc d) = grind arith in
    omega (arith, next, wider, triangle_difference i d)

twice_pow : (k q : ℕ) → 2 ^ suc k * q ≡ 2 * (2 ^ k * q)
twice_pow k q = omega (arith, ap (λ (x : ℕ). x * q) (pow-suc 2 k))

odd_factor : (k u b q : ℕ) → (2 * u + 1) * b ≡ 2 ^ k * q → (q' : ℕ) × (b ≡ 2 ^ k * q')
odd_factor zero u b q e = (b, omega arith)
odd_factor (suc k) u b q e =
    let split : (2 * u + 1) * b ≡ 2 * (u * b) + b = grind arith in
    let even : b ≡ 2 * (b / 2) = omega (arith, twice_pow k q) in
    let split' : (2 * u + 1) * (b / 2) ≡ 2 * (u * (b / 2)) + b / 2 = grind arith in
    let halved : u * b ≡ 2 * (u * (b / 2)) = omega (arith, ap (λ (x : ℕ). u * x) even) in
    let (q', f) = odd_factor k u (b / 2) q (omega (arith, twice_pow k q)) in
    (q', omega (arith, twice_pow k q'))

-- A positive multiple of `2 ^ k` is not below it.
multiple-le : (k b q : ℕ) → b ≡ 2 ^ k * q → 0 < b → 2 ^ k ≤ b
multiple-le k b zero e h = absurd (omega arith)
multiple-le k b (suc q) e h = grind arith

product_not_multiple :
    (k i d q : ℕ) → 0 < d → i + d < 2 ^ k → d * (2 * i + d + 1) ≡ 2 ^ suc k * q → ⊥
product_not_multiple k i d q pos_d small e = elim (parity d) [
  | inl even ↦
      let v = i + d / 2 in
      let odd : 2 * i + d + 1 ≡ 2 * v + 1 = omega arith in
      let e' : (2 * v + 1) * d ≡ 2 ^ suc k * q = omega (arith, e, ap (λ (x : ℕ). d * x) odd) in
      let (q', f) = odd_factor (suc k) v d q e' in
      omega (arith, multiple-le (suc k) d q' f pos_d, pow-suc 2 k)
  | inr odd ↦
      let u = d / 2 in
      let split : d ≡ 2 * u + 1 = omega arith in
      let e' : (2 * u + 1) * (2 * i + d + 1) ≡ 2 ^ suc k * q =
        ap (λ (x : ℕ). x * (2 * i + d + 1)) (sym split) ∙ e in
      let (q', f) = odd_factor (suc k) u (2 * i + d + 1) q e' in
      omega (arith, multiple-le (suc k) (2 * i + d + 1) q' f (omega arith), pow-suc 2 k)
]
  where
    parity : (d : ℕ) → (d % 2 ≡ 0) ⊎ (d % 2 ≡ 1)
    parity d = ground arith

-- Numbers with the same remainder differ by a multiple.
same_remainder : (m a b : ℕ) → 0 < m → a ≤ b → a % m ≡ b % m → (q : ℕ) × (b ≡ a + m * q)
same_remainder m a b pos_m le e = elim (dec_le (a / m) (b / m)) [
  | yes h ↦
      let q = b / m - a / m in
      let sum : b / m ≡ a / m + q = omega arith in
      let spread : m * (a / m + q) ≡ m * (a / m) + m * q = grind arith in
      (q, omega (arith, mod-add-div a m, mod-add-div b m, ap (λ (x : ℕ). m * x) sum, spread, e))
  | no h ↦
      let q = a / m - suc (b / m) in
      let sum : a / m ≡ b / m + suc q = omega arith in
      let spread : m * (b / m + suc q) ≡ m * (b / m) + m * q + m = grind arith in
      absurd (omega (arith, mod-add-div a m, mod-add-div b m, ap (λ (x : ℕ). m * x) sum, spread, e))
]

-- The first `2 ^ k` slots probed are all different.
pub nth-ne : (k h i j : ℕ) → i < j → j < 2 ^ k → nth (2 ^ k) h i ≢ nth (2 ^ k) h j
unfolding nth
nth-ne k h i j less small e =
    let d = j - i in
    let sum : j ≡ i + d = omega arith in
    let apart : 2 * triangle j ≡ 2 * triangle i + d * (2 * i + d + 1) =
      ap (λ (x : ℕ). 2 * triangle x) sum ∙ triangle_difference i d in
    let (q, f) =
      same_remainder (2 ^ k) (h + triangle i) (h + triangle j) (omega arith) (omega (arith, apart))
        e in
    product_not_multiple k i d q (omega arith) (omega arith)
      (omega (arith, apart, f, twice_pow k q))
