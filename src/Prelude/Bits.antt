-- ===== src/Prelude/Bits.antt =====
-- `&` and `^` on the fields of a word: an operation on binary digits acts on each field alone.
use Prim.Native.Nat.{
  digits, bitwise, differ, bit_and, bit_or, bit_xor, bit_and-bitwise, bit_xor-bitwise,
}
use native.Mathlib.Nat.{pow-suc}
use libcs.Prelude.{
  ℕ, zero, suc, ◌+◌, ◌-◌, ◌*◌, ◌/◌, ◌%◌, ◌^◌, ◌≤◌, ◌<◌, ◌≡◌, refl, arith, min, ap, ap₂, ◌∙◌, sym,
  Bool, true, ◌&&◌, not, ltb, ◌==◌, ==_iff, if◌then◌else◌, ◌↔◌,
}

-- An operation `f` on digits, with `z` where the first number has run out.
module _ (z : ℕ → ℕ) (f : ℕ → ℕ → ℕ) where
  digits_fuel : (n m a b : ℕ) → a ≤ n → a ≤ m → digits z f n a b ≡ digits z f m a b
  digits_fuel n m zero b h k = first n ∙ sym (first m)
    where
      first : (n : ℕ) → digits z f n 0 b ≡ z b
      first zero = refl
      first (suc n) = refl
  digits_fuel zero m (suc a) b h k = absurd (omega arith)
  digits_fuel (suc n) zero (suc a) b h k = absurd (omega arith)
  digits_fuel (suc n) (suc m) (suc a) b h k =
      ap (λ (q : ℕ). q * 2 + f (suc a % 2) (b % 2))
        (digits_fuel n m (suc a / 2) (b / 2) (omega arith) (omega arith))

  module _ (unit : (b : ℕ) → z b ≡ z (b / 2) * 2 + f 0 (b % 2)) (none : z 0 ≡ 0) where
    bitwise_digit :
        (a b : ℕ) → bitwise z f a b ≡ bitwise z f (a / 2) (b / 2) * 2 + f (a % 2) (b % 2)
    bitwise_digit zero b = unit b
    bitwise_digit (suc a) b =
        ap (λ (q : ℕ). q * 2 + f (suc a % 2) (b % 2))
          (digits_fuel a (suc a / 2) (suc a / 2) (b / 2) (omega arith) (omega arith))

    bitwise_fields :
        (k a b x y : ℕ)
        → x < 2 ^ k
        → y < 2 ^ k
        → bitwise z f (a * 2 ^ k + x) (b * 2 ^ k + y) ≡ bitwise z f a b * 2 ^ k + bitwise z f x y
    bitwise_fields zero a b x y h k =
        let ex : a * 1 + x ≡ a = omega arith in
        let ey : b * 1 + y ≡ b = omega arith in
        let x0 : x ≡ 0 = omega arith in
        let y0 : y ≡ 0 = omega arith in
        ap₂ (bitwise z f) ex ey ∙ omega (arith, ap₂ (bitwise z f) x0 y0, none)
    bitwise_fields (suc k) a b x y h h' =
        bitwise_digit (a * 2 ^ suc k + x) (b * 2 ^ suc k + y)
        ∙ ap₂ (λ (p q : ℕ). p * 2 + q) (ap₂ (bitwise z f) (half a x) (half b y))
            (ap₂ f (low a x) (low b y))
        ∙ omega (
          arith,
          bitwise_fields k a b (x / 2) (y / 2) (omega (arith, pow-suc 2 k))
              (omega (arith, pow-suc 2 k)),
          bitwise_digit x y,
          twice (bitwise z f a b),
        )
      where
        twice : (t : ℕ) → t * 2 ^ suc k ≡ 2 * (t * 2 ^ k)
        twice t = omega (arith, ap (λ (q : ℕ). t * q) (pow-suc 2 k))

        half : (t u : ℕ) → (t * 2 ^ suc k + u) / 2 ≡ t * 2 ^ k + u / 2
        half t u = omega (arith, twice t)

        low : (t u : ℕ) → (t * 2 ^ suc k + u) % 2 ≡ u % 2
        low t u = omega (arith, twice t)

-- `&` and `^` on a low byte and what is above it.
pub bit_and-byte :
    (a b x y : ℕ)
    → x < 256
    → y < 256
    → bit_and (a * 256 + x) (b * 256 + y) ≡ bit_and a b * 256 + bit_and x y
bit_and-byte a b x y h k =
    simp bit_and-bitwise (bitwise_fields (λ b. 0) min (λ b. omega arith) refl 8 a b x y h k)

xor_unit : (b : ℕ) → b ≡ b / 2 * 2 + differ 0 (b % 2)
xor_unit b = omega arith

pub bit_xor-byte :
    (a b x y : ℕ)
    → x < 256
    → y < 256
    → bit_xor (a * 256 + x) (b * 256 + y) ≡ bit_xor a b * 256 + bit_xor x y
bit_xor-byte a b x y h k =
    simp bit_xor-bitwise (bitwise_fields (λ b. b) differ xor_unit refl 8 a b x y h k)

-- Every value below a bound, by evaluation.
unfoldable pub all_below : ℕ → (ℕ → Bool) → Bool
all_below zero p = true
all_below (suc n) p = p n && all_below n p

pub all_below-lt : (n : ℕ) (p : ℕ → Bool) (x : ℕ) → all_below n p ≡ true → x < n → p x ≡ true
unfolding all_below
all_below-lt zero p x h lt = absurd (omega arith)
all_below-lt (suc n) p x h lt = ground (arith, all_below-lt n p x)

and_table : all_below 256 (λ x. all_below 256 (λ y. ltb (bit_and x y) 256)) ≡ true
unfolding all_below
and_table = refl

pub bit_and-lt : (x y : ℕ) → x < 256 → y < 256 → bit_and x y < 256
bit_and-lt x y h k =
    let row = all_below-lt 256 (λ x. all_below 256 (λ y. ltb (bit_and x y) 256)) x and_table h in
    let cell = all_below-lt 256 (λ y. ltb (bit_and x y) 256) y row k in ground arith

-- The marker of a null byte: the top bit of `(b - 1) & ~b`.
marker_table : all_below 255 (λ b. bit_and (bit_and b (254 - b)) 128 == 0) ≡ true
unfolding all_below
marker_table = refl

pub bit_and-marker : (b : ℕ) → 1 ≤ b → b < 256 → bit_and (bit_and (b - 1) (255 - b)) 128 ≡ 0
bit_and-marker b h k =
    let e : 255 - b ≡ 254 - (b - 1) = omega arith in
    rw e ((==_iff _ 0).0 (all_below-lt 255 _ (b - 1) marker_table (omega arith)))

xor_test : ℕ → ℕ → Bool
xor_test x y =
    ltb (bit_xor x y) 256 && (if x == y then bit_xor x y == 0 else not (bit_xor x y == 0))

xor_table : all_below 256 (λ x. all_below 256 (λ y. xor_test x y)) ≡ true
unfolding all_below xor_test
xor_table = refl

-- The exclusive or of two bytes is a byte, and null exactly if they are the same.
pub bit_xor-eq_zero :
    (x y : ℕ) → x < 256 → y < 256 → (bit_xor x y < 256) × ((bit_xor x y ≡ 0) ↔ (x ≡ y))
unfolding xor_test
bit_xor-eq_zero x y h k =
    let row = all_below-lt 256 (λ x. all_below 256 (λ y. xor_test x y)) x xor_table h in
    let cell = all_below-lt 256 (λ y. xor_test x y) y row k in ground arith

or_test : ℕ → ℕ → Bool
or_test x y =
    ltb (bit_or x y) 256
    && (if (x == 0) && (y == 0) then bit_or x y == 0 else not (bit_or x y == 0))

or_table : all_below 256 (λ x. all_below 256 (λ y. or_test x y)) ≡ true
unfolding all_below or_test
or_table = refl

-- The inclusive or of two bytes is a byte, and null exactly if both are.
pub bit_or-eq_zero :
    (x y : ℕ)
    → x < 256
    → y < 256
    → (bit_or x y < 256) × ((bit_or x y == 0) ≡ ((x == 0) && (y == 0)))
unfolding or_test
bit_or-eq_zero x y h k =
    let row = all_below-lt 256 (λ x. all_below 256 (λ y. or_test x y)) x or_table h in
    let cell = all_below-lt 256 (λ y. or_test x y) y row k in (ground arith, ground arith)
