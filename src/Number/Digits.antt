-- ===== src/Number/Digits.antt =====
-- src/strtol.c: the digits of a byte and the loop over them, against a plain reading of a numeral.
use native.Mathlib.Decide.{dec_lt}
use libcs.Prelude.{
  ℕ, zero, suc, ◌+◌, ◌-◌, ◌*◌, ◌%◌, ◌^◌, ◌≡◌, ◌<◌, ◌≤◌, refl, arith, ◌∙◌, Bool, true, false, ◌&&◌,
  ◌||◌, List, [], ◌∷◌, ◌++◌, ok, ltb, leb, ◌==◌, ==_iff, if◌then◌else◌, length,
}
use libcs.Prelude.Bits.{all_below, all_below-lt}
use libcs.Number.{digit_val, accumulate, digits_loop}

-- The value of a byte that is a digit or a letter.
abbrev pub digit_of : ℕ → ℕ
digit_of c = if leb 97 c then c - 87 else (if leb 65 c then c - 55 else c - 48)

abbrev pub is_alnum : ℕ → Bool
is_alnum c = (leb 48 c && leb c 57) || ((leb 65 c && leb c 90) || (leb 97 c && leb c 122))

-- A byte that is a digit of the base.
abbrev pub is_digit : ℕ → ℕ → Bool
is_digit base c = is_alnum c && ltb (digit_of c) base

digit_table : all_below 256 (λ c. digit_val c == (if is_alnum c then digit_of c else 99)) ≡ true
unfolding all_below digit_val
digit_table = refl

digit_val_lem : (c : ℕ) → c < 256 → digit_val c ≡ (if is_alnum c then digit_of c else 99)
digit_val_lem c h =
    (==_iff (digit_val c) (if is_alnum c then digit_of c else 99)).0 (
      all_below-lt 256 (λ c. digit_val c == (if is_alnum c then digit_of c else 99)) c digit_table
        h)

pub digit_val-is_digit :
    (base c : ℕ) → base ≤ 36 → c < 256 → ltb (digit_val c) base ≡ is_digit base c
digit_val-is_digit base c b h = rw (digit_val_lem c h) (by_alnum (is_alnum c) (digit_of c) base b)
  where
    by_alnum :
        (t : Bool) (d base : ℕ) → base ≤ 36 → ltb (if t then d else 99) base ≡ (t && ltb d base)
    by_alnum true d base b = refl
    by_alnum false d base b = ground arith

pub digit_val-digit_of : (base c : ℕ) → c < 256 → is_digit base c ≡ true → digit_val c ≡ digit_of c
digit_val-digit_of base c h d = digit_val_lem c h ∙ by_alnum (is_alnum c) (ltb (digit_of c) base) d
  where
    by_alnum : (t u : Bool) → (t && u) ≡ true → (if t then digit_of c else 99) ≡ digit_of c
    by_alnum true u h = refl
    by_alnum false u h = absurd (cc)

-- The value of a numeral, read from the left after the value `v`.
abbrev pub number : ℕ → ℕ → List ℕ → ℕ
number base v [] = v
number base v (c ∷ ds) = number base (v * base + digit_of c) ds

-- Bytes that are digits of the base.
abbrev pub AreDigits : ℕ → List ℕ → Type 0
AreDigits base [] = Unit
AreDigits base (c ∷ ds) = (c < 256) × (is_digit base c ≡ true) × AreDigits base ds

-- `acc` and `ovf` hold `v`: the flag tells whether it fits, and the accumulator is `v` if it does.
abbrev pub Holds : ℕ → ℕ → Bool → Type 0
Holds v acc ovf = (ovf ≡ leb (2 ^ 64) v) × (v < 2 ^ 64 → acc ≡ v)

grows : (v base d : ℕ) → 1 ≤ base → v ≤ v * base + d
grows v zero d h = absurd (omega arith)
grows v (suc base) d h = omega arith

abbrev add_digit : ℕ → ℕ → ℕ × Bool
add_digit w d =
    if leb (2 ^ 64) w then (w % 2 ^ 64, true) else ((w + d) % 2 ^ 64, leb (2 ^ 64) (w + d))

small_sum :
    (v w d : ℕ) → v < 2 ^ 64 → Holds (w + d) (add_digit w d).0 (leb (2 ^ 64) v || (add_digit w d).1)
small_sum v w d k = (ground arith, λ l. ground arith)

accumulate_lem :
    (base v acc d : ℕ) (ovf : Bool)
    → 1 ≤ base
    → Holds v acc ovf
    → Holds (v * base + d) (accumulate base acc d).0 (ovf || (accumulate base acc d).1)
unfolding accumulate
accumulate_lem base v acc d ovf b (flag, fits) = elim (dec_lt v (2 ^ 64)) [
  | yes k ↦ rw (flag, fits k) (small_sum v (v * base) d k)
  | no k ↦ large (v * base + d) (add_digit (acc * base) d).1 (grows v base d b) (omega arith)
]
  where
    large :
        (w : ℕ) (o : Bool)
        → v ≤ w
        → 2 ^ 64 ≤ v
        → ((ovf || o) ≡ leb (2 ^ 64) w) × (w < 2 ^ 64 → (add_digit (acc * base) d).0 ≡ w)
    large w o h k = (ground arith, λ l. absurd (omega arith))

-- The loop over a numeral's digits: it passes them all, and the accumulator holds their value.
pub digits_loop_lem :
    (base v acc : ℕ) (ovf : Bool) (ds : List ℕ) (c : ℕ) (rest : List ℕ)
    → 1 ≤ base
    → base ≤ 36
    → AreDigits base ds
    → c < 256
    → is_digit base c ≡ false
    → Holds v acc ovf
    → (a : ℕ) × (o : Bool) × (digits_loop base acc ovf (ds ++ c ∷ rest) ≡ ok (a, o, length ds))
      × Holds (number base v ds) a o
unfolding digits_loop
digits_loop_lem base v acc ovf [] c rest b1 b36 all byte stop h =
    (acc, ovf, rw (digit_val-is_digit base c b36 byte, stop) refl, h)
digits_loop_lem base v acc ovf (d ∷ ds) c rest b1 b36 (small, digit, all) byte stop h =
    let value = digit_val-digit_of base d small digit in
    let next = accumulate_lem base v acc (digit_of d) ovf b1 h in
    let (a, o, e, holds) =
      digits_loop_lem base (v * base + digit_of d) (accumulate base acc (digit_of d)).0
        (ovf || (accumulate base acc (digit_of d)).1) ds c rest b1 b36 all byte stop next in
    (a, o, rw (digit_val-is_digit base d b36 small, digit, value, e) refl, holds)
