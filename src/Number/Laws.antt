-- ===== src/Number/Laws.antt =====
-- src/strtol.c: what the conversions return for a numeral with blanks, a sign and a prefix before it.
use libcs.Prelude.{
  ℕ, suc, ◌+◌, ◌-◌, ◌%◌, ◌^◌, ◌≡◌, ◌<◌, ◌≤◌, refl, arith, Bool, true, false, ◌||◌, inl, inr,
  Bool-cases, Option, none, some, List, ◌∷◌, ◌++◌, ok, ltb, leb, leb→le, ◌==◌, if◌then◌else◌,
  length,
}
use libcs.Prelude.Int.{ℤ, pos, negsuc, sub_ℕ, ltb_ℤ}
use libcs.Number.{Errno, erange, in_range, strtox, to_signed, long_max, strtoll, strtoull}
use libcs.Number.Digits.{digit_of, is_alnum, is_digit, number, AreDigits, Holds, digits_loop_lem}
use libcs.Number.Pieces.{
  AreBlank, Sign, sign_bytes, negative, Form, take_prefix_lem, and-left, lead, good_base,
}

-- The integer that a numeral with a sign stands for.
abbrev pub signed : Bool → ℕ → ℤ
signed neg v = if neg then sub_ℕ 0 v else pos v

-- Whether an integer is outside the 64-bit range, and the nearest integer inside it.
abbrev pub exceeds : ℤ → Bool
exceeds z = ltb_ℤ (pos long_max) z || ltb_ℤ z (negsuc long_max)

abbrev pub saturate : ℤ → ℤ
saturate z =
    if ltb_ℤ (pos long_max) z
    then pos long_max
    else (if ltb_ℤ z (negsuc long_max) then negsuc long_max else z)

abbrev signed_range : Bool → ℕ → Option Errno × ℕ
signed_range neg v = in_range true long_max neg (v % 2 ^ 64) (leb (2 ^ 64) v)

in_range_fits :
    (neg : Bool) (v a : ℕ) (o : Bool)
    → Holds v a o
    → (to_signed (in_range true long_max neg a o).1 ≡ saturate (signed neg v))
      × ((in_range true long_max neg a o).0
          ≡ (if exceeds (signed neg v) then some erange else none))
unfolding in_range
in_range_fits neg v a o (flag, fits) = elim (Bool-cases (leb (2 ^ 64) v)) [
  | inl big ↦ rw (flag, big) (beyond neg v (leb→le (2 ^ 64) v big))
  | inr small ↦ rw (flag, small, fits (ground arith)) (within neg v (ground arith))
]
  where
    beyond :
        (neg : Bool) (v : ℕ)
        → 2 ^ 64 ≤ v
        → (to_signed (if neg then (2 ^ 64 - long_max + (2 ^ 64 - 1)) % 2 ^ 64 else long_max)
            ≡ saturate (signed neg v))
          × (some erange ≡ (if exceeds (signed neg v) then some erange else none))
    beyond true v h = (ground arith, ground arith)
    beyond false v h = (ground arith, ground arith)

    within :
        (neg : Bool) (v : ℕ)
        → v < 2 ^ 64
        → (to_signed (in_range true long_max neg v false).1 ≡ saturate (signed neg v))
          × ((in_range true long_max neg v false).0
              ≡ (if exceeds (signed neg v) then some erange else none))
    within true v h = (ground arith, ground arith)
    within false v h = (ground arith, ground arith)

-- The conversion of a numeral, up to the checks of its range.
strtox_lem :
    {b base : ℕ} {pre : List ℕ} (blank : List ℕ) (sign : Sign) (d : ℕ) (ds : List ℕ) (c : ℕ)
    (rest : List ℕ) (is_signed : Bool) (max : ℕ)
    → AreBlank blank
    → Form b base pre d
    → AreDigits base (d ∷ ds)
    → c < 256
    → is_digit base c ≡ false
    → (a : ℕ) × (o : Bool) × (strtox
          (blank ++ (sign_bytes sign ++ (pre ++ d ∷ (ds ++ c ∷ rest))))
          (pos b)
          is_signed
          max
        ≡ ok (record {
          end = length blank + length (sign_bytes sign) + length pre + suc (length ds);
          errno = (in_range is_signed max (negative sign) a o).0;
          value = (in_range is_signed max (negative sign) a o).1;
        }))
      × Holds (number base 0 (d ∷ ds)) a o
unfolding strtox
strtox_lem {base = base} blank sign d ds c rest is_signed max blanks form all byte stop =
    let (good, b1, b36) = good_base form in
    let (spaces, signs) =
      lead blank sign (ds ++ c ∷ rest) blanks form all.0
        (and-left (is_alnum d) (ltb (digit_of d) base) all.1) in
    let (a, o, e, holds) =
      digits_loop_lem base 0 0 false (d ∷ ds) c rest b1 b36 all byte stop (refl, λ h. refl) in
    (
      a,
      o,
      rw
          (
            good,
            spaces,
            signs,
            take_prefix_lem (ds ++ c ∷ rest) form all.0 all.1,
            e,
            nonempty (length ds),
          )
          refl,
      holds,
    )
  where
    nonempty : (n : ℕ) → (suc n == 0) ≡ false
    nonempty n = ground arith

-- A numeral with blanks, a sign and a "0x" before it, up to a byte that is no digit of its base: `strtoll`
-- gives its value, or the nearest 64-bit integer with ERANGE exactly if the value is outside the range,
-- and the end pointer is behind the last digit. Left out are base 8 chosen from a leading zero, and base
-- 16 with a leading zero but no "0x".
pub strtoll-number :
    {b base : ℕ} {pre : List ℕ} (blank : List ℕ) (sign : Sign) (d : ℕ) (ds : List ℕ) (c : ℕ)
    (rest : List ℕ)
    → AreBlank blank
    → Form b base pre d
    → AreDigits base (d ∷ ds)
    → c < 256
    → is_digit base c ≡ false
    → let z = signed (negative sign) (number base 0 (d ∷ ds)) in
      strtoll (blank ++ (sign_bytes sign ++ (pre ++ d ∷ (ds ++ c ∷ rest)))) (pos b)
      ≡ ok (record {
        end = length blank + length (sign_bytes sign) + length pre + suc (length ds);
        errno = if exceeds z then some erange else none;
        value = saturate z;
      })
unfolding strtoll
strtoll-number {base = base} blank sign d ds c rest blanks form all byte stop =
    let (a, o, e, holds) =
      strtox_lem blank sign d ds c rest true long_max blanks form all byte stop in
    let (value, error) = in_range_fits (negative sign) (number base 0 (d ∷ ds)) a o holds in
    rw (e, value, error) refl

unsigned_fits :
    (neg : Bool) (v a : ℕ) (o : Bool)
    → Holds v a o
    → in_range false (2 ^ 64 - 1) neg a o ≡ (
        if leb (2 ^ 64) v
        then (some erange, 2 ^ 64 - 1)
        else (none, if neg then (2 ^ 64 - v) % 2 ^ 64 else v))
unfolding in_range
unsigned_fits neg v a o (flag, fits) = elim (Bool-cases (leb (2 ^ 64) v)) [
  | inl big ↦ rw (flag, big) refl
  | inr small ↦ rw (flag, small, fits (ground arith), below (ground arith)) refl
]
  where
    below : v < 2 ^ 64 → ltb (2 ^ 64 - 1) v ≡ false
    below h = ground arith

-- The same numerals, unsigned: `strtoull` gives the value, negated modulo 2 ^ 64 after a minus sign, or
-- the greatest value with ERANGE exactly if the numeral itself is not below 2 ^ 64.
pub strtoull-number :
    {b base : ℕ} {pre : List ℕ} (blank : List ℕ) (sign : Sign) (d : ℕ) (ds : List ℕ) (c : ℕ)
    (rest : List ℕ)
    → AreBlank blank
    → Form b base pre d
    → AreDigits base (d ∷ ds)
    → c < 256
    → is_digit base c ≡ false
    → let v = number base 0 (d ∷ ds) in
      strtoull (blank ++ (sign_bytes sign ++ (pre ++ d ∷ (ds ++ c ∷ rest)))) (pos b)
      ≡ ok (record {
        end = length blank + length (sign_bytes sign) + length pre + suc (length ds);
        errno = if leb (2 ^ 64) v then some erange else none;
        value =
            if leb (2 ^ 64) v
            then 2 ^ 64 - 1
            else (if negative sign then (2 ^ 64 - v) % 2 ^ 64 else v);
      })
unfolding strtoull
strtoull-number {base = base} blank sign d ds c rest blanks form all byte stop =
    let v = number base 0 (d ∷ ds) in
    let (a, o, e, holds) =
      strtox_lem blank sign d ds c rest false (2 ^ 64 - 1) blanks form all byte stop in
    elim (Bool-cases (leb (2 ^ 64) v)) [
      | inl big ↦ rw (e, unsigned_fits (negative sign) v a o holds, big) refl
      | inr small ↦ rw (e, unsigned_fits (negative sign) v a o holds, small) refl
    ]
