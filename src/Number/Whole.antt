-- ===== src/Number/Whole.antt =====
-- src/strtol.c: the conversions of decimal strings as a whole, `atoi` and `strtonum`.
use libcs.Prelude.{
  ℕ, suc, ◌+◌, ◌-◌, ◌^◌, ◌≡◌, ◌<◌, refl, arith, ap, ◌∙◌, Bool, true, false, not, ◌&&◌, ◌||◌, inl,
  inr, Bool-cases, Option, none, some, List, [], ◌∷◌, ◌++◌, ok, ◌==◌, if◌then◌else◌, length,
  get_elem?,
}
use libcs.Prelude.Int.{ℤ, pos, negsuc, ltb_ℤ, eqb_ℤ, ◌≤ℤ◌}
use libcs.Number.{
  Errno, einval, erange, long_max, atoi, invalid, too_small, too_large, Verdict, refuses,
  range_error, strtonum_check, strtonum,
}
use libcs.Number.Digits.{is_digit, number, AreDigits}
use libcs.Number.Pieces.{AreBlank, Sign, sign_bytes, negative, plain}
use libcs.Number.Laws.{signed, exceeds, saturate, strtoll-number}

-- The nearest `int`.
abbrev pub saturate_int : ℤ → ℤ
saturate_int z =
    if ltb_ℤ (pos (2 ^ 31 - 1)) z
    then pos (2 ^ 31 - 1)
    else (if ltb_ℤ z (negsuc (2 ^ 31 - 1)) then negsuc (2 ^ 31 - 1) else z)

-- What `strtonum` promises for the integer `z`.
abbrev pub verdict_of : ℤ → ℤ → ℤ → Verdict
verdict_of minval maxval z =
    if ltb_ℤ maxval minval
    then refuses invalid einval
    else (if ltb_ℤ z minval
        then refuses too_small erange
        else (if ltb_ℤ maxval z
            then refuses too_large erange
            else record { err = none; errno = none; value = z }))

-- The tests of `strtonum_check` between the limits.
abbrev judge : ℤ → ℤ → Option Errno → ℤ → Verdict
judge minval maxval e v =
    if ltb_ℤ maxval minval
    then refuses invalid einval
    else (if (eqb_ℤ v (negsuc long_max) && range_error e) || ltb_ℤ v minval
        then refuses too_small erange
        else (if (eqb_ℤ v (pos long_max) && range_error e) || ltb_ℤ maxval v
            then refuses too_large erange
            else record { err = none; errno = none; value = v }))

get_elem?-append : (xs ys : List ℕ) (i : ℕ) → get_elem? (xs ++ ys) (length xs + i) ≡ get_elem? ys i
get_elem?-append [] ys i = ap (get_elem? ys) (omega arith)
get_elem?-append (x ∷ xs) ys i =
    ap (get_elem? (x ∷ (xs ++ ys))) (suc_add (length xs) i) ∙ get_elem?-append xs ys i
  where
    suc_add : (a b : ℕ) → suc a + b ≡ suc (a + b)
    suc_add a b = omega arith

digits_end :
    (blank sign ds : List ℕ) (d c : ℕ) (rest : List ℕ)
    → get_elem?
        (blank ++ (sign ++ d ∷ (ds ++ c ∷ rest)))
        (length blank + length sign + 0 + suc (length ds))
      ≡ some c
digits_end blank sign ds d c rest =
    ap (get_elem? (blank ++ (sign ++ d ∷ (ds ++ c ∷ rest))))
      (shape (length blank) (length sign) (length ds))
    ∙ get_elem?-append blank (sign ++ d ∷ (ds ++ c ∷ rest)) (length sign + suc (length ds))
    ∙ get_elem?-append sign (d ∷ (ds ++ c ∷ rest)) (suc (length ds))
    ∙ ap (get_elem? (ds ++ c ∷ rest)) (plus_zero (length ds))
    ∙ get_elem?-append ds (c ∷ rest) 0
  where
    shape : (a b e : ℕ) → a + b + 0 + suc e ≡ a + (b + suc e)
    shape a b e = omega arith

    plus_zero : (a : ℕ) → a ≡ a + 0
    plus_zero a = omega arith

within :
    (z minval maxval : ℤ)
    → negsuc long_max ≤ℤ minval
    → maxval ≤ℤ pos long_max
    → judge minval maxval (if exceeds z then some erange else none) (saturate z)
      ≡ verdict_of minval maxval z
within (pos n) minval maxval low high = ground arith
within (negsuc n) minval maxval low high = ground arith

module _ (blank : List ℕ) (sign : Sign) (d : ℕ) (ds : List ℕ) (c : ℕ) (rest : List ℕ)
    (blanks : AreBlank blank) (all : AreDigits 10 (d ∷ ds)) (byte : c < 256)
    (stop : is_digit 10 c ≡ false) where
  -- A decimal numeral, with blanks and a sign before it: `atoi` gives its value, or the nearest `int` when
  -- the value is outside the range of `int`, also where it is outside the range of `long`.
  atoi-number :
      atoi (blank ++ (sign_bytes sign ++ d ∷ (ds ++ c ∷ rest)))
      ≡ ok (saturate_int (signed (negative sign) (number 10 0 (d ∷ ds))))
  unfolding atoi
  atoi-number =
      rw
        (strtoll-number blank sign d ds c rest blanks
          (plain (omega arith) (omega arith) (omega arith)) all byte stop)
        (twice (signed (negative sign) (number 10 0 (d ∷ ds))))
    where
      twice :
          (z : ℤ)
          → (if ltb_ℤ (pos (2 ^ 31 - 1)) (saturate z)
              then ok (pos (2 ^ 31 - 1))
              else (if ltb_ℤ (saturate z) (negsuc (2 ^ 31 - 1))
                  then ok (negsuc (2 ^ 31 - 1))
                  else ok (saturate z)))
            ≡ ok (saturate_int z)
      twice (pos n) = ground arith
      twice (negsuc n) = ground arith

  -- A string whose only content is a decimal numeral, with blanks and a sign before it, against limits
  -- in the 64-bit range: `strtonum` accepts exactly the values between the limits and gives them
  -- unchanged, and otherwise names the limit that the value is beyond. A numeral followed by a byte
  -- other than the terminator is invalid, as is an empty range.
  pub strtonum-number :
      (minval maxval : ℤ)
      → negsuc long_max ≤ℤ minval
      → maxval ≤ℤ pos long_max
      → strtonum (blank ++ (sign_bytes sign ++ d ∷ (ds ++ c ∷ rest))) minval maxval
        ≡ ok (
            if c == 0
            then verdict_of minval maxval (signed (negative sign) (number 10 0 (d ∷ ds)))
            else refuses invalid einval)
  unfolding strtonum strtonum_check
  strtonum-number minval maxval low high =
      let z = signed (negative sign) (number 10 0 (d ∷ ds)) in
      elim (Bool-cases (ltb_ℤ maxval minval)) [
        | inl empty ↦ rw empty (ap ok (same (c == 0)))
        | inr wide ↦
            rw
              (
                wide,
                strtoll-number blank sign d ds c rest blanks
                    (plain (omega arith) (omega arith) (omega arith)) all byte stop,
                digits_end blank (sign_bytes sign) ds d c rest,
                nonempty (length blank) (length (sign_bytes sign)) (length ds),
              )
              (by_end (c == 0) _ _ (let w = within z minval maxval low high in rw wide at w))
      ]
    where
      same :
          (t : Bool)
          → refuses invalid einval ≡ (if t then refuses invalid einval else refuses invalid einval)
      same true = refl
      same false = refl

      nonempty : (a b e : ℕ) → (a + b + 0 + suc e == 0) ≡ false
      nonempty a b e = ground arith

      by_end :
          (t : Bool) (v w : Verdict)
          → v ≡ w
          → (if not t then ok (refuses invalid einval) else ok v)
            ≡ ok (if t then w else refuses invalid einval)
      by_end true v w h = ap ok h
      by_end false v w h = refl
