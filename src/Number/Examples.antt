-- ===== src/Number/Examples.antt =====
-- src/strtol.c: runs on small strings, and each theorem at a string.
use libcs.Prelude.{ℕ, ◌≡◌, refl, arith, some, none, List, [], ◌∷◌, ok}
use libcs.Prelude.Int.{pos, negsuc}
use libcs.Ctype.{isspace}
use libcs.Number.{
  digit_val, einval, erange, skip_spaces, take_sign, hex_prefix, take_prefix, accumulate,
  digits_loop, in_range, strtox, strtoll, strtoull, atoi, too_small, refuses, strtonum_check,
  strtonum,
}
use libcs.Number.Pieces.{minus, plain}
use libcs.Number.Laws.{strtoll-number}
use libcs.Number.Whole.{strtonum-number}

-- What the runs below compute with.
program : Unit {0}
unfolding isspace digit_val skip_spaces take_sign hex_prefix take_prefix accumulate digits_loop
    in_range strtox strtoll strtoull atoi strtonum_check strtonum
program = tt

-- " -12!"
abbrev minus_twelve : List ℕ
minus_twelve = 32 ∷ 45 ∷ 49 ∷ 50 ∷ 33 ∷ []

-- "0x1Fg"
abbrev hex_thirty_one : List ℕ
hex_thirty_one = 48 ∷ 120 ∷ 49 ∷ 70 ∷ 103 ∷ []

-- "0x" before no digit is the number 0.
bare_x : strtoll (48 ∷ 120 ∷ 0 ∷ []) (pos 0) ≡ ok (record { end = 1; errno = none; value = pos 0 })
unfolding program
bare_x = refl

octal :
    strtoll (48 ∷ 49 ∷ 55 ∷ 0 ∷ []) (pos 0) ≡ ok (record { end = 3; errno = none; value = pos 15 })
unfolding program
octal = refl

no_digits :
    strtoll (32 ∷ 43 ∷ 0 ∷ []) (pos 10) ≡ ok (record { end = 0; errno = none; value = pos 0 })
unfolding program
no_digits = refl

bad_base :
    strtoll (49 ∷ 0 ∷ []) (pos 37) ≡ ok (record { end = 0; errno = some einval; value = pos 0 })
unfolding program
bad_base = refl

strtoll-number_example :
    strtoll minus_twelve (pos 10) ≡ ok (record { end = 4; errno = none; value = negsuc 11 })
strtoll-number_example =
    strtoll-number (32 ∷ []) minus 49 (50 ∷ []) 33 [] (omega arith, refl, tt)
      (plain (omega arith) (omega arith) (omega arith)) (omega arith, refl, (omega arith, refl, tt))
      (omega arith) refl

strtonum-number_example :
    strtonum (45 ∷ 49 ∷ 50 ∷ 0 ∷ []) (pos 0) (pos 9) ≡ ok (refuses too_small erange)
strtonum-number_example =
    strtonum-number [] minus 49 (50 ∷ []) 0 [] tt (omega arith, refl, (omega arith, refl, tt))
      (omega arith) refl (pos 0) (pos 9) (omega arith) (omega arith)
