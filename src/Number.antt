-- ===== src/Number.antt =====
-- src/strtol.c: parsing of integers. A string is the list of bytes behind its pointer and a read past
-- the list is a fault; the end pointer is an offset from the string's start. `unsigned` and
-- `unsigned long long` values are numbers below 2 ^ 32 and 2 ^ 64 with their wrap-around written out.
pub mod Digits
pub mod Pieces
pub mod Laws
pub mod Whole
mod Examples
use Prim.Native.Nat.{bit_or}
use libcs.Ctype.{isspace, sub_u32}
use libcs.Prelude.{
  ℕ, zero, suc, ◌+◌, ◌-◌, ◌*◌, ◌%◌, ◌^◌, Bool, true, false, not, ◌&&◌, ◌||◌, Option, none, some,
  List, [], ◌∷◌, Run, ok, fault, ◌>>=◌, from_option, ltb, leb, ◌==◌, if◌then◌else◌, get_elem?, drop,
}
use libcs.Prelude.Int.{ℤ, pos, negsuc, ltb_ℤ, eqb_ℤ}

-- `digit_val(c)`.
unfoldable pub digit_val : ℕ → ℕ
digit_val c =
    if ltb (sub_u32 c 48) 10
    then c - 48
    else (if ltb (sub_u32 (bit_or c 32) 97) 26 then bit_or c 32 - 97 + 10 else 99)

pub data Errno : Type 0 where
  einval : Errno
  erange : Errno

-- The result, the offset stored in `*end`, and the error stored in `errno`, if one is.
pub record Parsed (A : Type 0) : Type 0 where
  pub end : ℕ
  pub errno : Option Errno
  pub value : A

-- `while (isspace(*s)) s++;`: the bytes passed, and the string from there.
unfoldable pub skip_spaces : List ℕ → Run (ℕ × List ℕ)
skip_spaces [] = fault
skip_spaces (c ∷ s) =
    let rest = skip_spaces s in
    if isspace c then (rest >>= λ p. ok (suc p.0, p.1)) else ok (0, c ∷ s)

-- An optional sign: whether it is '-', the bytes passed and the string from there.
unfoldable pub take_sign : List ℕ → Run (Bool × ℕ × List ℕ)
take_sign [] = fault
take_sign (c ∷ s) = if (c == 43) || (c == 45) then ok (c == 45, 1, s) else ok (false, 0, c ∷ s)

-- `s[0] == '0' && (s[1] | 32) == 'x' && digit_val(s[2]) < 16`, which reads no further than it has to.
unfoldable pub hex_prefix : List ℕ → Run Bool
hex_prefix s = from_option (get_elem? s 0) >>= λ c.
    if c == 48
    then (from_option (get_elem? s 1) >>= λ x.
        if bit_or x 32 == 120
        then (from_option (get_elem? s 2) >>= λ h. ok (ltb (digit_val h) 16))
        else ok false)
    else ok false

-- The base that is used, the bytes of a prefix "0x" and the string from there.
unfoldable pub take_prefix : ℕ → List ℕ → Run (ℕ × ℕ × List ℕ)
take_prefix base s =
    if (base == 0) || (base == 16)
    then (hex_prefix s >>= λ hex.
        if hex
        then ok (16, 2, drop 2 s)
        else (if base == 0
            then (from_option (get_elem? s 0) >>= λ c. ok (if c == 48 then 8 else 10, 0, s))
            else ok (base, 0, s)))
    else ok (base, 0, s)

-- `__builtin_mul_overflow(acc, base, &acc) || __builtin_add_overflow(acc, d, &acc)`: after an overflow
-- of the product the digit is not added.
unfoldable pub accumulate : ℕ → ℕ → ℕ → ℕ × Bool
accumulate base acc d =
    if leb (2 ^ 64) (acc * base)
    then ((acc * base) % 2 ^ 64, true)
    else ((acc * base + d) % 2 ^ 64, leb (2 ^ 64) (acc * base + d))

-- The loop over the digits: `acc`, `ovf` and the digits passed.
unfoldable pub digits_loop : ℕ → ℕ → Bool → List ℕ → Run (ℕ × Bool × ℕ)
digits_loop base acc ovf [] = fault
digits_loop base acc ovf (c ∷ s) =
    let d = digit_val c in
    let (next, over) = accumulate base acc d in
    let rest = digits_loop base next (ovf || over) s in
    if ltb d base then (rest >>= λ p. ok (p.0, p.1, suc p.2)) else ok (acc, ovf, 0)

-- The value and the error from `neg`, `acc` and `ovf`, as `unsigned long long`.
unfoldable pub in_range : Bool → ℕ → Bool → ℕ → Bool → Option Errno × ℕ
in_range is_signed max neg acc ovf =
    if is_signed
    then (if ovf || ltb (if neg then (max + 1) % 2 ^ 64 else max) acc
        then (some erange, if neg then (2 ^ 64 - max + (2 ^ 64 - 1)) % 2 ^ 64 else max)
        else (none, if neg then (2 ^ 64 - acc) % 2 ^ 64 else acc))
    else (if ovf || ltb max acc
        then (some erange, max)
        else (none, if neg then (2 ^ 64 - acc) % 2 ^ 64 else acc))

-- `strtox(s0, &end, base, is_signed, max)`.
unfoldable pub strtox : List ℕ → ℤ → Bool → ℕ → Run (Parsed ℕ)
strtox s0 (negsuc b) is_signed max = ok (record { end = 0; errno = some einval; value = 0 })
strtox s0 (pos b) is_signed max =
    if (b == 1) || ltb 36 b
    then ok (record { end = 0; errno = some einval; value = 0 })
    else (skip_spaces s0 >>= λ (spaces, s1). take_sign s1 >>= λ (neg, sign, s2).
        take_prefix b s2 >>= λ (base, prefix, s3).
        digits_loop base 0 false s3 >>= λ (acc, ovf, count).
        if count == 0
        then ok (record { end = 0; errno = none; value = 0 })
        else (let (error, value) = in_range is_signed max neg acc ovf in
            ok (record { end = spaces + sign + prefix + count; errno = error; value = value })))

-- A conversion of an `unsigned long long` to `long long`.
abbrev pub to_signed : ℕ → ℤ
to_signed v = if ltb v (2 ^ 63) then pos v else negsuc (2 ^ 64 - 1 - v)

abbrev pub long_max : ℕ
long_max = 2 ^ 63 - 1

abbrev pub as_signed : Parsed ℕ → Parsed ℤ
as_signed p = record { end = p.end; errno = p.errno; value = to_signed p.value }

-- `strtol`, `strtoll` and `strtoimax`, which differ in name only.
unfoldable pub strtoll : List ℕ → ℤ → Run (Parsed ℤ)
strtoll s base = strtox s base true long_max >>= λ p. ok (as_signed p)

-- `strtoul`, `strtoull` and `strtoumax`.
unfoldable pub strtoull : List ℕ → ℤ → Run (Parsed ℕ)
strtoull s base = strtox s base false (2 ^ 64 - 1)

-- `atoi(s)`.
unfoldable pub atoi : List ℕ → Run ℤ
atoi s = strtoll s (pos 10) >>= λ p.
    if ltb_ℤ (pos (2 ^ 31 - 1)) p.value
    then ok (pos (2 ^ 31 - 1))
    else (if ltb_ℤ p.value (negsuc (2 ^ 31 - 1)) then ok (negsuc (2 ^ 31 - 1)) else ok p.value)

pub data NumError : Type 0 where
  invalid : NumError
  too_small : NumError
  too_large : NumError

abbrev pub range_error : Option Errno → Bool
range_error none = false
range_error (some einval) = false
range_error (some erange) = true

-- What `strtonum` stores in `*errstr` and `errno`, if it does, and what it returns.
pub record Verdict : Type 0 where
  pub err : Option NumError
  pub errno : Option Errno
  pub value : ℤ

abbrev pub refuses : NumError → Errno → Verdict
refuses err e = record { err = some err; errno = some e; value = pos 0 }

-- The tests of `strtonum` on what `strtoll`, called with `errno` at 0, returned.
unfoldable pub strtonum_check : List ℕ → ℤ → ℤ → Parsed ℤ → Run Verdict
strtonum_check s minval maxval p =
    let v = p.value in
    let verdict =
      if (eqb_ℤ v (negsuc long_max) && range_error p.errno) || ltb_ℤ v minval
      then refuses too_small erange
      else (if (eqb_ℤ v (pos long_max) && range_error p.errno) || ltb_ℤ maxval v
          then refuses too_large erange
          else record { err = none; errno = none; value = v }) in
    if p.end == 0
    then ok (refuses invalid einval)
    else (from_option (get_elem? s p.end) >>= λ c.
        if not (c == 0) then ok (refuses invalid einval) else ok verdict)

-- `strtonum(s, minval, maxval, &errstr)`.
unfoldable pub strtonum : List ℕ → ℤ → ℤ → Run Verdict
strtonum s minval maxval =
    if ltb_ℤ maxval minval
    then ok (refuses invalid einval)
    else (strtoll s (pos 10) >>= λ p. strtonum_check s minval maxval p)
