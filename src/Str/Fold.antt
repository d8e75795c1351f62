-- ===== src/Str/Fold.antt =====
-- src/string.c: comparison and search without regard to case, and the comparison of version numbers.
mod Examples
use libcs.Prelude.{
  ℕ, zero, suc, ◌+◌, ◌-◌, ◌%◌, Bool, true, false, not, ◌&&◌, ◌||◌, Option, none, some, List, [],
  ◌∷◌, Run, ok, fault, ◌>>=◌, ltb, ◌==◌, if◌then◌else◌,
}
use libcs.Prelude.Int.{ℤ, pos, negsuc, sub_ℕ, eqb_ℤ}
use libcs.Ctype.{isdigit, sub_u32, tolower}
use libcs.Str.Mem.{nul_index, further}
use libcs.Str.Span.{deref, at_offset}

-- `*a && *b && (*a == *b || tolower(*a) == tolower(*b))`.
unfoldable pub same_letter : ℕ → ℕ → Bool
same_letter x y = not (x == 0) && not (y == 0) && ((x == y) || (tolower x == tolower y))

-- `strcasecmp(l, r)`.
unfoldable pub strcasecmp : List ℕ → List ℕ → Run ℤ
strcasecmp [] r = fault
strcasecmp (x ∷ l) [] = fault
strcasecmp (x ∷ l) (y ∷ r) =
    let rest = strcasecmp l r in
    if same_letter x y then rest else ok (sub_ℕ (tolower x) (tolower y))

-- The loop of `strncasecmp`, after `n--`.
unfoldable pub strncasecmp_loop : List ℕ → List ℕ → ℕ → Run ℤ
strncasecmp_loop [] r n = fault
strncasecmp_loop (x ∷ l) [] n = fault
strncasecmp_loop (x ∷ l) (y ∷ r) zero = ok (sub_ℕ (tolower x) (tolower y))
strncasecmp_loop (x ∷ l) (y ∷ r) (suc n) =
    let rest = strncasecmp_loop l r n in
    if same_letter x y then rest else ok (sub_ℕ (tolower x) (tolower y))

-- `strncasecmp(l, r, n)`.
unfoldable pub strncasecmp : List ℕ → List ℕ → ℕ → Run ℤ
strncasecmp l r zero = ok (pos 0)
strncasecmp l r (suc n) = strncasecmp_loop l r n

-- The loop of `strcasestr`, where `l` is the length of the needle.
unfoldable pub strcasestr_loop : List ℕ → List ℕ → ℕ → Run (Option ℕ)
strcasestr_loop [] n l = fault
strcasestr_loop (x ∷ h) n l =
    let rest = strcasestr_loop h n l >>= λ p. ok (further p) in
    let here = strncasecmp (x ∷ h) n l >>= λ d. if eqb_ℤ d (pos 0) then ok (some 0) else rest in
    if x == 0 then ok (if l == 0 then some 0 else none) else here

-- `strcasestr(h, n)`, as an offset.
unfoldable pub strcasestr : List ℕ → List ℕ → Run (Option ℕ)
strcasestr h n = nul_index n >>= λ l. strcasestr_loop h n l

-- Where the first loop of `strverscmp` ends, `none` if the strings are the same: `i`, `dp` and `z`, and the
-- strings from `i` on.
pub record Difference : Type 0 where
  pub i : ℕ
  pub dp : ℕ
  pub z : Bool
  pub left : List ℕ
  pub right : List ℕ

unfoldable pub differ : List ℕ → List ℕ → (i dp : ℕ) → (z : Bool) → Run (Option Difference)
differ [] r i dp z = fault
differ (x ∷ l) [] i dp z = fault
differ (x ∷ l) (y ∷ r) i dp z =
    let rest =
      differ l r (i + 1) (if isdigit x then dp else i + 1)
        (if isdigit x then (if x == b'0' then z else false) else true) in
    if x == y
    then (if x == 0 then ok none else rest)
    else ok (some (record { i = i; dp = dp; z = z; left = x ∷ l; right = y ∷ r }))

-- The loop over the digits of both: the longer run of digits is the greater number.
unfoldable pub longer_digits : List ℕ → List ℕ → Run (Option ℤ)
longer_digits [] r = fault
longer_digits (x ∷ l) [] = fault
longer_digits (x ∷ l) (y ∷ r) =
    let rest = longer_digits l r in
    if isdigit x
    then (if isdigit y then rest else ok (some (pos 1)))
    else ok (if isdigit y then some (negsuc 0) else none)

-- `(unsigned)(x - '1') < 9`.
abbrev pub starts_number : ℕ → Bool
starts_number x = ltb (sub_u32 x b'1') 9

-- `strverscmp(l, r)`.
unfoldable pub strverscmp : List ℕ → List ℕ → Run ℤ
strverscmp l r = differ l r 0 0 true >>= λ found. elim found [
  | none ↦ ok (pos 0)
  | some d ↦ at_offset d.dp l >>= deref >>= λ a. at_offset d.dp r >>= deref >>= λ b.
      deref d.left >>= λ x. deref d.right >>= λ y.
      if starts_number a && starts_number b
      then (longer_digits d.left d.right >>= λ o. ok (elim o [ some v ↦ v | none ↦ sub_ℕ x y ]))
      else ok (
          if d.z && ltb d.dp d.i && (isdigit x || isdigit y)
          then sub_ℕ ((x + 256 - b'0') % 256) ((y + 256 - b'0') % 256)
          else sub_ℕ x y)
]
