-- ===== src/Number/Pieces.antt =====
-- src/strtol.c: the blanks, the sign and the prefix before a numeral.
use libcs.Prelude.{
  ℕ, ◌≡◌, ◌≢◌, ◌<◌, ◌≤◌, refl, arith, Bool, true, false, ◌&&◌, ◌||◌, ◌⊎◌, inl, inr, List, [], ◌∷◌,
  ◌++◌, ok, ltb, leb, ◌==◌, length,
}
use libcs.Ctype.{isspace}
use libcs.Number.{skip_spaces, take_sign, hex_prefix, take_prefix}
use libcs.Number.Digits.{is_alnum, is_digit, digit_val-is_digit}

-- The blanks that `isspace` names.
abbrev pub is_blank : ℕ → Bool
is_blank c = (c == 32) || (leb 9 c && leb c 13)

abbrev pub AreBlank : List ℕ → Type 0
AreBlank [] = Unit
AreBlank (c ∷ s) = (c < 256) × (is_blank c ≡ true) × AreBlank s

isspace-is_blank : (c : ℕ) → c < 256 → isspace c ≡ is_blank c
unfolding isspace
isspace-is_blank c h = ground arith

pub data Sign : Type 0 where
  bare : Sign
  plus : Sign
  minus : Sign

abbrev pub sign_bytes : Sign → List ℕ
sign_bytes bare = []
sign_bytes plus = 43 ∷ []
sign_bytes minus = 45 ∷ []

abbrev pub negative : Sign → Bool
negative bare = false
negative plus = false
negative minus = true

-- A byte that starts a numeral is neither a blank nor a sign.
starts :
    (d : ℕ) → d < 256 → is_alnum d ≡ true → (isspace d ≡ false) × ((d == 43) || (d == 45) ≡ false)
unfolding isspace
starts d h k = (ground arith, ground arith)

take_sign_lem :
    (sign : Sign) (d : ℕ) (s : List ℕ)
    → d < 256
    → is_alnum d ≡ true
    → take_sign (sign_bytes sign ++ d ∷ s) ≡ ok (negative sign, length (sign_bytes sign), d ∷ s)
unfolding take_sign
take_sign_lem bare d s h k = rw ((starts d h k).1) refl
take_sign_lem plus d s h k = refl
take_sign_lem minus d s h k = refl

skip_spaces_lem :
    (blank : List ℕ) (c : ℕ) (s : List ℕ)
    → AreBlank blank
    → isspace c ≡ false
    → skip_spaces (blank ++ c ∷ s) ≡ ok (length blank, c ∷ s)
unfolding skip_spaces
skip_spaces_lem [] c s h k = rw k refl
skip_spaces_lem (b ∷ blank) c s (small, space, h) k =
    rw (isspace-is_blank b small, space, skip_spaces_lem blank c s h k) refl

blank_sign :
    (blank : List ℕ) (sign : Sign) (d : ℕ) (s : List ℕ)
    → AreBlank blank
    → d < 256
    → is_alnum d ≡ true
    → skip_spaces (blank ++ (sign_bytes sign ++ d ∷ s))
      ≡ ok (length blank, sign_bytes sign ++ d ∷ s)
unfolding isspace
blank_sign blank bare d s h k l = skip_spaces_lem blank d s h (starts d k l).0
blank_sign blank plus d s h k l = skip_spaces_lem blank 43 (d ∷ s) h refl
blank_sign blank minus d s h k l = skip_spaces_lem blank 45 (d ∷ s) h refl

-- The bytes of a prefix, and the base they give, for the base that is asked and the first digit.
pub data Form : ℕ → ℕ → List ℕ → ℕ → Type 0 where
  plain : {b d : ℕ} → 2 ≤ b → b ≢ 16 → b ≤ 36 → Form b b [] d
  hex : {b d x : ℕ} → (b ≡ 0) ⊎ (b ≡ 16) → (x ≡ 120) ⊎ (x ≡ 88) → Form b 16 (48 ∷ x ∷ []) d
  bare_hex : {d : ℕ} → d ≢ 48 → Form 16 16 [] d
  bare_decimal : {d : ℕ} → d ≢ 48 → Form 0 10 [] d

pub take_prefix_lem :
    {b base d : ℕ} {pre : List ℕ} (s : List ℕ)
    → Form b base pre d
    → d < 256
    → is_digit base d ≡ true
    → take_prefix b (pre ++ d ∷ s) ≡ ok (base, length pre, d ∷ s)
unfolding take_prefix hex_prefix
take_prefix_lem s (plain h k l) small digit = ground arith
take_prefix_lem {d = d} s (hex (inl e) (inl x)) small digit =
    rw (e, x, digit_val-is_digit 16 d (omega arith) small, digit) refl
take_prefix_lem {d = d} s (hex (inl e) (inr x)) small digit =
    rw (e, x, digit_val-is_digit 16 d (omega arith) small, digit) refl
take_prefix_lem {d = d} s (hex (inr e) (inl x)) small digit =
    rw (e, x, digit_val-is_digit 16 d (omega arith) small, digit) refl
take_prefix_lem {d = d} s (hex (inr e) (inr x)) small digit =
    rw (e, x, digit_val-is_digit 16 d (omega arith) small, digit) refl
take_prefix_lem s (bare_hex h) small digit = ground arith
take_prefix_lem s (bare_decimal h) small digit = ground arith

pub and-left : (a b : Bool) → (a && b) ≡ true → a ≡ true
and-left true b h = refl
and-left false b h = h

pub lead :
    {b base d : ℕ} {pre : List ℕ} (blank : List ℕ) (sign : Sign) (s : List ℕ)
    → AreBlank blank
    → Form b base pre d
    → d < 256
    → is_alnum d ≡ true
    → (skip_spaces (blank ++ (sign_bytes sign ++ (pre ++ d ∷ s)))
        ≡ ok (length blank, sign_bytes sign ++ (pre ++ d ∷ s)))
      × (take_sign (sign_bytes sign ++ (pre ++ d ∷ s))
          ≡ ok (negative sign, length (sign_bytes sign), pre ++ d ∷ s))
lead {d = d} blank sign s h (plain k l m) small digit =
    (blank_sign blank sign d s h small digit, take_sign_lem sign d s small digit)
lead {d = d} blank sign s h (hex {x = x} k l) small digit = (
  blank_sign blank sign 48 (x ∷ d ∷ s) h (omega arith) refl,
  take_sign_lem sign 48 (x ∷ d ∷ s) (omega arith) refl,
)
lead {d = d} blank sign s h (bare_hex k) small digit =
    (blank_sign blank sign d s h small digit, take_sign_lem sign d s small digit)
lead {d = d} blank sign s h (bare_decimal k) small digit =
    (blank_sign blank sign d s h small digit, take_sign_lem sign d s small digit)

pub good_base :
    {b base d : ℕ} {pre : List ℕ}
    → Form b base pre d
    → (((b == 1) || ltb 36 b) ≡ false) × (1 ≤ base) × (base ≤ 36)
good_base (plain h k l) = (ground arith, omega arith, l)
good_base (hex (inl e) x) = (rw e refl, omega arith, omega arith)
good_base (hex (inr e) x) = (rw e refl, omega arith, omega arith)
good_base (bare_hex h) = (refl, omega arith, omega arith)
good_base (bare_decimal h) = (refl, omega arith, omega arith)
