-- ===== src/Str/Span/Laws.antt =====
-- src/string.c: what the spans over a set of bytes measure.
use libcs.Prelude.{
  ℕ, zero, suc, ◌<◌, ◌≡◌, ◌≢◌, refl, arith, Bool, true, false, ◌||◌, List, [], ◌∷◌, ◌++◌, ok, ◌>>=◌,
  ◌==◌, if◌then◌else◌, get_or, set, replicate, length, length-set, length-replicate, NoNul, ap, ◌∙◌,
}
use libcs.Str.Word.{find_or_end}
use libcs.Str.Span.{fill, span_byte, span_set, no_bits, strspn, strcspn}

unfoldable pub member : ℕ → List ℕ → Bool
member y [] = false
member y (x ∷ t) = (x == y) || member y t

-- How many bytes at the front of `u` are in `t`, or, where `b` is false, are not.
unfoldable pub leading : Bool → List ℕ → List ℕ → ℕ
leading b t [] = 0
leading b t (y ∷ u) =
    let rest = suc (leading b t u) in
    if member y t then (if b then rest else 0) else (if b then 0 else rest)

abbrev pub Bytes : List ℕ → Type 0
Bytes [] = Unit {0}
Bytes (x ∷ t) = (x < 256) × Bytes t

get_or-set :
    (bits : List Bool) (x y : ℕ)
    → x < length bits
    → get_or (set bits x true) y false ≡ ((x == y) || get_or bits y false)
get_or-set [] x y h = absurd (omega arith)
get_or-set (b ∷ bits) zero zero h = refl
get_or-set (b ∷ bits) zero (suc y) h = ground arith
get_or-set (b ∷ bits) (suc x) zero h = ground arith
get_or-set (b ∷ bits) (suc x) (suc y) h = ground (arith, get_or-set bits x y)

fill-member :
    (t q : List ℕ) (bits : List Bool)
    → NoNul t
    → Bytes t
    → length bits ≡ 256
    → (bits' : List Bool) × (fill (t ++ 0 ∷ q) bits ≡ ok bits')
      × ((y : ℕ) → get_or bits' y false ≡ (get_or bits y false || member y t))
unfolding fill member
fill-member [] q bits n l h = (bits, refl, λ y. ground arith)
fill-member (x ∷ t) q bits n l h =
    let more : (x == 0) ≡ false = ground (arith, n.0) in
    let (bits', e, f) = fill-member t q (set bits x true) n.1 l.1 (length-set bits x true ∙ h) in
    (bits', rw more e, λ y. ground (arith, f y, get_or-set bits x y (omega arith)))

no_bits-get_or : (n y : ℕ) → get_or (replicate n false) y false ≡ false
no_bits-get_or zero y = refl
no_bits-get_or (suc n) zero = refl
no_bits-get_or (suc n) (suc y) = no_bits-get_or n y

span_set-leading :
    (b : Bool) (bits : List Bool) (t u r : List ℕ)
    → ((y : ℕ) → get_or bits y false ≡ member y t)
    → NoNul u
    → span_set b bits (u ++ 0 ∷ r) ≡ ok (leading b t u)
unfolding span_set leading
span_set-leading b bits t [] r h n = refl
span_set-leading b bits t (y ∷ u) r h n =
    let more : (y == 0) ≡ false = ground (arith, n.0) in
    rw (more, h y, span_set-leading b bits t u r h n.1) (branches (member y t) b)
  where
    branches :
        (m b' : Bool)
        → (if m
            then (if b' then ok (suc (leading b t u)) else ok 0)
            else (if b' then ok 0 else ok (suc (leading b t u))))
          ≡ ok (
              if m
              then (if b' then suc (leading b t u) else 0)
              else (if b' then 0 else suc (leading b t u)))
    branches true true = refl
    branches true false = refl
    branches false true = refl
    branches false false = refl

span_byte-leading :
    (x : ℕ) (u r : List ℕ)
    → x ≢ 0
    → NoNul u
    → span_byte x (u ++ 0 ∷ r) ≡ ok (leading true (x ∷ []) u)
unfolding span_byte leading member
span_byte-leading x [] r h n = ground arith
span_byte-leading x (y ∷ u) r h n = ground (arith, span_byte-leading x u r h n.1)

find_or_end-leading :
    (x : ℕ) (u r : List ℕ) → NoNul u → find_or_end x (u ++ 0 ∷ r) ≡ ok (leading false (x ∷ []) u)
unfolding find_or_end leading member
find_or_end-leading x [] r n = refl
find_or_end-leading x (y ∷ u) r n = ground (arith, find_or_end-leading x u r n.1, n.0)

find_or_end-all : (u r : List ℕ) → NoNul u → find_or_end 0 (u ++ 0 ∷ r) ≡ ok (leading false [] u)
unfolding find_or_end leading member
find_or_end-all [] r n = refl
find_or_end-all (y ∷ u) r n = ground (arith, find_or_end-all u r n.1, n.0)

leading_none : (u : List ℕ) → leading true [] u ≡ 0
unfolding leading member
leading_none [] = refl
leading_none (y ∷ u) = refl

set_spans :
    (b : Bool) (t u q r : List ℕ)
    → NoNul t
    → Bytes t
    → NoNul u
    → (fill (t ++ 0 ∷ q) no_bits >>= λ bits. span_set b bits (u ++ 0 ∷ r)) ≡ ok (leading b t u)
set_spans b t u q r n l m =
    let (bits, e, f) = fill-member t q no_bits n l (length-replicate 256 false) in
    rw e (span_set-leading b bits t u r (λ y. ground (arith, f y, no_bits-get_or 256 y)) m)

-- `strspn` and `strcspn` of a string and a set of bytes, each with its terminator: they return, and measure
-- how many bytes at the front of the string are in the set, and how many are not.
pub strspn-leading :
    (u t r q : List ℕ)
    → NoNul u
    → NoNul t
    → Bytes t
    → (strspn (u ++ 0 ∷ r) (t ++ 0 ∷ q) ≡ ok (leading true t u))
      × (strcspn (u ++ 0 ∷ r) (t ++ 0 ∷ q) ≡ ok (leading false t u))
unfolding strspn strcspn
strspn-leading u [] r [] m n l = (ap ok (ground (arith, leading_none u)), find_or_end-all u r m)
strspn-leading u [] r (z ∷ q) m n l =
    (ap ok (ground (arith, leading_none u)), find_or_end-all u r m)
strspn-leading u (x ∷ []) r q m n l =
    let more : (x == 0) ≡ false = ground (arith, n.0) in
    (rw more (span_byte-leading x u r n.0 m), rw more (find_or_end-leading x u r m))
strspn-leading u (x ∷ y ∷ t) r q m n l =
    let more : (x == 0) ≡ false = ground (arith, n.0) in
    let more' : (y == 0) ≡ false = ground (arith, n.1.0) in
    (
      rw (more, more') (set_spans true (x ∷ y ∷ t) u q r n l m),
      rw (more, more') (set_spans false (x ∷ y ∷ t) u q r n l m),
    )
