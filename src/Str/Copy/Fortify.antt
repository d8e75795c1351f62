-- ===== src/Str/Copy/Fortify.antt =====
-- The fortified calls abort or stay inside the destination, whatever it holds.
use native.Mathlib.Numerals.{add-one}
use native.Mathlib.Decide.{ℕ_discrete, dec_lt}
use libcs.Prelude.{
  NoNul, leb, ℕ, ◌+◌, ◌≡◌, refl, arith, true, false, List, [], ◌∷◌, Run, ok, fault, Bool-cases, ◌⊎◌,
  inl, inr, ltb, ◌==◌, if◌then◌else◌, ◌++◌, length, drop, ap, length-append, min, ◌≤◌,
}
use libcs.Str.Mem.{memcpy, at-append, nul_index-append, strnlen-append, strnlen-NoNul}
use libcs.Str.Copy.Laws.{memcpy-terminated, strlcpy_lem, strlcpy-zero, stpncpy_lem}
use libcs.Str.Copy.{
  Checked, aborts, runs, read, strcpy_chk, stpncpy_chk, strcat_chk, strlcpy_chk, strlcat_chk,
}
use libcs.Str.Copy.Append.{strlcat-NoNul, strlcat_lem, strlcat_full}

-- A buffer holds a null byte, or none.
pub first_nul : (d : List ℕ) → NoNul d ⊎ ((p : List ℕ) × (q : List ℕ) × NoNul p × (d ≡ p ++ 0 ∷ q))
first_nul [] = inl tt
first_nul (x ∷ d) = elim (ℕ_discrete x 0) [
  | yes e ↦ inr ([], d, tt, ap (λ y. y ∷ d) e)
  | no ne ↦ elim (first_nul d) [
    | inl h ↦ inl (ne, h)
    | inr (p, q, h, e) ↦ inr (x ∷ p, q, (ne, h), ap (◌∷◌ x) e)
  ]
]

-- `__strcpy_chk` with the destination's size aborts exactly if the string and its terminator do not
-- fit, and else stores both.
pub strcpy_chk_lem :
    (t u d : List ℕ)
    → NoNul t
    → strcpy_chk d (t ++ 0 ∷ u) (length d)
      ≡ (if ltb (length t) (length d) then runs (ok (t ++ 0 ∷ drop (length t + 1) d)) else aborts)
unfolding strcpy_chk read
strcpy_chk_lem t u d h =
    rw (nul_index-append t u h) (elim (Bool-cases (ltb (length t) (length d))) [
      | inl fits ↦
          let over : ltb (length d) (length t + 1) ≡ false = ground arith in
          rw (over, fits, memcpy-terminated t u d (ground arith))
      | inr big ↦ let over : ltb (length d) (length t + 1) ≡ true = ground arith in rw (over, big)
    ])

-- `__strcat_chk` with the size of a destination that holds a string aborts exactly if the two strings
-- and a terminator do not fit, and else stores the second string behind the first.
pub strcat_chk_lem :
    (p q t u : List ℕ)
    → NoNul p
    → NoNul t
    → strcat_chk (p ++ 0 ∷ q) (t ++ 0 ∷ u) (length (p ++ 0 ∷ q)) ≡ (
        if leb (length t) (length q) then runs (ok (p ++ (t ++ 0 ∷ drop (length t) q))) else aborts)
unfolding strcat_chk read
strcat_chk_lem p q t u hp ht =
    rw (size, strnlen-append p q (length p + 1 + length q) hp, short, nul_index-append t u ht, room)
      (elim (Bool-cases (leb (length t) (length q))) [
        | inl fits ↦
            let over : ltb (length p + 1 + length q) (length p + length t + 1) ≡ false =
              ground arith in
            rw (
              over,
              fits,
              at-append (length p) p (0 ∷ q) (λ e. memcpy e (t ++ 0 ∷ u) (length t + 1)) refl,
              memcpy-terminated t u (0 ∷ q) (ground arith),
              add-one (length t),
            )
        | inr big ↦
            let over : ltb (length p + 1 + length q) (length p + length t + 1) ≡ true =
              ground arith in
            rw (over, big)
      ])
  where
    size : length (p ++ 0 ∷ q) ≡ length p + 1 + length q
    size = omega (arith, length-append p (0 ∷ q))

    short : min (length p) (length p + 1 + length q) ≡ length p
    short = omega arith

    room : (length p == length p + 1 + length q) ≡ false
    room = ground arith

pub strcat_chk-NoNul :
    (d t u : List ℕ) → NoNul d → NoNul t → strcat_chk d (t ++ 0 ∷ u) (length d) ≡ aborts
unfolding strcat_chk read
strcat_chk-NoNul d t u hd ht =
    let same : (length d == length d) ≡ true = ground arith in
    rw (strnlen-NoNul d (length d) hd (omega arith), nul_index-append t u ht, same)

-- The call aborts, or stays inside its buffers.
abbrev pub IsSafe {ℓ} : {A : Type ℓ} → Checked A → Type 0
IsSafe aborts = Unit
IsSafe (runs (ok a)) = Unit
IsSafe (runs fault) = ⊥

ok-IsSafe {ℓ} : {A : Type ℓ} (m : Run A) {a : A} → m ≡ ok a → IsSafe (runs m)
ok-IsSafe (ok a) e = tt
ok-IsSafe fault e = absurd (cc)

guarded-IsSafe {ℓ} :
    {A : Type ℓ} (n dl : ℕ) (m : Run A)
    → (n ≤ dl → IsSafe (runs m))
    → IsSafe (if ltb dl n then aborts else runs m)
guarded-IsSafe n dl m h = elim (Bool-cases (ltb dl n)) [
  | inl x ↦ rw x tt
  | inr x ↦ rw x (h (ground arith))
]

stpncpy_chk-IsSafe :
    (t u d : List ℕ) (n : ℕ) → NoNul t → IsSafe (stpncpy_chk d (t ++ 0 ∷ u) n (length d))
unfolding stpncpy_chk
stpncpy_chk-IsSafe t u d n h =
    guarded-IsSafe n (length d) _ λ l. ok-IsSafe _ (stpncpy_lem t u d n h l)

strlcpy_chk-IsSafe :
    (t u d : List ℕ) (n : ℕ) → NoNul t → IsSafe (strlcpy_chk d (t ++ 0 ∷ u) n (length d))
unfolding strlcpy_chk
strlcpy_chk-IsSafe t u d n h = guarded-IsSafe n (length d) _ λ l. elim (ℕ_discrete n 0) [
  | yes e ↦ rw e (ok-IsSafe _ (strlcpy-zero t u d h))
  | no ne ↦ ok-IsSafe _ (strlcpy_lem t u d n h (omega arith) l)
]

strlcat_chk-IsSafe :
    (t u d : List ℕ) (n : ℕ) → NoNul t → IsSafe (strlcat_chk d (t ++ 0 ∷ u) n (length d))
unfolding strlcat_chk
strlcat_chk-IsSafe t u d n h = guarded-IsSafe n (length d) _ λ l. elim (first_nul d) [
  | inl hd ↦ ok-IsSafe _ (strlcat-NoNul t u d n hd h l)
  | inr (p, q, hp, e) ↦ elim (dec_lt (length p) n) [
    | yes x ↦ rw e (
        ok-IsSafe _ (
          strlcat_lem p q t u n hp h x
            (omega (arith, ap (length {A = ℕ}) e, length-append p (0 ∷ q)))))
    | no x ↦ rw e (ok-IsSafe _ (strlcat_full p q t u n hp h (omega arith)))
  ]
]

strcpy_chk-IsSafe : (t u d : List ℕ) → NoNul t → IsSafe (strcpy_chk d (t ++ 0 ∷ u) (length d))
strcpy_chk-IsSafe t u d h =
    rw (strcpy_chk_lem t u d h)
      (elim (Bool-cases (ltb (length t) (length d))) [ inl x ↦ rw x tt | inr x ↦ rw x tt ])

strcat_chk-IsSafe : (t u d : List ℕ) → NoNul t → IsSafe (strcat_chk d (t ++ 0 ∷ u) (length d))
strcat_chk-IsSafe t u d h = elim (first_nul d) [
  | inl hd ↦ rw (strcat_chk-NoNul d t u hd h) tt
  | inr (p, q, hp, e) ↦
      rw (e, strcat_chk_lem p q t u hp h)
        (elim (Bool-cases (leb (length t) (length q))) [ inl x ↦ rw x tt | inr x ↦ rw x tt ])
]

-- With the destination's size and a null-terminated source, `__strcpy_chk`, `__strcat_chk`,
-- `__stpncpy_chk`, `__strlcpy_chk` and `__strlcat_chk` abort or stay inside both buffers, whatever the
-- destination holds and whatever count they are given.
pub chk-IsSafe :
    (t u d : List ℕ) (n : ℕ)
    → NoNul t
    → IsSafe (strcpy_chk d (t ++ 0 ∷ u) (length d))
      × IsSafe (strcat_chk d (t ++ 0 ∷ u) (length d))
      × IsSafe (stpncpy_chk d (t ++ 0 ∷ u) n (length d))
      × IsSafe (strlcpy_chk d (t ++ 0 ∷ u) n (length d))
      × IsSafe (strlcat_chk d (t ++ 0 ∷ u) n (length d))
chk-IsSafe t u d n h = (
  strcpy_chk-IsSafe t u d h,
  strcat_chk-IsSafe t u d h,
  stpncpy_chk-IsSafe t u d n h,
  strlcpy_chk-IsSafe t u d n h,
  strlcat_chk-IsSafe t u d n h,
)
