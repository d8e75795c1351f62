-- ===== src/Str/Search/Places.antt =====
-- src/string.c: the plain test of every place, and the places that memchr skips.
use libcs.Prelude.{
  ℕ, zero, suc, ◌-◌, ◌≡◌, ◌<◌, ◌≤◌, refl, arith, ap, ◌∙◌, Bool, true, false, ◌&&◌, Bool-cases, inl,
  inr, Option, none, some, List, [], ◌∷◌, ok, ◌==◌, if◌then◌else◌, drop, length,
}
use libcs.Prelude.Int.{ℤ, pos, sub_ℕ, eqb_ℤ}
use libcs.Str.Mem.{find, further}
use libcs.Str.Search.{memcmp, shift}

-- Whether the first `l` bytes of a needle start the haystack.
abbrev pub starts_with : ℕ → List ℕ → List ℕ → Bool
starts_with zero n h = true
starts_with (suc l) n [] = false
starts_with (suc l) [] (y ∷ h) = false
starts_with (suc l) (x ∷ n) (y ∷ h) = (y == x) && starts_with l n h

-- The first of the first `c` places of `h` where the needle stands.
abbrev pub first_match : ℕ → List ℕ → List ℕ → ℕ → Option ℕ
first_match zero h n l = none
first_match (suc c) h n l =
    if starts_with l n h then some 0 else further (first_match c (drop 1 h) n l)

pub memcmp-starts_with :
    (h n : List ℕ) (l : ℕ)
    → l ≤ length h
    → l ≤ length n
    → (d : ℤ) × (memcmp h n l ≡ ok d) × (eqb_ℤ d (pos 0) ≡ starts_with l n h)
unfolding memcmp
memcmp-starts_with h n zero a b = (pos 0, refl, refl)
memcmp-starts_with [] n (suc l) a b = absurd (omega arith)
memcmp-starts_with (y ∷ h) [] (suc l) a b = absurd (omega arith)
memcmp-starts_with (y ∷ h) (x ∷ n) (suc l) a b = elim (Bool-cases (y == x)) [
  | inl same ↦ rw same (memcmp-starts_with h n l (omega arith) (omega arith))
  | inr differ ↦ rw differ (sub_ℕ y x, refl, ground arith)
]

-- Places that `memchr` skips are no matches.
abbrev pub Skips : ℕ → List ℕ → List ℕ → ℕ → Option ℕ → Type 0
Skips c h n l none = first_match c h n l ≡ none
Skips c h n l (some j) =
    (j < c) × (first_match c h n l ≡ shift j (first_match (c - j) (drop j h) n l))

shift-zero : (o : Option ℕ) → o ≡ shift 0 o
shift-zero none = refl
shift-zero (some i) = ap some (omega arith)

further-shift : (j : ℕ) (o : Option ℕ) → further (shift j o) ≡ shift (suc j) o
further-shift j none = refl
further-shift j (some i) = ap some (omega arith)

further-Skips :
    (x : ℕ) (n : List ℕ) (l c b : ℕ) (h : List ℕ) (p : Option ℕ)
    → (b == x) ≡ false
    → Skips c h (x ∷ n) (suc l) p
    → Skips (suc c) (b ∷ h) (x ∷ n) (suc l) (further p)
further-Skips x n l c b h none differ e = rw differ (ap further e)
further-Skips x n l c b h (some j) differ (small, e) = (
  omega arith,
  rw differ (
      ap further e
      ∙ further-shift j (first_match (c - j) (drop j h) (x ∷ n) (suc l))
      ∙ ap (λ (k : ℕ). shift (suc j) (first_match k (drop j h) (x ∷ n) (suc l))) (omega arith)),
)

pub find-Skips :
    (x : ℕ) (n : List ℕ) (l c : ℕ) (h : List ℕ)
    → c ≤ length h
    → (p : Option ℕ) × (find x c h ≡ ok p) × Skips c h (x ∷ n) (suc l) p
unfolding find
find-Skips x n l zero h a = (none, refl, refl)
find-Skips x n l (suc c) [] a = absurd (omega arith)
find-Skips x n l (suc c) (b ∷ h) a = elim (Bool-cases (b == x)) [
  | inl same ↦ (some 0, rw same refl, (omega arith, here (omega arith)))
  | inr differ ↦
      let (p, e, skips) = find-Skips x n l c h (omega arith) in
      (further p, rw (differ, e) refl, further-Skips x n l c b h p differ skips)
]
  where
    here :
        suc c ≡ suc c - 0
        → first_match (suc c) (b ∷ h) (x ∷ n) (suc l)
          ≡ shift 0 (first_match (suc c - 0) (b ∷ h) (x ∷ n) (suc l))
    here e =
        shift-zero (first_match (suc c) (b ∷ h) (x ∷ n) (suc l))
        ∙ ap (λ (k : ℕ). shift 0 (first_match k (b ∷ h) (x ∷ n) (suc l))) e

pub shift-further : (j : ℕ) (o : Option ℕ) → shift j (further o) ≡ shift (suc j) o
shift-further j none = refl
shift-further j (some i) = ap some (omega arith)

pub drop-drop : (j : ℕ) (h : List ℕ) → drop 1 (drop j h) ≡ drop (suc j) h
drop-drop zero h = refl
drop-drop (suc j) [] = refl
drop-drop (suc j) (y ∷ h) = drop-drop j h

pub drop-suc : (j : ℕ) (h : List ℕ) → drop j (drop 1 h) ≡ drop (suc j) h
drop-suc zero [] = refl
drop-suc (suc j) [] = refl
drop-suc j (y ∷ h) = refl

pub place-next :
    (n : List ℕ) (l c j : ℕ) (h : List ℕ)
    → j < suc c
    → first_match (suc c - j) (drop j h) n l ≡ (
        if starts_with l n (drop j h)
        then some 0
        else further (first_match (suc c - suc j) (drop (suc j) h) n l))
place-next n l c j h small =
    let less : suc c - j ≡ suc (suc c - suc j) = omega arith in
    ap (λ (k : ℕ). first_match k (drop j h) n l) less
    ∙ ap
        (λ q.
          if starts_with l n (drop j h)
          then some 0
          else further (first_match (suc c - suc j) q n l))
        (drop-drop j h)
