-- ===== src/Str/Search/Laws.antt =====
-- src/string.c: the search against the plain test of every place.
use libcs.Prelude.{
  NoNul, Returns, ℕ, zero, suc, ◌+◌, ◌-◌, ◌≡◌, ◌<◌, ◌≤◌, refl, arith, ap, ◌∙◌, sym, true, false,
  Bool-cases, inl, inr, Option, none, some, List, [], ◌∷◌, ◌++◌, Run, ok, ◌>>=◌, ltb, ◌==◌, ==_iff,
  length-append, if◌then◌else◌, drop, length, length-drop,
}
use libcs.Prelude.Int.{pos, eqb_ℤ}
use libcs.Str.Mem.{nul_index-append, further}
use libcs.Str.Search.{memcmp, shift, memmem_loop, memmem, strstr}
use libcs.Str.Search.Places.{
  starts_with, first_match, memcmp-starts_with, Skips, find-Skips, shift-further, drop-suc,
  place-next,
}

memmem_loop-first_match :
    (rounds c : ℕ) (h : List ℕ) (x : ℕ) (n : List ℕ) (l : ℕ)
    → c ≤ rounds
    → c + l ≤ length h
    → suc l ≤ length (x ∷ n)
    → memmem_loop rounds c h x (x ∷ n) (suc l) ≡ ok (first_match c h (x ∷ n) (suc l))
unfolding memmem_loop
memmem_loop-first_match zero zero h x n l a b d = refl
memmem_loop-first_match zero (suc c) h x n l a b d = absurd (omega arith)
memmem_loop-first_match (suc rounds) zero h x n l a b d = refl
memmem_loop-first_match (suc rounds) (suc c) h x n l a b d =
    let (p, e, skips) = find-Skips x n l (suc c) h (omega arith) in
    rw e (
      by_place
        (λ j k.
          memmem_loop-first_match rounds (suc c - suc j) (drop (suc j) h) x n l (omega arith)
            (omega (arith, length-drop (suc j) h)) d)
        p skips)
  where
    by_place :
        ((j : ℕ)
          → j < suc c
          → memmem_loop rounds (suc c - suc j) (drop (suc j) h) x (x ∷ n) (suc l)
            ≡ ok (first_match (suc c - suc j) (drop (suc j) h) (x ∷ n) (suc l)))
        → (p : Option ℕ) → Skips (suc c) h (x ∷ n) (suc l) p
        → elim p as (λ _. Run (Option ℕ)) [
          | none ↦ ok none
          | some j ↦ memcmp (drop j h) (x ∷ n) (suc l) >>= λ d.
              if eqb_ℤ d (pos 0)
              then ok (some j)
              else (memmem_loop rounds (suc c - suc j) (drop (suc j) h) x (x ∷ n) (suc l) >>= λ o.
                  ok (shift (suc j) o))
        ]
          ≡ ok (first_match (suc c) h (x ∷ n) (suc l))
    by_place rest none e = ap ok (sym e)
    by_place rest (some j) (small, e) =
        let (v, compared, same) =
          memcmp-starts_with (drop j h) (x ∷ n) (suc l) (omega (arith, length-drop j h)) d in
        let place = e ∙ ap (shift j) (place-next (x ∷ n) (suc l) c j h small) in
        elim (Bool-cases (starts_with (suc l) (x ∷ n) (drop j h))) [
          | inl here ↦
              let found = rw here at place in
              rw (compared, same, here, found) (ap (λ (k : ℕ). ok (some k)) (omega arith))
          | inr away ↦
              let later = rw away at place in
              rw (compared, same, away, rest j small, later)
                (ap ok (
                  sym (
                    shift-further j
                      (first_match (suc c - suc j) (drop (suc j) h) (x ∷ n) (suc l)))))
        ]

-- `memmem` on `k` bytes of haystack and `l` of needle: it reads only those, and gives the first place where
-- the needle stands, as a test of every place in turn finds it; for a needle longer than the haystack it
-- gives none.
pub memmem-first_match :
    (h n : List ℕ) (k l : ℕ)
    → k ≤ length h
    → l ≤ length n
    → memmem h k n l ≡ ok (if ltb k l then none else first_match (k - l + 1) h n l)
unfolding memmem
memmem-first_match h n k zero a b =
    let empty : ltb k 0 ≡ false = ground arith in
    let one : k - 0 + 1 ≡ suc k = omega arith in rw (empty, one) refl
memmem-first_match h [] k (suc l) a b = absurd (omega arith)
memmem-first_match h (x ∷ n) k (suc l) a b = elim (Bool-cases (ltb k (suc l))) [
  | inl short ↦ rw short refl
  | inr long ↦ rw long (
      memmem_loop-first_match (k - suc l + 1) (k - suc l + 1) h x n l (omega arith) (ground arith)
        b)
]

-- What it means to be the first of the places below `c`, or that there is none.
abbrev pub IsFirst : ℕ → List ℕ → List ℕ → ℕ → Option ℕ → Type 0
IsFirst c h n l none = (j : ℕ) → j < c → starts_with l n (drop j h) ≡ false
IsFirst c h n l (some i) =
    (i < c)
    × (starts_with l n (drop i h) ≡ true)
    × ((j : ℕ) → j < i → starts_with l n (drop j h) ≡ false)

pub first_match-IsFirst : (c : ℕ) (h n : List ℕ) (l : ℕ) → IsFirst c h n l (first_match c h n l)
first_match-IsFirst zero h n l = λ j k. absurd (omega arith)
first_match-IsFirst (suc c) h n l = elim (Bool-cases (starts_with l n h)) [
  | inl here ↦ rw here (omega arith, here, λ j k. absurd (omega arith))
  | inr away ↦
      rw away (later (first_match c (drop 1 h) n l) away (first_match-IsFirst c (drop 1 h) n l))
]
  where
    before :
        (b : ℕ)
        → starts_with l n h ≡ false
        → ((j : ℕ) → j < b → starts_with l n (drop j (drop 1 h)) ≡ false)
        → (j : ℕ) → j < suc b
        → starts_with l n (drop j h) ≡ false
    before b away rest zero k = away
    before b away rest (suc j) k = ap (starts_with l n) (sym (drop-suc j h)) ∙ rest j (omega arith)

    later :
        (p : Option ℕ)
        → starts_with l n h ≡ false
        → IsFirst c (drop 1 h) n l p
        → IsFirst (suc c) h n l (further p)
    later none away rest = before c away rest
    later (some i) away (small, here, rest) =
        (omega arith, ap (starts_with l n) (sym (drop-suc i h)) ∙ here, before i away rest)

-- `strstr` of two strings: it returns, and gives the first place of the haystack where the needle stands
-- whole, or none if the needle stands nowhere in it.
pub strstr-IsFirst :
    (h n r s : List ℕ)
    → NoNul h
    → NoNul n
    → Returns
        (strstr (h ++ 0 ∷ r) (n ++ 0 ∷ s))
        (IsFirst (suc (length h) - length n) (h ++ 0 ∷ r) (n ++ 0 ∷ s) (length n))
unfolding strstr
strstr-IsFirst h n r s a b = elim (Bool-cases (length n == 0)) [
  | inl empty ↦
      let zero_long = (==_iff (length n) 0).0 empty in
      rw (nul_index-append n s b, empty)
        (omega arith, rw zero_long refl, λ j k. absurd (omega arith))
  | inr some_bytes ↦
      rw
        (
          nul_index-append n s b,
          some_bytes,
          nul_index-append h r a,
          memmem-first_match (h ++ 0 ∷ r) (n ++ 0 ∷ s) (length h) (length n)
              (omega (arith, length-append h (0 ∷ r))) (omega (arith, length-append n (0 ∷ s))),
        )
        (by_length (length h) (length n)
          (first_match-IsFirst (length h - length n + 1) (h ++ 0 ∷ r) (n ++ 0 ∷ s) (length n)))
]
  where
    by_length :
        (k l : ℕ)
        → IsFirst
            (k - l + 1)
            (h ++ 0 ∷ r)
            (n ++ 0 ∷ s)
            l
            (first_match (k - l + 1) (h ++ 0 ∷ r) (n ++ 0 ∷ s) l)
        → IsFirst
            (suc k - l)
            (h ++ 0 ∷ r)
            (n ++ 0 ∷ s)
            l
            (if ltb k l then none else first_match (k - l + 1) (h ++ 0 ∷ r) (n ++ 0 ∷ s) l)
    by_length k l first = elim (Bool-cases (ltb k l)) [
      | inl short ↦ rw short (λ j small. absurd (ground arith))
      | inr long ↦ let same : suc k - l ≡ k - l + 1 = ground arith in rw (long, same) first
    ]
