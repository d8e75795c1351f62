-- ===== src/Str/Copy/Append.antt =====
-- What the concatenations leave in the destination, which holds the string `p` and has more room.
use native.Mathlib.Numerals.{add-one}
use libcs.Prelude.{
  NoNul, ℕ, zero, suc, ◌+◌, ◌-◌, ◌≡◌, refl, arith, true, false, List, [], ◌∷◌, Run, ok, fault,
  ◌>>=◌, ◌==◌, ◌++◌, length, take, drop, ap, length-append, append_assoc, min, ◌∙◌, ◌≤◌, ◌<◌,
  length-take,
}
use libcs.Str.Mem.{
  memcpy, store, at-append, nul_index-append, strnlen-append, strnlen-NoNul, store-drop,
}
use libcs.Str.Copy.Laws.{memcpy-string, stpcpy_lem, strlcpy_lem}
use libcs.Str.Copy.{strcpy, strcat, strncat, strlcpy, strlcat, at_with}

strcpy_lem :
    (t u d : List ℕ)
    → NoNul t
    → length t < length d
    → strcpy d (t ++ 0 ∷ u) ≡ ok (t ++ 0 ∷ drop (length t + 1) d)
unfolding strcpy
strcpy_lem t u d h l = rw (stpcpy_lem t u d h l)

-- `strcat` into room for both strings and a terminator stores the second behind the first.
pub strcat_lem :
    (p q t u : List ℕ)
    → NoNul p
    → NoNul t
    → length t ≤ length q
    → strcat (p ++ 0 ∷ q) (t ++ 0 ∷ u) ≡ ok (p ++ (t ++ 0 ∷ drop (length t) q))
unfolding strcat
strcat_lem p q t u hp ht l = rw (
  nul_index-append p q hp,
  at-append (length p) p (0 ∷ q) (λ e. strcpy e (t ++ 0 ∷ u)) refl,
  strcpy_lem t u (0 ∷ q) ht (omega arith),
  add-one (length t),
)

-- `strncat` stores at most `n` bytes of the second string behind the first, and always a terminator.
pub strncat_lem :
    (p q t u : List ℕ) (n : ℕ)
    → NoNul p
    → NoNul t
    → min (length t) n ≤ length q
    → let c = min (length t) n in
      strncat (p ++ 0 ∷ q) (t ++ 0 ∷ u) n ≡ ok (p ++ (take c t ++ 0 ∷ drop c q))
unfolding strncat
strncat_lem p q t u n hp ht l = rw (
  nul_index-append p q hp,
  strnlen-append t u n ht,
  at-append (length p) p (0 ∷ q) (λ e. memcpy e (t ++ 0 ∷ u) c) refl,
  memcpy-string (0 ∷ q) t u c (omega arith) (omega arith),
  ← append_assoc p (take c t) (drop c (0 ∷ q)),
  at-append (length p + c) (p ++ take c t) (drop c (0 ∷ q)) (store 0)
      (omega (arith, length-append p (take c t), length-take c t)),
  store-drop 0 c (0 ∷ q) (omega arith),
  append_assoc p (take c t) (0 ∷ drop c q),
)
  where
    c : ℕ
    c = min (length t) n

abbrev pub behind : List ℕ → Run (List ℕ × ℕ) → Run (List ℕ × ℕ)
behind d m = m >>= λ r. ok (d ++ r.0, r.1)

at_with-append :
    (k : ℕ) (d e : List ℕ) (f : List ℕ → Run (List ℕ × ℕ))
    → length d ≡ k
    → at_with k f (d ++ e) ≡ behind d (f e)
unfolding at_with
at_with-append zero [] e f h = elim (f e) as (λ m. m ≡ behind [] m) [ ok r ↦ refl | fault ↦ refl ]
at_with-append (suc k) [] e f h = absurd (omega arith)
at_with-append zero (x ∷ d) e f h = absurd (omega arith)
at_with-append (suc k) (x ∷ d) e f h =
    ap (behind (x ∷ [])) (at_with-append k d e f (omega arith))
    ∙ elim (f e) as (λ m. behind (x ∷ []) (behind d m) ≡ behind (x ∷ d) m) [
      | ok r ↦ refl
      | fault ↦ refl
    ]

-- `strlcat` with a size that the buffer has and the first string leaves room in: it returns the sum of
-- the lengths, and stores as much of the second string as fits before the terminator, which is always
-- stored, and leaves what comes after.
pub strlcat_lem :
    (p q t u : List ℕ) (n : ℕ)
    → NoNul p
    → NoNul t
    → length p < n
    → n ≤ length p + 1 + length q
    → let c = min (length t) (n - length p - 1) in
      strlcat (p ++ 0 ∷ q) (t ++ 0 ∷ u) n
      ≡ ok (p ++ (take c t ++ 0 ∷ drop c q), length p + length t)
unfolding strlcat
strlcat_lem p q t u n hp ht l r = rw (
  strnlen-append p q n hp,
  inside,
  room,
  at_with-append (length p) p (0 ∷ q) (λ e. strlcpy e (t ++ 0 ∷ u) (n - length p)) refl,
  strlcpy_lem t u (0 ∷ q) (n - length p) ht (omega arith) (omega arith),
)
  where
    inside : min (length p) n ≡ length p
    inside = omega arith

    room : (length p == n) ≡ false
    room = ground arith

-- With no room left, `strlcat` stores nothing and returns the size plus the source's length.
pub strlcat_full :
    (p q t u : List ℕ) (n : ℕ)
    → NoNul p
    → NoNul t
    → n ≤ length p
    → strlcat (p ++ 0 ∷ q) (t ++ 0 ∷ u) n ≡ ok (p ++ 0 ∷ q, n + length t)
unfolding strlcat
strlcat_full p q t u n hp ht l = rw (
  strnlen-append p q n hp,
  let full : min (length p) n ≡ n = omega arith in full,
  let same : (n == n) ≡ true = ground arith in same,
  nul_index-append t u ht,
)

-- So too if no null byte is among the first `n` bytes of the buffer.
pub strlcat-NoNul :
    (t u d : List ℕ) (n : ℕ)
    → NoNul d
    → NoNul t
    → n ≤ length d
    → strlcat d (t ++ 0 ∷ u) n ≡ ok (d, n + length t)
unfolding strlcat
strlcat-NoNul t u d n hd ht l =
    let same : (n == n) ≡ true = ground arith in
    rw (strnlen-NoNul d n hd l, same, nul_index-append t u ht)
