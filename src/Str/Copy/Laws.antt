-- ===== src/Str/Copy/Laws.antt =====
-- What the copies leave in the destination.
use native.Mathlib.Numerals.{add-one}
use libcs.Prelude.{
  NoNul, ℕ, zero, suc, ◌+◌, ◌-◌, ◌≡◌, refl, arith, false, List, [], ◌∷◌, Run, ok, ◌>>=◌, ltb, ◌==◌,
  if◌then◌else◌, ◌++◌, length, take, drop, ap, length-append, min, replicate, ◌∙◌, sym, ◌≤◌, ◌<◌,
  length-take, length-drop,
}
use libcs.Str.Mem.{
  at, memcpy, memset, store, memcpy-take, at-append, nul_index-append, strnlen-append,
  memset-replicate, store-drop,
}
use libcs.Str.Copy.{stpcpy, stpncpy, strlcpy}

pub take-append_le : (k : ℕ) (t u : List ℕ) → k ≤ length t → take k (t ++ u) ≡ take k t
take-append_le zero t u h = refl
take-append_le (suc k) [] u h = absurd (omega arith)
take-append_le (suc k) (x ∷ t) u h = ap (◌∷◌ x) (take-append_le k t u (omega arith))

pub take-append_suc :
    (t : List ℕ) (x : ℕ) (u e : List ℕ) → take (suc (length t)) (t ++ x ∷ u) ++ e ≡ t ++ x ∷ e
take-append_suc [] x u e = refl
take-append_suc (y ∷ t) x u e = ap (◌∷◌ y) (take-append_suc t x u e)

drop-nil : (k : ℕ) → drop {A = ℕ} k [] ≡ []
drop-nil zero = refl
drop-nil (suc k) = refl

pub drop-drop : (m n : ℕ) (d : List ℕ) → drop m (drop n d) ≡ drop (n + m) d
drop-drop m zero d = ap (λ k. drop k d) (omega arith)
drop-drop m (suc n) [] = drop-nil m ∙ sym (drop-nil (suc n + m))
drop-drop m (suc n) (x ∷ d) =
    drop-drop m n d ∙ ap (λ k. drop k (x ∷ d)) (let e : suc (n + m) ≡ suc n + m = omega arith in e)

-- The copy of a string with its terminator.
pub memcpy-terminated :
    (t u d : List ℕ)
    → length t < length d
    → memcpy d (t ++ 0 ∷ u) (length t + 1) ≡ ok (t ++ 0 ∷ drop (length t + 1) d)
memcpy-terminated t u d l = rw (
  memcpy-take d (t ++ 0 ∷ u) (length t + 1) (omega arith) (omega (arith, length-append t (0 ∷ u))),
  add-one (length t),
  take-append_suc t 0 u (drop (suc (length t)) d),
)

-- Into a buffer with room for the string and its terminator, `stpcpy` stores both, leaves what comes
-- after them and returns the terminator's place.
pub stpcpy_lem :
    (t u d : List ℕ)
    → NoNul t
    → length t < length d
    → stpcpy d (t ++ 0 ∷ u) ≡ ok (t ++ 0 ∷ drop (length t + 1) d, length t)
unfolding stpcpy
stpcpy_lem t u d h l = rw (nul_index-append t u h, memcpy-terminated t u d l)

-- The prefix of `k` bytes that a copy has stored is kept by a write behind it.
pub at-take :
    (k : ℕ) (t e : List ℕ) (f : List ℕ → Run (List ℕ))
    → k ≤ length t
    → at k f (take k t ++ e) ≡ (f e >>= λ r. ok (take k t ++ r))
at-take k t e f h = at-append k (take k t) e f (omega (arith, length-take k t))

pub memcpy-string :
    (d t u : List ℕ) (n : ℕ)
    → n ≤ length d
    → n ≤ length t
    → memcpy d (t ++ 0 ∷ u) n ≡ ok (take n t ++ drop n d)
memcpy-string d t u n h k =
    memcpy-take d (t ++ 0 ∷ u) n h (omega (arith, length-append t (0 ∷ u)))
    ∙ ap (λ p. ok (p ++ drop n d)) (take-append_le n t (0 ∷ u) k)

-- `strlcpy` with a size that the buffer has: it returns the source's length, and stores its first
-- `n - 1` bytes, or all if they are fewer, and a terminator, and leaves what comes after.
pub strlcpy_lem :
    (t u d : List ℕ) (n : ℕ)
    → NoNul t
    → 0 < n
    → n ≤ length d
    → let c = min (length t) (n - 1) in
      strlcpy d (t ++ 0 ∷ u) n ≡ ok (take c t ++ 0 ∷ drop (suc c) d, length t)
unfolding strlcpy
strlcpy_lem t u d n h p l = rw (
  nul_index-append t u h,
  positive,
  limit,
  memcpy-string d t u c (omega arith) (omega arith),
  at-take c t (drop c d) (store 0) (omega arith),
  store-drop 0 c d (omega arith),
)
  where
    c : ℕ
    c = min (length t) (n - 1)

    positive : (n == 0) ≡ false
    positive = ground arith

    limit : (if ltb (length t) (n - 1) then length t else n - 1) ≡ min (length t) (n - 1)
    limit = ground arith

-- `strlcpy` with size 0 stores nothing.
pub strlcpy-zero : (t u d : List ℕ) → NoNul t → strlcpy d (t ++ 0 ∷ u) 0 ≡ ok (d, length t)
unfolding strlcpy
strlcpy-zero t u d h = rw (nul_index-append t u h)

-- `stpncpy` stores the first `n` bytes of the string, or all and null bytes up to `n`, leaves what comes
-- after, and returns the end of the string's bytes.
pub stpncpy_lem :
    (t u d : List ℕ) (n : ℕ)
    → NoNul t
    → n ≤ length d
    → stpncpy d (t ++ 0 ∷ u) n
      ≡ ok (
        take (min (length t) n) t ++ (replicate (n - min (length t) n) 0 ++ drop n d),
        min (length t) n,
      )
unfolding stpncpy
stpncpy_lem t u d n h l = rw (
  strnlen-append t u n h,
  memcpy-string d t u c (omega arith) (omega arith),
  at-take c t (drop c d) (λ e. memset e 0 (n - c)) (omega arith),
  memset-replicate (drop c d) 0 (n - c) (omega (arith, length-drop c d)),
  drop-drop (n - c) c d,
  let whole : c + (n - c) ≡ n = omega arith in whole,
)
  where
    c : ℕ
    c = min (length t) n
