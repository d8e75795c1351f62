-- ===== src/Str/Mem.antt =====
-- src/string.c: the mem functions on disjoint buffers, and the scans for a byte. `nul_index`, `find` and
-- `find_or_end` are the byte-by-byte meanings of the word-at-a-time loops of Str/Word.
use libcs.Prelude.{
  NoNul, ℕ, zero, suc, ◌%◌, ◌≡◌, refl, arith, false, Option, none, some, List, [], ◌∷◌, ◌++◌, Run,
  ok, fault, ◌>>=◌, ◌==◌, if◌then◌else◌, length, take, drop, ap, ◌≤◌, ◌<◌, replicate, ◌∙◌, min,
  ok-injective,
}

-- What a write leaves before the bytes that it does not reach.
abbrev pub keep : ℕ → Run (List ℕ) → Run (List ℕ)
keep x m = m >>= λ d. ok (x ∷ d)

-- A write through `d + k`.
unfoldable pub at : ℕ → (List ℕ → Run (List ℕ)) → List ℕ → Run (List ℕ)
at zero f d = f d
at (suc k) f [] = fault
at (suc k) f (x ∷ d) = keep x (at k f d)

-- `memcpy(d, s, n)`.
unfoldable pub memcpy : List ℕ → List ℕ → ℕ → Run (List ℕ)
memcpy d s zero = ok d
memcpy [] s (suc n) = fault
memcpy (x ∷ d) [] (suc n) = fault
memcpy (x ∷ d) (y ∷ s) (suc n) = keep y (memcpy d s n)

-- `memset(d, c, n)`: `stosb` stores the low byte of `c`.
unfoldable pub memset : List ℕ → ℕ → ℕ → Run (List ℕ)
memset d c zero = ok d
memset [] c (suc n) = fault
memset (x ∷ d) c (suc n) = keep (c % 256) (memset d c n)

-- `*d = c`.
unfoldable pub store : ℕ → List ℕ → Run (List ℕ)
store c [] = fault
store c (x ∷ d) = ok (c ∷ d)

-- A result one place further on.
abbrev pub further : Option ℕ → Option ℕ
further none = none
further (some i) = some (suc i)

abbrev pub index_or : ℕ → Option ℕ → ℕ
index_or n none = n
index_or n (some i) = i

-- The scan of `strlen`, by bytes.
unfoldable pub nul_index : List ℕ → Run ℕ
nul_index [] = fault
nul_index (c ∷ s) = let rest = nul_index s in if c == 0 then ok 0 else (rest >>= λ n. ok (suc n))

-- The scan of `memchr`, by bytes: the offset of the first `c` among the first `n`.
unfoldable pub find : ℕ → ℕ → List ℕ → Run (Option ℕ)
find c zero s = ok none
find c (suc n) [] = fault
find c (suc n) (b ∷ s) =
    let rest = find c n s in if b == c then ok (some 0) else (rest >>= λ o. ok (further o))

-- `strnlen(s, n)`.
unfoldable pub strnlen : List ℕ → ℕ → Run ℕ
strnlen s n = find 0 n s >>= λ p. ok (index_or n p)

pub at-append :
    (k : ℕ) (d e : List ℕ) (f : List ℕ → Run (List ℕ))
    → length d ≡ k
    → at k f (d ++ e) ≡ (f e >>= λ r. ok (d ++ r))
unfolding at
at-append zero [] e f h = elim (f e) as (λ m. m ≡ (m >>= λ r. ok r)) [ ok r ↦ refl | fault ↦ refl ]
at-append (suc k) [] e f h = absurd (omega arith)
at-append zero (x ∷ d) e f h = absurd (omega arith)
at-append (suc k) (x ∷ d) e f h =
    ap (keep x) (at-append k d e f (omega arith))
    ∙ elim (f e) as (λ m. keep x (m >>= λ r. ok (d ++ r)) ≡ (m >>= λ r. ok (x ∷ d ++ r))) [
      | ok r ↦ refl
      | fault ↦ refl
    ]

pub memcpy-take :
    (d s : List ℕ) (n : ℕ) → n ≤ length d → n ≤ length s → memcpy d s n ≡ ok (take n s ++ drop n d)
unfolding memcpy
memcpy-take d s zero h k = refl
memcpy-take [] s (suc n) h k = absurd (omega arith)
memcpy-take (x ∷ d) [] (suc n) h k = absurd (omega arith)
memcpy-take (x ∷ d) (y ∷ s) (suc n) h k = rw (memcpy-take d s n (omega arith) (omega arith))

pub memset-replicate :
    (d : List ℕ) (c n : ℕ) → n ≤ length d → memset d c n ≡ ok (replicate n (c % 256) ++ drop n d)
unfolding memset
memset-replicate d c zero h = refl
memset-replicate [] c (suc n) h = absurd (omega arith)
memset-replicate (x ∷ d) c (suc n) h = rw (memset-replicate d c n (omega arith))

pub store-drop :
    (c n : ℕ) (d : List ℕ) → n < length d → store c (drop n d) ≡ ok (c ∷ drop (suc n) d)
unfolding store
store-drop c n [] h = absurd (omega arith)
store-drop c zero (x ∷ d) h = refl
store-drop c (suc n) (x ∷ d) h = store-drop c n d (omega arith)

pub nul_index-append : (t u : List ℕ) → NoNul t → nul_index (t ++ 0 ∷ u) ≡ ok (length t)
unfolding nul_index
nul_index-append [] u h = refl
nul_index-append (c ∷ t) u h =
    let more : (c == 0) ≡ false = ground (arith, h.0) in rw (nul_index-append t u h.1, more)

-- `strnlen` of a string, whether or not the terminator is among the first `n` bytes.
pub strnlen-append :
    (t u : List ℕ) (n : ℕ) → NoNul t → strnlen (t ++ 0 ∷ u) n ≡ ok (min (length t) n)
unfolding strnlen find
strnlen-append t u zero h = ap ok (omega arith)
strnlen-append [] u (suc n) h = ap ok (omega arith)
strnlen-append (c ∷ t) u (suc n) h =
    let more : (c == 0) ≡ false = ground (arith, h.0) in
    rw (more) (shift (find 0 n (t ++ 0 ∷ u)) (strnlen-append t u n h.1))
  where
    shift :
        (m : Run (Option ℕ))
        → (m >>= λ p. ok (index_or n p)) ≡ ok (min (length t) n)
        → ((m >>= λ o. ok (further o)) >>= λ p. ok (index_or (suc n) p))
          ≡ ok (min (suc (length t)) (suc n))
    shift (ok none) e = ap ok (omega (arith, ok-injective e))
    shift (ok (some i)) e = ap ok (omega (arith, ok-injective e))
    shift fault e = absurd (cc)

find-NoNul : (d : List ℕ) (n : ℕ) → NoNul d → n ≤ length d → find 0 n d ≡ ok none
unfolding find
find-NoNul d zero h l = refl
find-NoNul [] (suc n) h l = absurd (omega arith)
find-NoNul (c ∷ d) (suc n) h l =
    let more : (c == 0) ≡ false = ground (arith, h.0) in rw (find-NoNul d n h.1 (omega arith), more)

-- `strnlen` of bytes with no null byte among them.
pub strnlen-NoNul : (d : List ℕ) (n : ℕ) → NoNul d → n ≤ length d → strnlen d n ≡ ok n
unfolding strnlen
strnlen-NoNul d n h l = rw (find-NoNul d n h l)
