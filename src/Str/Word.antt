-- ===== src/Str/Word.antt =====
-- src/string.c: the scans that read aligned words, `strlen`, `memchr` and `strchrnul`. The argument
-- `a` is the address of the first byte; the bytes listed are those of the mapped memory from there
-- on, whose end is on a word boundary. x86-64 loads a word low byte first.
pub mod Zero
pub mod Laws
use Prim.Native.Nat.{bit_and, bit_xor}
use libcs.Prelude.{
  ℕ, zero, suc, ◌+◌, ◌-◌, ◌*◌, ◌%◌, ◌^◌, Bool, true, false, ◌&&◌, ◌||◌, Option, none, some, List,
  [], ◌∷◌, Run, ok, fault, ◌>>=◌, ltb, ◌==◌, if◌then◌else◌,
}
use libcs.Str.Mem.{nul_index, find}

-- `ONES` and `HIGHS`: 0x01 and 0x80 in each byte.
abbrev pub ones : ℕ
ones = 0x0101_0101_0101_0101

abbrev pub highs : ℕ
highs = 0x8080_8080_8080_8080

-- `HASZERO(x)`, as a truth value.
unfoldable pub haszero : ℕ → Bool
haszero x =
    if bit_and (bit_and ((x + 2 ^ 64 - ones) % 2 ^ 64) (2 ^ 64 - 1 - x)) highs == 0
    then false
    else true

-- The word in memory at its bytes.
abbrev pub load : List ℕ → ℕ
load [] = 0
load (b ∷ s) = load s * 256 + b

abbrev pub advance : ℕ → Run ℕ → Run ℕ
advance k m = m >>= λ n. ok (n + k)

abbrev pub advance? : ℕ → Run (Option ℕ) → Run (Option ℕ)
advance? k m = m >>= λ o. ok (elim o [ none ↦ none | some n ↦ some (n + k) ])

-- The word loop of `strlen` and the byte loop behind it.
unfoldable pub strlen_words : List ℕ → Run ℕ
strlen_words (b0 ∷ b1 ∷ b2 ∷ b3 ∷ b4 ∷ b5 ∷ b6 ∷ b7 ∷ s) =
    let rest = strlen_words s in
    if haszero (load (b0 ∷ b1 ∷ b2 ∷ b3 ∷ b4 ∷ b5 ∷ b6 ∷ b7 ∷ []))
    then nul_index (b0 ∷ b1 ∷ b2 ∷ b3 ∷ b4 ∷ b5 ∷ b6 ∷ b7 ∷ s)
    else advance 8 rest
strlen_words s = fault

-- `strlen(s)`: bytes up to a word boundary, then words.
unfoldable pub strlen : ℕ → List ℕ → Run ℕ
strlen a [] = fault
strlen a (b ∷ s) =
    let rest = strlen (a + 1) s in
    if a % 8 == 0 then strlen_words (b ∷ s) else if b == 0 then ok 0 else advance 1 rest

-- The word loop of `memchr` and the byte loop behind it; `c` is a byte.
unfoldable pub memchr_words : List ℕ → ℕ → ℕ → Run (Option ℕ)
memchr_words (b0 ∷ b1 ∷ b2 ∷ b3 ∷ b4 ∷ b5 ∷ b6 ∷ b7 ∷ s) c n =
    let rest = memchr_words s c (n - 8) in
    if ltb n 8 || haszero (bit_xor (load (b0 ∷ b1 ∷ b2 ∷ b3 ∷ b4 ∷ b5 ∷ b6 ∷ b7 ∷ [])) (ones * c))
    then find c n (b0 ∷ b1 ∷ b2 ∷ b3 ∷ b4 ∷ b5 ∷ b6 ∷ b7 ∷ s)
    else advance? 8 rest
memchr_words s c n = if ltb n 8 then find c n s else fault

-- `memchr` with `c` cut to a byte: its first loop, and the test behind it.
unfoldable pub memchr_from : ℕ → List ℕ → ℕ → ℕ → Run (Option ℕ)
memchr_from a s c zero = ok none
memchr_from a [] c (suc n) = fault
memchr_from a (b ∷ s) c (suc n) =
    let rest = memchr_from (a + 1) s c n in
    if b == c
    then ok (some 0)
    else if a % 8 == 0
    then memchr_words (b ∷ s) c (suc n)
    else advance? 1 rest

-- `memchr(s, c, n)`, as an offset or null.
unfoldable pub memchr : ℕ → List ℕ → ℕ → ℕ → Run (Option ℕ)
memchr a s c n = memchr_from a s (c % 256) n

-- The last loop of `strchrnul`: the first `c` or null byte.
unfoldable pub find_or_end : ℕ → List ℕ → Run ℕ
find_or_end c [] = fault
find_or_end c (b ∷ s) =
    let rest = find_or_end c s in if (b == 0) || (b == c) then ok 0 else advance 1 rest

-- The word loop of `strchrnul`.
unfoldable pub strchrnul_words : List ℕ → ℕ → Run ℕ
strchrnul_words (b0 ∷ b1 ∷ b2 ∷ b3 ∷ b4 ∷ b5 ∷ b6 ∷ b7 ∷ s) c =
    let w = load (b0 ∷ b1 ∷ b2 ∷ b3 ∷ b4 ∷ b5 ∷ b6 ∷ b7 ∷ []) in
    let rest = strchrnul_words s c in
    if haszero w || haszero (bit_xor w (ones * c))
    then find_or_end c (b0 ∷ b1 ∷ b2 ∷ b3 ∷ b4 ∷ b5 ∷ b6 ∷ b7 ∷ s)
    else advance 8 rest
strchrnul_words s c = fault

-- `strchrnul` from its first loop on, for a byte `c` that is not null.
unfoldable pub strchrnul_from : ℕ → List ℕ → ℕ → Run ℕ
strchrnul_from a [] c = fault
strchrnul_from a (b ∷ s) c =
    let rest = strchrnul_from (a + 1) s c in
    if a % 8 == 0
    then strchrnul_words (b ∷ s) c
    else if (b == 0) || (b == c)
    then ok 0
    else advance 1 rest

-- `strchrnul(s, c)`, as an offset.
unfoldable pub strchrnul : ℕ → List ℕ → ℕ → Run ℕ
strchrnul a s c = if c % 256 == 0 then strlen a s else strchrnul_from a s (c % 256)
