-- ===== src/Uchar/Utf8.antt =====
-- src/uchar.c: a character in UTF-8 units, one call for each.
use libcs.Prelude.{
  ℕ, zero, suc, ◌+◌, ◌*◌, ◌/◌, ◌%◌, ◌^◌, ◌≤◌, ◌<◌, ◌≡◌, refl, arith, none, some, List, [], ◌∷◌,
  ◌++◌, Run, ok, fault, ◌>>=◌, ◌==◌, if◌then◌else◌, length,
}
use libcs.Multibyte.{
  MbState, initial, incomplete, MbResult, mbrtowc, wcrtomb, lead_byte, continue, rejects, second_ok,
}
use libcs.Multibyte.Decode.{mbrtowc-wcrtomb}
use libcs.Uchar.{split8, next8, mbrtoc8, c8rtomb, c8first, c8more, c8keep, needed, pack, unpack}

-- The units that calls of `mbrtoc8` on the same bytes store, up to the first that leaves nothing pending.
unfoldable pub drain8 : ℕ → List ℕ → ℕ → MbState → Run (List ℕ)
drain8 zero s n st = fault
drain8 (suc calls) s n st = mbrtoc8 (some s) n st >>= λ r. elim r.unit [
  | none ↦ fault
  | some u ↦
      if r.state.n == 0 then ok (u ∷ []) else (drain8 calls s n r.state >>= λ us. ok (u ∷ us))
]

-- The bytes that calls of `c8rtomb` on the units store, and the state that they leave; EILSEQ is a fault.
unfoldable pub feed8 : List ℕ → MbState → Run (List ℕ × MbState)
feed8 [] st = ok ([], st)
feed8 (u ∷ us) st = c8rtomb u st >>= λ (stored, st'). elim stored [
  | none ↦ fault
  | some bytes ↦ feed8 us st' >>= λ (more, st''). ok (bytes ++ more, st'')
]

-- What `wcrtomb` gives, by its length.
data Shape (c : ℕ) : List ℕ → Type 0 where
  one : (a : ℕ) → a < 0x80 → a ≡ c → Shape c (a ∷ [])
  two : (a b : ℕ) → 0xc2 ≤ a → a < 0xe0 → b < 256 → Shape c (a ∷ b ∷ [])
  three : (a b d : ℕ) → 0xe0 ≤ a → a < 0xf0 → b < 256 → d < 256 → Shape c (a ∷ b ∷ d ∷ [])
  four :
      (a b d e : ℕ)
      → 0xf0 ≤ a
      → a < 0xf5
      → b < 256
      → d < 256
      → e < 256
      → Shape c (a ∷ b ∷ d ∷ e ∷ [])

wcrtomb-Shape : (c : ℕ) (bytes : List ℕ) → wcrtomb c ≡ some bytes → Shape c bytes
unfolding wcrtomb
wcrtomb-Shape c [] e = absurd (ground arith)
wcrtomb-Shape c (a ∷ []) e = one a (ground arith) (ground arith)
wcrtomb-Shape c (a ∷ b ∷ []) e = two a b (ground arith) (ground arith) (ground arith)
wcrtomb-Shape c (a ∷ b ∷ d ∷ []) e =
    three a b d (ground arith) (ground arith) (ground arith) (ground arith)
wcrtomb-Shape c (a ∷ b ∷ d ∷ f ∷ []) e =
    four a b d f (ground arith) (ground arith) (ground arith) (ground arith) (ground arith)
wcrtomb-Shape c (a ∷ b ∷ d ∷ f ∷ g ∷ bytes) e = absurd (ground arith)

drain8-bytes :
    (c n : ℕ) (bytes rest : List ℕ)
    → wcrtomb c ≡ some bytes
    → length bytes ≤ n
    → Shape c bytes
    → drain8 4 (bytes ++ rest) n initial ≡ ok bytes
unfolding drain8 mbrtoc8 split8 next8 pack
drain8-bytes c n bytes rest e room (one a h g) =
    ground (arith, mbrtowc-wcrtomb c n (a ∷ []) rest e room)
drain8-bytes c n bytes rest e room (two a b h g k) =
    ground (arith, mbrtowc-wcrtomb c n (a ∷ b ∷ []) rest e room)
drain8-bytes c n bytes rest e room (three a b d h g k l) =
    ground (arith, mbrtowc-wcrtomb c n (a ∷ b ∷ d ∷ []) rest e room)
drain8-bytes c n bytes rest e room (four a b d f h g k l m) =
    ground (arith, mbrtowc-wcrtomb c n (a ∷ b ∷ d ∷ f ∷ []) rest e room)

-- A character's bytes but for the last ones are incomplete.
abbrev Incomplete : List ℕ → Type 0
Incomplete s = (r : MbResult) × (mbrtowc (some s) (length s) initial ≡ ok r) × (r.ret ≡ incomplete)

abbrev half_read : ℕ → ℕ → MbResult
half_read c n = record { ret = incomplete; wc = none; state = record { st = c; n = n } }

two_of_three : (c a b d : ℕ) → wcrtomb c ≡ some (a ∷ b ∷ d ∷ []) → Incomplete (a ∷ b ∷ [])
unfolding wcrtomb mbrtowc lead_byte continue rejects second_ok
two_of_three c a b d e =
    (half_read ((a % 2 ^ 4) * 2 ^ 6 % 2 ^ 32 + b % 2 ^ 6) 1, ground arith, refl)

two_of_four : (c a b d f : ℕ) → wcrtomb c ≡ some (a ∷ b ∷ d ∷ f ∷ []) → Incomplete (a ∷ b ∷ [])
unfolding wcrtomb mbrtowc lead_byte continue rejects second_ok
two_of_four c a b d f e =
    (half_read ((a % 2 ^ 3) * 2 ^ 6 % 2 ^ 32 + b % 2 ^ 6) 2, ground arith, refl)

three_of_four :
    (c a b d f : ℕ) → wcrtomb c ≡ some (a ∷ b ∷ d ∷ f ∷ []) → Incomplete (a ∷ b ∷ d ∷ [])
unfolding wcrtomb mbrtowc lead_byte continue rejects second_ok
three_of_four c a b d f e = (
  half_read (((a % 2 ^ 3) * 2 ^ 6 % 2 ^ 32 + b % 2 ^ 6) * 2 ^ 6 % 2 ^ 32 + d % 2 ^ 6) 1,
  ground arith,
  refl,
)

abbrev kept : ℕ → ℕ → MbState
kept st have = record { st = st; n = 2 ^ 28 + have }

-- The first byte of a character that has more, and one that is not yet the last.
first-kept : (a : ℕ) → 0xc2 ≤ a → a < 0xf5 → c8rtomb a initial ≡ ok (some [], kept a 1)
unfolding c8rtomb c8first
first-kept a h k = ground arith

second-kept :
    (a b : ℕ)
    → 0xe0 ≤ a
    → a < 256
    → Incomplete (a ∷ b ∷ [])
    → c8rtomb b (kept a 1) ≡ ok (some [], kept (a + b * 2 ^ 8) 2)
unfolding c8rtomb c8more c8keep needed unpack
second-kept a b h k (r, e, g) = let byte : a % 2 ^ 8 ≡ a = omega arith in ground arith

third-kept :
    (a b d : ℕ)
    → 0xf0 ≤ a
    → a < 256
    → b < 256
    → Incomplete (a ∷ b ∷ d ∷ [])
    → c8rtomb d (kept (a + b * 2 ^ 8) 2) ≡ ok (some [], kept (a + b * 2 ^ 8 + d * 2 ^ 16) 3)
unfolding c8rtomb c8more c8keep needed unpack
third-kept a b d h k l (r, e, g) =
    let low : (a + b * 2 ^ 8) % 2 ^ 8 ≡ a = omega arith in
    let high : (a + b * 2 ^ 8) / 2 ^ 8 % 2 ^ 8 ≡ b = omega arith in ground arith

-- The last byte of a character.
last_of_two :
    (c a b : ℕ)
    → wcrtomb c ≡ some (a ∷ b ∷ [])
    → 0xc2 ≤ a
    → a < 0xe0
    → c8rtomb b (kept a 1) ≡ ok (some (a ∷ b ∷ []), initial)
unfolding c8rtomb c8more c8keep needed unpack
last_of_two c a b e h k =
    let byte : a % 2 ^ 8 ≡ a = omega arith in
    ground (arith, mbrtowc-wcrtomb c 2 (a ∷ b ∷ []) [] e (omega arith))

last_of_three :
    (c a b d : ℕ)
    → wcrtomb c ≡ some (a ∷ b ∷ d ∷ [])
    → 0xe0 ≤ a
    → a < 0xf0
    → b < 256
    → c8rtomb d (kept (a + b * 2 ^ 8) 2) ≡ ok (some (a ∷ b ∷ d ∷ []), initial)
unfolding c8rtomb c8more c8keep needed unpack
last_of_three c a b d e h k l =
    let low : (a + b * 2 ^ 8) % 2 ^ 8 ≡ a = omega arith in
    let high : (a + b * 2 ^ 8) / 2 ^ 8 % 2 ^ 8 ≡ b = omega arith in
    ground (arith, mbrtowc-wcrtomb c 3 (a ∷ b ∷ d ∷ []) [] e (omega arith))

last_of_four :
    (c a b d f : ℕ)
    → wcrtomb c ≡ some (a ∷ b ∷ d ∷ f ∷ [])
    → 0xf0 ≤ a
    → a < 0xf5
    → b < 256
    → d < 256
    → c8rtomb f (kept (a + b * 2 ^ 8 + d * 2 ^ 16) 3) ≡ ok (some (a ∷ b ∷ d ∷ f ∷ []), initial)
unfolding c8rtomb c8more c8keep needed unpack
last_of_four c a b d f e h k l m =
    let low : (a + b * 2 ^ 8 + d * 2 ^ 16) % 2 ^ 8 ≡ a = omega arith in
    let middle : (a + b * 2 ^ 8 + d * 2 ^ 16) / 2 ^ 8 % 2 ^ 8 ≡ b = omega arith in
    let high : (a + b * 2 ^ 8 + d * 2 ^ 16) / 2 ^ 8 / 2 ^ 8 % 2 ^ 8 ≡ d = omega arith in
    ground (arith, mbrtowc-wcrtomb c 4 (a ∷ b ∷ d ∷ f ∷ []) [] e (omega arith))

only_byte : (a : ℕ) → a < 0x80 → c8rtomb a initial ≡ ok (some (a ∷ []), initial)
unfolding c8rtomb c8first
only_byte a h = ground arith

feed8-bytes :
    (c : ℕ) (bytes : List ℕ)
    → wcrtomb c ≡ some bytes
    → Shape c bytes
    → feed8 bytes initial ≡ ok (bytes, initial)
unfolding feed8
feed8-bytes c bytes e (one a h g) = rw (only_byte a h)
feed8-bytes c bytes e (two a b h g k) = rw (first-kept a h (omega arith), last_of_two c a b e h g)
feed8-bytes c bytes e (three a b d h g k l) = rw (
  first-kept a (omega arith) (omega arith),
  second-kept a b h (omega arith) (two_of_three c a b d e),
  last_of_three c a b d e h g k,
)
feed8-bytes c bytes e (four a b d f h g k l m) = rw (
  first-kept a (omega arith) (omega arith),
  second-kept a b (omega arith) (omega arith) (two_of_four c a b d f e),
  third-kept a b d h (omega arith) k (three_of_four c a b d f e),
  last_of_four c a b d f e h g k l,
)

-- The units that `mbrtoc8` gives, one call after another, for the bytes of a character are these bytes,
-- whatever follows them; and `c8rtomb`, called with one of them after another, stores the same bytes in all
-- and ends in the initial state.
pub mbrtoc8-c8rtomb :
    (c n : ℕ) (bytes rest : List ℕ)
    → wcrtomb c ≡ some bytes
    → length bytes ≤ n
    → (drain8 4 (bytes ++ rest) n initial ≡ ok bytes) × (feed8 bytes initial ≡ ok (bytes, initial))
mbrtoc8-c8rtomb c n bytes rest e room =
    let shape = wcrtomb-Shape c bytes e in
    (drain8-bytes c n bytes rest e room shape, feed8-bytes c bytes e shape)
