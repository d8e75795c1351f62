-- ===== src/Multibyte/Decode.antt =====
-- `wcrtomb` and `mbrtowc` are inverse to one another, and the decoder is strict.
use mathlib.Core.Logic.{◌↔◌}
use native.Mathlib.Decide.{dec_lt}
use libcs.Prelude.{
  ap, ◌∙◌, ℕ, zero, suc, ◌+◌, ◌*◌, ◌/◌, ◌%◌, ◌^◌, ◌≤◌, ◌<◌, ◌≡◌, refl, ◌≢◌, ◌⊎◌, arith, true, false,
  none, some, List, [], ◌∷◌, ◌++◌, ok, length, ◌==◌, if◌then◌else◌,
}
use libcs.Multibyte.{
  initial, count, MbResult, second_ok, rejects, continue, lead_byte, mbrtowc, wcrtomb,
}

-- A Unicode scalar value: a code point that is not a surrogate.
abbrev pub IsScalar : ℕ → Type 0
IsScalar c = (c < 0xd800) ⊎ ((0xe000 ≤ c) × (c < 0x11_0000))

-- What `mbrtowc` gives for the encoding of `c`: its length, or 0 for the null character.
abbrev pub decoded : ℕ → List ℕ → MbResult
decoded c bytes = record {
  ret = count (if c == 0 then 0 else length bytes);
  wc = some c;
  state = initial;
}

roundtrip_one :
    (c left : ℕ) (rest : List ℕ)
    → c < 0x80
    → mbrtowc (some (c ∷ rest)) (suc left) initial ≡ ok (decoded c (c ∷ []))
unfolding mbrtowc lead_byte
roundtrip_one c left rest h = ground arith

roundtrip_two :
    (c left : ℕ) (rest : List ℕ)
    → 0x80 ≤ c
    → c < 0x800
    → mbrtowc (some ((0xc0 + c / 2 ^ 6) ∷ (0x80 + c % 2 ^ 6) ∷ rest)) (suc (suc left)) initial
      ≡ ok (decoded c (0 ∷ 0 ∷ []))
unfolding mbrtowc lead_byte continue rejects second_ok
roundtrip_two c left rest h k = ground arith

roundtrip_three :
    (c left : ℕ) (rest : List ℕ)
    → 0x800 ≤ c
    → c < 0x1_0000
    → IsScalar c
    → mbrtowc
        (some ((0xe0 + c / 2 ^ 12) ∷ (0x80 + c / 2 ^ 6 % 2 ^ 6) ∷ (0x80 + c % 2 ^ 6) ∷ rest))
        (suc (suc (suc left)))
        initial
      ≡ ok (decoded c (0 ∷ 0 ∷ 0 ∷ []))
unfolding mbrtowc lead_byte continue rejects second_ok
roundtrip_three c left rest h k l = ground arith

roundtrip_four :
    (c left : ℕ) (rest : List ℕ)
    → 0x1_0000 ≤ c
    → c < 0x11_0000
    → mbrtowc
        (some (
          (0xf0 + c / 2 ^ 18)
          ∷ (0x80 + c / 2 ^ 12 % 2 ^ 6)
          ∷ (0x80 + c / 2 ^ 6 % 2 ^ 6)
          ∷ (0x80 + c % 2 ^ 6)
          ∷ rest))
        (suc (suc (suc (suc left))))
        initial
      ≡ ok (decoded c (0 ∷ 0 ∷ 0 ∷ 0 ∷ []))
unfolding mbrtowc lead_byte continue rejects second_ok
roundtrip_four c left rest h k = ground arith

-- Decoding the bytes that `wcrtomb` stores gives the character back, uses exactly those bytes and
-- leaves the initial state, whatever follows them.
pub mbrtowc-wcrtomb :
    (c n : ℕ) (bytes rest : List ℕ)
    → wcrtomb c ≡ some bytes
    → length bytes ≤ n
    → mbrtowc (some (bytes ++ rest)) n initial ≡ ok (decoded c bytes)
unfolding wcrtomb
mbrtowc-wcrtomb c zero bytes rest e h = ground arith
mbrtowc-wcrtomb c (suc zero) bytes rest e h = ground (arith, roundtrip_one c 0 rest)
mbrtowc-wcrtomb c (suc (suc zero)) bytes rest e h =
    ground (arith, roundtrip_one c 1 rest, roundtrip_two c 0 rest)
mbrtowc-wcrtomb c (suc (suc (suc zero))) bytes rest e h =
    ground (arith, roundtrip_one c 2 rest, roundtrip_two c 1 rest, roundtrip_three c 0 rest)
mbrtowc-wcrtomb c (suc (suc (suc (suc n)))) bytes rest e h = ground (
  arith,
  roundtrip_one c (3 + n) rest,
  roundtrip_two c (2 + n) rest,
  roundtrip_three c (1 + n) rest,
  roundtrip_four c n rest,
)

-- `wcrtomb` encodes exactly the scalar values.
pub wcrtomb-IsScalar : (c : ℕ) → c < 2 ^ 32 → (wcrtomb c ≢ none) ↔ IsScalar c
unfolding wcrtomb
wcrtomb-IsScalar c h = ground arith

-- The source of a successful decode, as the character's encoding and what follows it.
abbrev pub Encodes : List ℕ → MbResult → Type 0
Encodes s r =
    (c : ℕ) × (bytes : List ℕ) × (rest : List ℕ) × (r ≡ decoded c bytes)
    × (wcrtomb c ≡ some bytes)
    × (s ≡ bytes ++ rest)

strict_one :
    (b n : ℕ) (s : List ℕ) {r : MbResult} {k : ℕ}
    → b < 0x80
    → mbrtowc (some (b ∷ s)) (suc n) initial ≡ ok r
    → r.ret ≡ count k
    → Encodes (b ∷ s) r
unfolding mbrtowc lead_byte wcrtomb
strict_one b n s h e f = (b, b ∷ [], s, ground arith, ground arith, refl)

encode_two :
    (b b1 : ℕ)
    → 0xc2 ≤ b
    → b < 0xe0
    → 0x80 ≤ b1
    → b1 < 0xc0
    → wcrtomb (b % 2 ^ 5 * 2 ^ 6 % 2 ^ 32 + b1 % 2 ^ 6) ≡ some (b ∷ b1 ∷ [])
unfolding wcrtomb
encode_two b b1 h h' k k' = ground arith

encode_three :
    (b b1 b2 : ℕ)
    → 0xe0 ≤ b
    → b < 0xf0
    → second_ok b b1 ≡ true
    → 0x80 ≤ b2
    → b2 < 0xc0
    → wcrtomb ((b % 2 ^ 4 * 2 ^ 6 % 2 ^ 32 + b1 % 2 ^ 6) * 2 ^ 6 % 2 ^ 32 + b2 % 2 ^ 6)
      ≡ some (b ∷ b1 ∷ b2 ∷ [])
unfolding wcrtomb second_ok
encode_three b b1 b2 h h' k l l' = ground arith

encode_four :
    (b b1 b2 b3 : ℕ)
    → 0xf0 ≤ b
    → b < 0xf5
    → second_ok b b1 ≡ true
    → 0x80 ≤ b2
    → b2 < 0xc0
    → 0x80 ≤ b3
    → b3 < 0xc0
    → wcrtomb (
        ((b % 2 ^ 3 * 2 ^ 6 % 2 ^ 32 + b1 % 2 ^ 6) * 2 ^ 6 % 2 ^ 32 + b2 % 2 ^ 6) * 2 ^ 6 % 2 ^ 32
        + b3 % 2 ^ 6)
      ≡ some (b ∷ b1 ∷ b2 ∷ b3 ∷ [])
unfolding wcrtomb second_ok
encode_four b b1 b2 b3 h h' k l l' m m' = ground arith

rejects-zero : (b : ℕ) → rejects 0 b ≡ false → (0x80 ≤ b) × (b < 0xc0)
unfolding rejects
rejects-zero b h = omega (arith, two (b / 2 ^ 6) (ground arith))
  where
    two : (q : ℕ) → (q == 2) ≡ true → q ≡ 2
    two q e = ground arith

-- A round of the loop that ends in a character has read an acceptable byte.
continue-suc :
    (need left : ℕ) (s : List ℕ) (i c lead : ℕ) {r : MbResult} {k : ℕ}
    → continue (suc need) left s i c lead ≡ ok r
    → r.ret ≡ count k
    → (b : ℕ) × (s' : List ℕ) × (left' : ℕ) × (s ≡ b ∷ s')
      × (rejects lead b ≡ false)
      × (continue need left' s' (i + 1) (c * 2 ^ 6 % 2 ^ 32 + b % 2 ^ 6) 0 ≡ ok r)
unfolding continue
continue-suc need zero s i c lead e f = absurd (cc)
continue-suc need (suc left) [] i c lead e f = absurd (cc)
continue-suc need (suc left) (b ∷ s) i c lead e f = (b, s, left, refl, ground arith, ground arith)

-- The end of the loop, when the character's encoding is what was read.
done-Encodes :
    (left : ℕ) (s' : List ℕ) (i c b : ℕ) (bytes s : List ℕ) {r : MbResult}
    → 0x80 ≤ b
    → length (b ∷ bytes) ≡ i
    → wcrtomb c ≡ some (b ∷ bytes)
    → s ≡ b ∷ bytes ++ s'
    → continue zero left s' i c 0 ≡ ok r
    → Encodes s r
unfolding continue
done-Encodes left s' i c b bytes s h l e f g = (c, b ∷ bytes, s', ground (arith, nonzero c e), e, f)
  where
    nonzero : (c : ℕ) → wcrtomb c ≡ some (b ∷ bytes) → (c == 0) ≡ false
    nonzero zero e = unfold wcrtomb in ground arith
    nonzero (suc c) e = ground arith

module _ (b left : ℕ) (s : List ℕ) {r : MbResult} {k : ℕ} (f : r.ret ≡ count k) where
  strict_two : 0xc2 ≤ b → b < 0xe0 → continue 1 left s 1 (b % 2 ^ 5) b ≡ ok r → Encodes (b ∷ s) r
  unfolding rejects second_ok
  strict_two h h' e =
      let (b1, s1, left1, e1, k1, g1) = continue-suc 0 left s 1 (b % 2 ^ 5) b e f in
      done-Encodes left1 s1 2 _ b (b1 ∷ []) (b ∷ s) (omega arith) refl
        (encode_two b b1 h h' (ground arith) (ground arith)) (ap (◌∷◌ b) e1) g1

  strict_three : 0xe0 ≤ b → b < 0xf0 → continue 2 left s 1 (b % 2 ^ 4) b ≡ ok r → Encodes (b ∷ s) r
  strict_three h h' e =
      let (b1, s1, left1, e1, k1, g1) = continue-suc 1 left s 1 (b % 2 ^ 4) b e f in
      let (b2, s2, left2, e2, k2, g2) = continue-suc 0 left1 s1 2 _ 0 g1 f in
      let (l2, u2) = rejects-zero b2 k2 in
      done-Encodes left2 s2 3 _ b (b1 ∷ b2 ∷ []) (b ∷ s) (omega arith) refl
        (encode_three b b1 b2 h h' (unfold rejects in ground arith) l2 u2)
        (ap (◌∷◌ b) (e1 ∙ ap (◌∷◌ b1) e2)) g2

  strict_four : 0xf0 ≤ b → b < 0xf5 → continue 3 left s 1 (b % 2 ^ 3) b ≡ ok r → Encodes (b ∷ s) r
  strict_four h h' e =
      let (b1, s1, left1, e1, k1, g1) = continue-suc 2 left s 1 (b % 2 ^ 3) b e f in
      let (b2, s2, left2, e2, k2, g2) = continue-suc 1 left1 s1 2 _ 0 g1 f in
      let (b3, s3, left3, e3, k3, g3) = continue-suc 0 left2 s2 3 _ 0 g2 f in
      let (l2, u2) = rejects-zero b2 k2 in
      let (l3, u3) = rejects-zero b3 k3 in
      done-Encodes left3 s3 4 _ b (b1 ∷ b2 ∷ b3 ∷ []) (b ∷ s) (omega arith) refl
        (encode_four b b1 b2 b3 h h' (unfold rejects in ground arith) l2 u2 l3 u3)
        (ap (◌∷◌ b) (e1 ∙ ap (◌∷◌ b1) (e2 ∙ ap (◌∷◌ b2) e3))) g3

lead_byte-Encodes :
    (b left : ℕ) (s : List ℕ) {r : MbResult} {k : ℕ}
    → lead_byte b left s initial ≡ ok r
    → r.ret ≡ count k
    → Encodes (b ∷ s) r
lead_byte-Encodes b left s e f = elim (dec_lt b 0x80) [
  | yes h ↦
      (b, b ∷ [], s, (unfold lead_byte in ground arith), (unfold wcrtomb in ground arith), refl)
  | no h ↦ elim (dec_lt b 0xc2) [
    | yes k ↦ absurd (unfold lead_byte in ground arith)
    | no k ↦ elim (dec_lt b 0xe0) [
      | yes l ↦ strict_two b left s f (omega arith) l (unfold lead_byte in ground arith)
      | no l ↦ elim (dec_lt b 0xf0) [
        | yes m ↦ strict_three b left s f (omega arith) m (unfold lead_byte in ground arith)
        | no m ↦ elim (dec_lt b 0xf5) [
          | yes o ↦ strict_four b left s f (omega arith) o (unfold lead_byte in ground arith)
          | no o ↦ absurd (unfold lead_byte in ground arith)
        ]
      ]
    ]
  ]
]

-- A successful decode from the initial state has read exactly the encoding of the character that it
-- stores: no overlong form, surrogate or value above U+10FFFF is accepted.
pub mbrtowc-Encodes :
    (n : ℕ) (s : List ℕ) {r : MbResult} {k : ℕ}
    → mbrtowc (some s) n initial ≡ ok r
    → r.ret ≡ count k
    → Encodes s r
unfolding mbrtowc
mbrtowc-Encodes zero s e f = absurd (cc)
mbrtowc-Encodes (suc n) [] e f = absurd (cc)
mbrtowc-Encodes (suc n) (b ∷ s) e f = lead_byte-Encodes b n s e f
