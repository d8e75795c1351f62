-- ===== src/Str/Word/Zero.antt =====
-- `HASZERO` finds a null byte in a word, and nothing else.
use Prim.Native.Nat.{bit_and, bit_xor}
use native.Mathlib.Nat.{mod-eq_of_lt, add-mod_right}
use native.Mathlib.Decide.{dec_lt, ℕ_discrete}
use libcs.Prelude.{
  NoNul, ℕ, ◌+◌, ◌-◌, ◌*◌, ◌%◌, ◌^◌, ◌≤◌, ◌<◌, ◌≡◌, refl, ◌≢◌, ◌↔◌, arith, true, false, List, [],
  ◌∷◌, ◌==◌, if◌then◌else◌, ap, ◌∙◌, sym,
}
use libcs.Prelude.Bits.{bit_and-byte, bit_and-lt, bit_and-marker, bit_xor-byte, bit_xor-eq_zero}
use libcs.Str.Word.{ones, highs, haszero, load}

abbrev pub IsBytes : List ℕ → Type 0
IsBytes [] = Unit
IsBytes (b ∷ s) = (b < 256) × IsBytes s

-- The markers of null bytes in a word below `m`, with 0x01 and 0x80 in each byte of `o` and `h`.
markers : ℕ → ℕ → ℕ → ℕ → ℕ
markers m o h w = bit_and (bit_and ((w + m - o) % m) (m - 1 - w)) h

sub_ones :
    (m o w b : ℕ)
    → 1 ≤ b
    → b < 256
    → w < m
    → o ≤ m
    → (w * 256 + b + m * 256 - (o * 256 + 1)) % (m * 256) ≡ (w + m - o) % m * 256 + (b - 1)
sub_ones m o w b h k l n = elim (dec_lt w o) [
  | yes x ↦
      rw
        (
          mod-eq_of_lt (let e : w + m - o < m = omega arith in e),
          mod-eq_of_lt (let e : w * 256 + b + m * 256 - (o * 256 + 1) < m * 256 = omega arith in e),
        )
        (omega arith)
  | no x ↦ rw (
    let e : w + m - o ≡ w - o + m = omega arith in e,
    let e : w * 256 + b + m * 256 - (o * 256 + 1) ≡ (w - o) * 256 + (b - 1) + m * 256 =
          omega arith in
        e,
    add-mod_right,
    add-mod_right,
    mod-eq_of_lt (let e : w - o < m = omega arith in e),
    mod-eq_of_lt (let e : (w - o) * 256 + (b - 1) < m * 256 = omega arith in e),
  )
]

-- A byte that is not null adds no marker and leaves those above it.
markers-pos :
    (m o h w b : ℕ)
    → 1 ≤ b
    → b < 256
    → w < m
    → o ≤ m
    → markers (m * 256) (o * 256 + 1) (h * 256 + 128) (w * 256 + b) ≡ markers m o h w * 256
unfolding markers
markers-pos m o h w b p k l n =
    rw
      (
        sub_ones m o w b p k l n,
        let e : m * 256 - 1 - (w * 256 + b) ≡ (m - 1 - w) * 256 + (255 - b) = omega arith in e,
        bit_and-byte ((w + m - o) % m) (m - 1 - w) (b - 1) (255 - b) (omega arith) (omega arith),
        bit_and-byte (bit_and ((w + m - o) % m) (m - 1 - w)) h (bit_and (b - 1) (255 - b)) 128
            (bit_and-lt (b - 1) (255 - b) (omega arith) (omega arith)) (omega arith),
        bit_and-marker b p k,
      )
      (omega arith)

sub_ones_zero :
    (m o w : ℕ)
    → w < m
    → o < m
    → (p : ℕ) × ((w * 256 + 0 + m * 256 - (o * 256 + 1)) % (m * 256) ≡ p * 256 + 255)
sub_ones_zero m o w l n = elim (dec_lt o w) [
  | no x ↦ (
    w + m - o - 1,
    mod-eq_of_lt (let e : w * 256 + 0 + m * 256 - (o * 256 + 1) < m * 256 = omega arith in e)
        ∙ omega arith,
  )
  | yes x ↦ (
    w - o - 1,
    ap (λ (q : ℕ). q % (m * 256))
          (let e : w * 256 + 0 + m * 256 - (o * 256 + 1) ≡ (w - o - 1) * 256 + 255 + m * 256 =
              omega arith in
            e)
        ∙ add-mod_right _ (m * 256)
        ∙ mod-eq_of_lt (let e : (w - o - 1) * 256 + 255 < m * 256 = omega arith in e),
  )
]

-- A null byte adds its own.
markers-zero :
    (m o h w : ℕ)
    → w < m
    → o < m
    → markers (m * 256) (o * 256 + 1) (h * 256 + 128) (w * 256 + 0) ≢ 0
unfolding markers
markers-zero m o h w l n e =
    let (p, q) = sub_ones_zero m o w l n in
    let low : m * 256 - 1 - (w * 256 + 0) ≡ (m - 1 - w) * 256 + 255 = omega arith in
    absurd (
      omega (
        arith,
        rw
            (
              q,
              low,
              bit_and-byte p (m - 1 - w) 255 255 (omega arith) (omega arith),
              bit_and-byte (bit_and p (m - 1 - w)) h 255 128 (omega arith) (omega arith),
            )
            at e,
      ))

-- The constants for a word of as many bytes as the list has.
abbrev modulus : List ℕ → ℕ
modulus [] = 1
modulus (b ∷ s) = modulus s * 256

abbrev low_bits : List ℕ → ℕ
low_bits [] = 0
low_bits (b ∷ s) = low_bits s * 256 + 1

abbrev high_bits : List ℕ → ℕ
high_bits [] = 0
high_bits (b ∷ s) = high_bits s * 256 + 128

low_bits-lt : (s : List ℕ) → low_bits s < modulus s
low_bits-lt [] = omega arith
low_bits-lt (b ∷ s) = omega (arith, low_bits-lt s)

load-lt : (s : List ℕ) → IsBytes s → load s < modulus s
load-lt [] h = omega arith
load-lt (b ∷ s) h = omega (arith, load-lt s h.1)

markers-NoNul :
    (s : List ℕ)
    → IsBytes s
    → (markers (modulus s) (low_bits s) (high_bits s) (load s) ≡ 0) ↔ NoNul s
markers-NoNul [] h = ((λ e. tt), (λ u. unfold markers in refl))
markers-NoNul (b ∷ s) h = elim (ℕ_discrete b 0) [
  | yes e ↦ (
    (λ q. absurd (
        markers-zero (modulus s) (low_bits s) (high_bits s) (load s) (load-lt s h.1) (low_bits-lt s)
          (rw e at q))),
    (λ n. absurd (n.0 e)),
  )
  | no ne ↦
      let step =
        markers-pos (modulus s) (low_bits s) (high_bits s) (load s) b (omega arith) h.0
          (load-lt s h.1) (omega (arith, low_bits-lt s)) in
      let (there, back) = markers-NoNul s h.1 in
      ((λ q. (ne, there (omega (arith, step)))), (λ n. omega (arith, step, back n.1)))
]

haszero-markers : (x : ℕ) → haszero x ≡ (if markers (2 ^ 64) ones highs x == 0 then false else true)
unfolding haszero markers
haszero-markers x = refl

-- `HASZERO` of the word at eight bytes is false exactly if none of them is null.
pub haszero-NoNul :
    (b0 b1 b2 b3 b4 b5 b6 b7 : ℕ)
    → let s = b0 ∷ b1 ∷ b2 ∷ b3 ∷ b4 ∷ b5 ∷ b6 ∷ b7 ∷ [] in
      IsBytes s → (haszero (load s) ≡ false) ↔ NoNul s
haszero-NoNul b0 b1 b2 b3 b4 b5 b6 b7 h =
    let s = b0 ∷ b1 ∷ b2 ∷ b3 ∷ b4 ∷ b5 ∷ b6 ∷ b7 ∷ [] in
    let (there, back) = markers-NoNul s h in
    let e = haszero-markers (load s) in
    ((λ q. there (ground arith)), (λ n. e ∙ ground (arith, back n)))

-- No byte is `c`.
abbrev pub NoByte : ℕ → List ℕ → Type 0
NoByte c [] = Unit
NoByte c (b ∷ s) = (b ≢ c) × NoByte c s

abbrev xor_each : ℕ → List ℕ → List ℕ
xor_each c [] = []
xor_each c (b ∷ s) = bit_xor b c ∷ xor_each c s

-- `c` in each byte of a word of as many bytes as the list has.
abbrev repeat : ℕ → List ℕ → ℕ
repeat c [] = 0
repeat c (b ∷ s) = repeat c s * 256 + c

load-xor_each :
    (c : ℕ) (s : List ℕ) → c < 256 → IsBytes s → bit_xor (load s) (repeat c s) ≡ load (xor_each c s)
load-xor_each c [] h k = refl
load-xor_each c (b ∷ s) h k =
    bit_xor-byte (load s) (repeat c s) b c k.0 h
    ∙ ap (λ (q : ℕ). q * 256 + bit_xor b c) (load-xor_each c s h k.1)

xor_each-IsBytes : (c : ℕ) (s : List ℕ) → c < 256 → IsBytes s → IsBytes (xor_each c s)
xor_each-IsBytes c [] h k = tt
xor_each-IsBytes c (b ∷ s) h k = ((bit_xor-eq_zero b c k.0 h).0, xor_each-IsBytes c s h k.1)

xor_each-NoNul : (c : ℕ) (s : List ℕ) → c < 256 → IsBytes s → NoNul (xor_each c s) ↔ NoByte c s
xor_each-NoNul c [] h k = ((λ u. tt), (λ u. tt))
xor_each-NoNul c (b ∷ s) h k =
    let (there, back) = xor_each-NoNul c s h k.1 in
    let same = (bit_xor-eq_zero b c k.0 h).1 in
    ((λ n. ((λ e. n.0 (same.1 e)), there n.1)), (λ n. ((λ e. n.0 (same.0 e)), back n.1)))

-- `HASZERO(w ^ ONES * c)` is false exactly if no byte of the word is `c`.
pub haszero-NoByte :
    (c b0 b1 b2 b3 b4 b5 b6 b7 : ℕ)
    → let s = b0 ∷ b1 ∷ b2 ∷ b3 ∷ b4 ∷ b5 ∷ b6 ∷ b7 ∷ [] in
      c < 256 → IsBytes s → (haszero (bit_xor (load s) (ones * c)) ≡ false) ↔ NoByte c s
haszero-NoByte c b0 b1 b2 b3 b4 b5 b6 b7 h k =
    let s = b0 ∷ b1 ∷ b2 ∷ b3 ∷ b4 ∷ b5 ∷ b6 ∷ b7 ∷ [] in
    let each : repeat c s ≡ ones * c = omega arith in
    let word : bit_xor (load s) (ones * c) ≡ load (xor_each c s) =
      ap (bit_xor (load s)) (sym each) ∙ load-xor_each c s h k in
    let (there, back) = xor_each-NoNul c s h k in
    let (null, none) = haszero-NoNul _ _ _ _ _ _ _ _ (xor_each-IsBytes c s h k) in
    ((λ q. there (null (ap haszero (sym word) ∙ q))), (λ n. ap haszero word ∙ none (back n)))
