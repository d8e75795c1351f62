-- ===== src/Str/Word/Laws.antt =====
-- The word-at-a-time scans give what scans by bytes give, and read no word that crosses the end of the
-- mapped memory.
use Prim.Native.Nat.{bit_xor}
use native.Mathlib.Nat.{add_assoc, zero-add, suc-add}
use native.Mathlib.Decide.{ℕ_discrete}
use libcs.Prelude.{
  NoNul, ℕ, zero, suc, ◌+◌, ◌-◌, ◌*◌, ◌%◌, ◌<◌, ◌≡◌, refl, inl, inr, arith, false, List, [], ◌++◌,
  ◌∷◌, ltb, ◌==◌, if◌then◌else◌, ap, ◌∙◌, sym, Bool-cases, length, Run, ok, fault, ◌>>=◌, Option,
  none, some, ◌||◌,
}
use libcs.Str.Mem.{nul_index, find, further}
use libcs.Str.Word.{
  ones, haszero, load, advance, advance?, strlen_words, strlen, memchr_words, memchr_from, memchr,
  find_or_end, strchrnul_words, strchrnul_from, strchrnul,
}
use libcs.Str.Word.Zero.{IsBytes, NoByte, haszero-NoNul, haszero-NoByte}

nul_index-NoNul : (t s : List ℕ) → NoNul t → nul_index (t ++ s) ≡ advance (length t) (nul_index s)
unfolding nul_index
nul_index-NoNul [] s h = elim (nul_index s) as (λ m. m ≡ advance 0 m) [
  | ok n ↦ ap ok (omega arith)
  | fault ↦ refl
]
nul_index-NoNul (c ∷ t) s h =
    let more : (c == 0) ≡ false = ground (arith, h.0) in
    rw (nul_index-NoNul t s h.1, more)
      (elim (nul_index s)
        as (λ m. (advance (length t) m >>= λ n. ok (suc n)) ≡ advance (suc (length t)) m) [
          | ok n ↦ ap ok (omega arith)
          | fault ↦ refl
        ])

IsBytes-append : (t s : List ℕ) → IsBytes (t ++ s) → IsBytes t × IsBytes s
IsBytes-append [] s h = (tt, h)
IsBytes-append (b ∷ t) s h = let (ht, hs) = IsBytes-append t s h.1 in ((h.0, ht), hs)

-- Induction on the words of memory that ends on a word boundary.
words_induction :
    (P : List ℕ → Type 0)
    → P []
    → ((b0 b1 b2 b3 b4 b5 b6 b7 : ℕ) (s : List ℕ)
        → length s % 8 ≡ 0
        → P s
        → P (b0 ∷ b1 ∷ b2 ∷ b3 ∷ b4 ∷ b5 ∷ b6 ∷ b7 ∷ s))
    → (s : List ℕ) → length s % 8 ≡ 0
    → P s
words_induction P base step [] a = base
words_induction P base step (b0 ∷ []) a = absurd (omega arith)
words_induction P base step (b0 ∷ b1 ∷ []) a = absurd (omega arith)
words_induction P base step (b0 ∷ b1 ∷ b2 ∷ []) a = absurd (omega arith)
words_induction P base step (b0 ∷ b1 ∷ b2 ∷ b3 ∷ []) a = absurd (omega arith)
words_induction P base step (b0 ∷ b1 ∷ b2 ∷ b3 ∷ b4 ∷ []) a = absurd (omega arith)
words_induction P base step (b0 ∷ b1 ∷ b2 ∷ b3 ∷ b4 ∷ b5 ∷ []) a = absurd (omega arith)
words_induction P base step (b0 ∷ b1 ∷ b2 ∷ b3 ∷ b4 ∷ b5 ∷ b6 ∷ []) a = absurd (omega arith)
words_induction P base step (b0 ∷ b1 ∷ b2 ∷ b3 ∷ b4 ∷ b5 ∷ b6 ∷ b7 ∷ s) a =
    let a' : length s % 8 ≡ 0 = omega arith in
    step b0 b1 b2 b3 b4 b5 b6 b7 s a' (words_induction P base step s a')

strlen_words-nul_index : (s : List ℕ) → length s % 8 ≡ 0 → IsBytes s → strlen_words s ≡ nul_index s
unfolding strlen_words
strlen_words-nul_index =
    words_induction (λ s. IsBytes s → strlen_words s ≡ nul_index s) (λ h. unfold nul_index in refl)
      λ b0 b1 b2 b3 b4 b5 b6 b7 s a ih h.
        let w = b0 ∷ b1 ∷ b2 ∷ b3 ∷ b4 ∷ b5 ∷ b6 ∷ b7 ∷ [] in
        let (hw, hs) = IsBytes-append w s h in
        elim (Bool-cases (haszero (load w))) [
          | inl z ↦ rw z
          | inr z ↦ rw z (
              ap (advance 8) (ih hs)
              ∙ sym (nul_index-NoNul w s ((haszero-NoNul b0 b1 b2 b3 b4 b5 b6 b7 hw).0 z)))
        ]

-- `strlen` of any memory that ends on a word boundary is the byte-by-byte scan of it: the same length,
-- and a fault only where that has one, for want of a null byte.
pub strlen-nul_index :
    (a : ℕ) (s : List ℕ) → IsBytes s → (a + length s) % 8 ≡ 0 → strlen a s ≡ nul_index s
unfolding strlen
strlen-nul_index a [] h e = unfold nul_index in refl
strlen-nul_index a (b ∷ s) h e = elim (Bool-cases (a % 8 == 0)) [
  | inl x ↦ rw x (strlen_words-nul_index (b ∷ s) (ground arith) h)
  | inr x ↦
      rw (x, strlen-nul_index (a + 1) s h.1 (ground arith))
        (unfold nul_index in
          elim (nul_index s)
            as (λ m.
              (if b == 0 then ok 0 else advance 1 m)
              ≡ (if b == 0 then ok 0 else (m >>= λ n. ok (suc n)))) [
                | ok n ↦ ap (λ k. if b == 0 then ok 0 else ok k) (omega arith)
                | fault ↦ refl
              ])
]

-- One step of a scan, in the words of `advance`.
find-suc :
    (c n b : ℕ) (s : List ℕ)
    → find c (suc n) (b ∷ s) ≡ (if b == c then ok (some 0) else advance? 1 (find c n s))
unfolding find
find-suc c n b s =
    elim (find c n s)
      as (λ m.
        (if b == c then ok (some 0) else (m >>= λ o. ok (further o)))
        ≡ (if b == c then ok (some 0) else advance? 1 m)) [
          | ok none ↦ refl
          | ok (some i) ↦ ap (λ j. if b == c then ok (some 0) else ok (some j)) (omega arith)
          | fault ↦ refl
        ]

advance?-advance? : (j k : ℕ) (m : Run (Option ℕ)) → advance? j (advance? k m) ≡ advance? (k + j) m
advance?-advance? j k (ok none) = refl
advance?-advance? j k (ok (some i)) = ap (λ n. ok (some n)) (add_assoc i k j)
advance?-advance? j k fault = refl

find-NoByte :
    (c n : ℕ) (t s : List ℕ)
    → NoByte c t
    → find c (length t + n) (t ++ s) ≡ advance? (length t) (find c n s)
find-NoByte c n [] s h = rw (zero-add n) (elim (find c n s) as (λ m. m ≡ advance? 0 m) [
  | ok none ↦ refl
  | ok (some i) ↦ ap (λ j. ok (some j)) (omega arith)
  | fault ↦ refl
])
find-NoByte c n (b ∷ t) s h =
    let more : (b == c) ≡ false = ground (arith, h.0) in
    rw
      (
        suc-add (length t) n,
        find-suc c (length t + n) b (t ++ s),
        more,
        find-NoByte c n t s h.1,
        advance?-advance? 1 (length t) (find c n s),
      )
      (ap (λ j. advance? j (find c n s)) (omega arith))

memchr_words-find :
    (c : ℕ)
    → c < 256
    → (s : List ℕ) → length s % 8 ≡ 0
    → IsBytes s
    → (n : ℕ) → memchr_words s c n ≡ find c n s
unfolding memchr_words
memchr_words-find c k =
    words_induction (λ s. IsBytes s → (n : ℕ) → memchr_words s c n ≡ find c n s) (λ h n. empty n)
      λ b0 b1 b2 b3 b4 b5 b6 b7 s a ih h n.
        let w = b0 ∷ b1 ∷ b2 ∷ b3 ∷ b4 ∷ b5 ∷ b6 ∷ b7 ∷ [] in
        let (hw, hs) = IsBytes-append w s h in
        elim (Bool-cases (ltb n 8 || haszero (bit_xor (load w) (ones * c)))) [
          | inl z ↦ rw z
          | inr z ↦
              let absent : NoByte c w =
                (haszero-NoByte c b0 b1 b2 b3 b4 b5 b6 b7 k hw).0 (ground arith) in
              let more : n ≡ 8 + (n - 8) = ground arith in
              rw (z, ih hs (n - 8))
                (sym (find-NoByte c (n - 8) w s absent) ∙ ap (λ i. find c i (w ++ s)) (sym more))
        ]
  where
    empty : (n : ℕ) → (if ltb n 8 then find c n [] else fault) ≡ find c n []
    empty zero = refl
    empty (suc n) = elim (Bool-cases (ltb (suc n) 8)) [
      | inl e ↦ rw e
      | inr e ↦ rw e (unfold find in refl)
    ]

memchr_from-find :
    (a c n : ℕ) (s : List ℕ)
    → c < 256
    → IsBytes s
    → (a + length s) % 8 ≡ 0
    → memchr_from a s c n ≡ find c n s
unfolding memchr_from
memchr_from-find a c zero s k h e = unfold find in refl
memchr_from-find a c (suc n) [] k h e = unfold find in refl
memchr_from-find a c (suc n) (b ∷ s) k h e = rw (find-suc c n b s) (elim (Bool-cases (b == c)) [
  | inl x ↦ rw x
  | inr x ↦ elim (Bool-cases (a % 8 == 0)) [
    | inl y ↦
        rw (x, y) (memchr_words-find c k (b ∷ s) (ground arith) h (suc n) ∙ find-suc c n b s ∙ rw x)
    | inr y ↦ rw (x, y, memchr_from-find (a + 1) c n s k h.1 (ground arith))
  ]
])

-- `memchr` of any memory that ends on a word boundary is the byte-by-byte scan for the byte `c % 256`.
pub memchr-find :
    (a c n : ℕ) (s : List ℕ)
    → IsBytes s
    → (a + length s) % 8 ≡ 0
    → memchr a s c n ≡ find (c % 256) n s
unfolding memchr
memchr-find a c n s h e = memchr_from-find a (c % 256) n s (omega arith) h e

advance-advance : (j k : ℕ) (m : Run ℕ) → advance j (advance k m) ≡ advance (k + j) m
advance-advance j k (ok i) = ap ok (add_assoc i k j)
advance-advance j k fault = refl

find_or_end-NoByte :
    (c : ℕ) (t s : List ℕ)
    → NoNul t
    → NoByte c t
    → find_or_end c (t ++ s) ≡ advance (length t) (find_or_end c s)
unfolding find_or_end
find_or_end-NoByte c [] s h k = elim (find_or_end c s) as (λ m. m ≡ advance 0 m) [
  | ok n ↦ ap ok (omega arith)
  | fault ↦ refl
]
find_or_end-NoByte c (b ∷ t) s h k =
    let more : ((b == 0) || (b == c)) ≡ false = ground (arith, h.0, k.0) in
    rw (more, find_or_end-NoByte c t s h.1 k.1, advance-advance 1 (length t) (find_or_end c s))
      (ap (λ j. advance j (find_or_end c s)) (omega arith))

strchrnul_words-find_or_end :
    (c : ℕ)
    → c < 256
    → (s : List ℕ) → length s % 8 ≡ 0
    → IsBytes s
    → strchrnul_words s c ≡ find_or_end c s
unfolding strchrnul_words
strchrnul_words-find_or_end c k =
    words_induction (λ s. IsBytes s → strchrnul_words s c ≡ find_or_end c s)
      (λ h. unfold find_or_end in refl)
      λ b0 b1 b2 b3 b4 b5 b6 b7 s a ih h.
        let w = b0 ∷ b1 ∷ b2 ∷ b3 ∷ b4 ∷ b5 ∷ b6 ∷ b7 ∷ [] in
        let (hw, hs) = IsBytes-append w s h in
        elim (Bool-cases (haszero (load w) || haszero (bit_xor (load w) (ones * c)))) [
          | inl z ↦ rw z
          | inr z ↦
              let terminated = (haszero-NoNul b0 b1 b2 b3 b4 b5 b6 b7 hw).0 (ground arith) in
              let absent = (haszero-NoByte c b0 b1 b2 b3 b4 b5 b6 b7 k hw).0 (ground arith) in
              rw (z, ih hs) (sym (find_or_end-NoByte c w s terminated absent))
        ]

strchrnul_from-find_or_end :
    (a c : ℕ) (s : List ℕ)
    → c < 256
    → IsBytes s
    → (a + length s) % 8 ≡ 0
    → strchrnul_from a s c ≡ find_or_end c s
unfolding strchrnul_from
strchrnul_from-find_or_end a c [] k h e = unfold find_or_end in refl
strchrnul_from-find_or_end a c (b ∷ s) k h e = elim (Bool-cases (a % 8 == 0)) [
  | inl y ↦ rw y (strchrnul_words-find_or_end c k (b ∷ s) (ground arith) h)
  | inr y ↦
      rw (y, strchrnul_from-find_or_end (a + 1) c s k h.1 (ground arith))
        (unfold find_or_end in refl)
]

find_or_end-zero : (s : List ℕ) → find_or_end 0 s ≡ nul_index s
unfolding find_or_end nul_index
find_or_end-zero [] = refl
find_or_end-zero (b ∷ s) = elim (Bool-cases (b == 0)) [
  | inl x ↦ rw x
  | inr x ↦
      rw (x, find_or_end-zero s)
        (elim (nul_index s) as (λ m. advance 1 m ≡ (m >>= λ n. ok (suc n))) [
          | ok n ↦ ap ok (omega arith)
          | fault ↦ refl
        ])
]

-- `strchrnul` of any memory that ends on a word boundary is the byte-by-byte scan for the byte
-- `c % 256` or the null byte, whichever comes first.
pub strchrnul-find_or_end :
    (a c : ℕ) (s : List ℕ)
    → IsBytes s
    → (a + length s) % 8 ≡ 0
    → strchrnul a s c ≡ find_or_end (c % 256) s
unfolding strchrnul
strchrnul-find_or_end a c s h e = elim (ℕ_discrete (c % 256) 0) [
  | yes z ↦ rw z (strlen-nul_index a s h e ∙ sym (find_or_end-zero s))
  | no nz ↦
      let q : (c % 256 == 0) ≡ false = ground arith in
      rw q (strchrnul_from-find_or_end a (c % 256) s (omega arith) h e)
]
