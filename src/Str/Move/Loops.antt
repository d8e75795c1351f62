-- ===== src/Str/Move/Loops.antt =====
-- src/string.c: the loops of memmove, and memmove.
use native.Mathlib.Decide.{dec_le}
use libcs.Prelude.{
  ℕ, zero, suc, ◌+◌, ◌-◌, ◌%◌, ◌^◌, ◌≡◌, ◌<◌, ◌≤◌, refl, arith, subst, not, ◌&&◌, Bool-cases, inl,
  inr, ◌⊎◌, List, Run, ◌>>=◌, leb, ◌==◌, length,
}
use libcs.Str.Move.{copy, copy_up, down_bytes, down_words, down, memmove}
use libcs.Str.Move.Laws.{Moves, Moved-zero, copy-Moved, upper_first, lowest_first}

copy_up-Moves :
    (d s n : ℕ) (m : List ℕ)
    → d + n ≤ length m
    → s + n ≤ length m
    → (d ≤ s) ⊎ (s + n ≤ d)
    → Moves d s n m (copy_up d s n m)
unfolding copy_up
copy_up-Moves d s zero m h k l = (m, refl, Moved-zero d s m)
copy_up-Moves d s (suc n) m h k l =
    let (m1, e, a) = copy-Moved d s 1 m (omega arith) (omega arith) in
    let size = a.same_length in
    let (m2, e', b) = copy_up-Moves (suc d) (suc s) n m1 (omega arith) (omega arith) (still n l) in
    (m2, rw (e, e') refl, lowest_first d s n m m1 m2 l a b)
  where
    still : (n : ℕ) → (d ≤ s) ⊎ (s + suc n ≤ d) → (suc d ≤ suc s) ⊎ (suc s + n ≤ suc d)
    still n (inl x) = inl (omega arith)
    still n (inr x) = inr (omega arith)

module _ (d s : ℕ) (apart : s ≤ d) where
  -- A part at the upper end, and then the rest.
  part-Moves :
      (n k : ℕ) (m : List ℕ) (f : List ℕ → Run (List ℕ))
      → d + (n + k) ≤ length m
      → ((m1 : List ℕ) → length m1 ≡ length m → Moves d s n m1 (f m1))
      → Moves d s (n + k) m (copy (d + n) (s + n) k m >>= f)
  part-Moves n k m f h rest =
      let (m1, e, a) = copy-Moved (d + n) (s + n) k m (omega arith) (omega arith) in
      let (m2, e', b) = rest m1 a.same_length in
      (m2, rw (e, e') refl, upper_first d s n k m m1 m2 apart a b)

  last_byte :
      {n : ℕ} {m : List ℕ} {r : Run (List ℕ)} → Moves d s (n + 1) m r → Moves d s (suc n) m r
  last_byte {n = n} {m = m} {r = r} h =
      let same : n + 1 ≡ suc n = omega arith in subst (λ k. Moves d s k m r) same h

  down_bytes-Moves : (n : ℕ) (m : List ℕ) → d + n ≤ length m → Moves d s n m (down_bytes d s n m)
  unfolding down_bytes
  down_bytes-Moves zero m h = (m, refl, Moved-zero d s m)
  down_bytes-Moves (suc n) m h = last_byte (
      part-Moves n 1 m (down_bytes d s n) (omega arith)
        (λ m1 same. down_bytes-Moves n m1 (omega arith)))

  down_words-Moves :
      (rounds n : ℕ) (m : List ℕ)
      → n < rounds
      → d + n ≤ length m
      → Moves d s n m (down_words rounds d s n m)
  unfolding down_words
  down_words-Moves zero n m h k = absurd (omega arith)
  down_words-Moves (suc rounds) n m h k = elim (Bool-cases (leb 8 n)) [
    | inr few ↦ rw few (down_bytes-Moves n m k)
    | inl many ↦
        let same : n - 8 + 8 ≡ n = ground arith in
        rw many (
          subst
            (λ j.
              Moves d s j m
                (copy (d + (n - 8)) (s + (n - 8)) 8 m >>= λ m1. down_words rounds d s (n - 8) m1))
            same
            (part-Moves (n - 8) 8 m (λ m1. down_words rounds d s (n - 8) m1) (omega arith)
              (λ m1 size. down_words-Moves rounds (n - 8) m1 (ground arith) (omega arith))))
  ]

  down-Moves : (a n : ℕ) (m : List ℕ) → d + n ≤ length m → Moves d s n m (down a d s n m)
  unfolding down
  down-Moves a zero m h = down_words-Moves 1 0 m (omega arith) h
  down-Moves a (suc n) m h = elim (Bool-cases (leb 8 (suc n) && not ((a + d + suc n) % 8 == 0))) [
    | inl edge ↦ rw edge (
        last_byte (
          part-Moves n 1 m (λ m1. down a d s n m1) (omega arith)
            (λ m1 same. down-Moves a n m1 (omega arith))))
    | inr word ↦ rw word (down_words-Moves (suc (suc n)) (suc n) m (omega arith) h)
  ]

-- `memmove` between two places of one memory, overlapping or not, at whatever address the memory starts: it
-- returns, reads and writes within the memory, and afterwards the `n` bytes at `d` are the bytes that
-- were at `s` before, and every other byte is unchanged.
pub memmove-Moves :
    (a d s n : ℕ) (m : List ℕ)
    → length m ≤ 2 ^ 64
    → d + n ≤ length m
    → s + n ≤ length m
    → Moves d s n m (memmove a d s n m)
unfolding memmove
memmove-Moves a d s n m fits h k = elim (Bool-cases (leb n ((d + (2 ^ 64 - s)) % 2 ^ 64))) [
  | inl upward ↦ rw upward (
      copy_up-Moves d s n m h k
        (elim (dec_le d s) [ yes below ↦ inl below | no above ↦ inr (ground arith) ]))
  | inr downward ↦ rw downward (down-Moves d s (ground arith) a n m h)
]
