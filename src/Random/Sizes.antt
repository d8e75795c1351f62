-- ===== src/Random/Sizes.antt =====
-- src/random.c: how many words and bytes the blocks of arc4random have.
use Prim.Native.Nat.{bit_xor}
use libcs.Prelude.{
  ℕ, zero, suc, ◌+◌, ◌*◌, ◌%◌, ◌^◌, ◌≤◌, ◌≡◌, refl, arith, ap, ◌∙◌, List, [], ◌∷◌, length,
  length-set, length-append, length-drop, length-take, get_or, set, take, drop,
}
use libcs.Random.{
  quarter, qr, double_round, chacha_rounds, add_words, chacha_block, bytes_of, words_of, rs_setkey,
  count_block, fill_blocks, mix,
}

length-quarter : (a b d n : ℕ) (x : List ℕ) → length (quarter a b d n x) ≡ length x
unfolding quarter
length-quarter a b d n x = length-set (set x a _) d _ ∙ length-set x a _

length-qr : (a b c d : ℕ) (x : List ℕ) → length (qr a b c d x) ≡ length x
unfolding qr
length-qr a b c d x =
    length-quarter c d b 7 (quarter a b d 8 (quarter c d b 12 (quarter a b d 16 x)))
    ∙ length-quarter a b d 8 (quarter c d b 12 (quarter a b d 16 x))
    ∙ length-quarter c d b 12 (quarter a b d 16 x)
    ∙ length-quarter a b d 16 x

length-double_round : (x : List ℕ) → length (double_round x) ≡ length x
unfolding double_round
length-double_round x = simp length-qr refl

length-chacha_rounds : (rounds : ℕ) (x : List ℕ) → length (chacha_rounds rounds x) ≡ length x
unfolding chacha_rounds
length-chacha_rounds zero x = refl
length-chacha_rounds (suc rounds) x =
    length-chacha_rounds rounds (double_round x) ∙ length-double_round x

length-add_words : (xs ys : List ℕ) → length xs ≡ length ys → length (add_words xs ys) ≡ length ys
unfolding add_words
length-add_words [] [] h = refl
length-add_words [] (y ∷ ys) h = absurd (omega arith)
length-add_words (x ∷ xs) [] h = absurd (omega arith)
length-add_words (x ∷ xs) (y ∷ ys) h = ap suc (length-add_words xs ys (omega arith))

length-bytes_of : (ws : List ℕ) → length (bytes_of ws) ≡ 4 * length ws
unfolding bytes_of
length-bytes_of [] = refl
length-bytes_of (w ∷ ws) = omega (arith, length-bytes_of ws)

length-chacha_block : (input : List ℕ) → length (chacha_block input) ≡ length input
unfolding chacha_block
length-chacha_block input =
    length-add_words (chacha_rounds 10 input) input (length-chacha_rounds 10 input)

length-count_block : (input : List ℕ) → length (count_block input) ≡ length input
unfolding count_block
length-count_block input =
    let low = (get_or input 12 0 + 1) % 2 ^ 32 in
    ground (
      arith,
      length-set input 12 low,
      length-set (set input 12 low) 13 ((get_or input 13 0 + 1) % 2 ^ 32),
    )

pub length-fill_blocks :
    (blocks : ℕ) (input : List ℕ)
    → length input ≡ 16
    → length (fill_blocks blocks input) ≡ 64 * blocks
unfolding fill_blocks
length-fill_blocks zero input h = refl
length-fill_blocks (suc blocks) input h =
    length-append (bytes_of (chacha_block input)) (fill_blocks blocks (count_block input))
    ∙ omega (
      arith,
      length-bytes_of (chacha_block input),
      length-chacha_block input,
      length-fill_blocks blocks (count_block input) (length-count_block input ∙ h),
      h,
    )

length-words_of : (k : ℕ) (bs : List ℕ) → length bs ≡ 4 * k → length (words_of bs) ≡ k
unfolding words_of
length-words_of zero [] h = refl
length-words_of zero (b ∷ bs) h = absurd (omega arith)
length-words_of (suc k) (a ∷ b ∷ c ∷ d ∷ bs) h = ap suc (length-words_of k bs (omega arith))
length-words_of (suc k) [] h = absurd (omega arith)
length-words_of (suc k) (a ∷ []) h = absurd (omega arith)
length-words_of (suc k) (a ∷ b ∷ []) h = absurd (omega arith)
length-words_of (suc k) (a ∷ b ∷ c ∷ []) h = absurd (omega arith)

pub length-rs_setkey : (kiv : List ℕ) → 40 ≤ length kiv → length (rs_setkey kiv) ≡ 16
unfolding rs_setkey
length-rs_setkey kiv h =
    let key = length-words_of 8 (take 32 kiv) (omega (arith, length-take 32 kiv)) in
    let nonce =
      length-words_of 2 (take 8 (drop 32 kiv))
        (omega (arith, length-take 8 (drop 32 kiv), length-drop 32 kiv)) in
    omega (
      arith,
      length-append (words_of (take 32 kiv)) (0 ∷ 0 ∷ words_of (take 8 (drop 32 kiv))),
      key,
      nonce,
    )

pub length-mix : (i : ℕ) (seed input : List ℕ) → length (mix i seed input) ≡ length input
unfolding mix
length-mix i [] input = refl
length-mix i (v ∷ seed) input =
    length-mix (i + 1) seed (set input i (bit_xor (get_or input i 0) v)) ∙ length-set input i _
