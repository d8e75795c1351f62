-- ===== src/Random/Spent.antt =====
-- src/random.c: the buffer of arc4random, whose bytes are erased as they are handed out.
use libcs.Prelude.{
  ℕ, zero, suc, ◌+◌, ◌-◌, ◌≤◌, ◌≡◌, refl, arith, ap, ap₂, ◌∙◌, sym, take-append-drop, List, [], ◌∷◌,
  ◌++◌, length, length-drop, length-take, take, drop, replicate,
}
use libcs.Random.{Rs, fill_blocks, rs_setkey, rs_refill, hand_out}
use libcs.Random.Sizes.{length-fill_blocks, length-rs_setkey}

-- What has been handed out is erased: `have` bytes are left at the end of the buffer, behind zeros.
pub record IsSpent (rs : Rs) : Type 0 where
  pub left : List ℕ
  pub erased : rs.buf ≡ replicate (1024 - rs.have) 0 ++ left
  pub counted : length left ≡ rs.have
  pub within : rs.have ≤ 1024
  pub words : length rs.input ≡ 16

-- The bytes of the buffer that are still to be handed out.
abbrev pub unused : Rs → List ℕ
unused rs = drop (1024 - rs.have) rs.buf

-- The bytes of the next `m` refills from the key and counter `input`, and the key and counter behind them: of each
-- batch of 16 blocks the first 40 bytes are the next key, and the others are handed out.
abbrev pub refills : ℕ → List ℕ → List ℕ
refills zero input = []
refills (suc m) input =
    drop 40 (fill_blocks 16 input) ++ refills m (rs_setkey (fill_blocks 16 input))

abbrev pub rekeyed : ℕ → List ℕ → List ℕ
rekeyed zero input = input
rekeyed (suc m) input = rekeyed m (rs_setkey (fill_blocks 16 input))

-- The bytes given, and behind them those still unused at the end, are those unused before and those of some refills.
abbrev pub Follows : Rs → List ℕ → Rs → Type 0
Follows rs bytes end =
    (m : ℕ) × (unused rs ++ refills m rs.input ≡ bytes ++ unused end)
    × (end.input ≡ rekeyed m rs.input)

pub refill-IsSpent : (rs : Rs) → length rs.input ≡ 16 → IsSpent (rs_refill rs)
unfolding rs_refill
refill-IsSpent rs h =
    let bytes = fill_blocks 16 rs.input in
    let size = length-fill_blocks 16 rs.input h in
    (record {
      left = drop 40 bytes;
      erased = refl;
      counted = omega (arith, length-drop 40 bytes, size);
      within = omega arith;
      words = length-rs_setkey bytes (omega (arith, size));
    })

take-zeros : (n : ℕ) (ys : List ℕ) → take n (replicate n 0 ++ ys) ≡ replicate n 0
take-zeros zero ys = refl
take-zeros (suc n) ys = ap (λ (xs : List ℕ). 0 ∷ xs) (take-zeros n ys)

drop-zeros : (n k : ℕ) (ys : List ℕ) → drop (n + k) (replicate n 0 ++ ys) ≡ drop k ys
drop-zeros zero k ys = let same : 0 + k ≡ k = omega arith in ap (λ (m : ℕ). drop m ys) same
drop-zeros (suc n) k ys =
    let same : suc n + k ≡ suc (n + k) = omega arith in
    ap (λ (m : ℕ). drop m (replicate (suc n) 0 ++ ys)) same ∙ drop-zeros n k ys

zeros-append :
    (m n : ℕ) (ys : List ℕ) → replicate m 0 ++ (replicate n 0 ++ ys) ≡ replicate (m + n) 0 ++ ys
zeros-append zero n ys =
    let same : n ≡ 0 + n = omega arith in ap (λ (m : ℕ). replicate m 0 ++ ys) same
zeros-append (suc m) n ys =
    let same : suc (m + n) ≡ suc m + n = omega arith in
    ap (λ (xs : List ℕ). 0 ∷ xs) (zeros-append m n ys) ∙ ap (λ (k : ℕ). replicate k 0 ++ ys) same

pub unused-left : (rs : Rs) (is : IsSpent rs) → unused rs ≡ is.left
unused-left rs is =
    let start = 1024 - rs.have in
    let same : start ≡ start + 0 = omega arith in
    ap (λ (n : ℕ). drop n rs.buf) same
    ∙ ap (drop (start + 0)) is.erased
    ∙ drop-zeros start 0 is.left

pub hand_out-IsSpent :
    (k : ℕ) (rs : Rs)
    → IsSpent rs
    → k ≤ rs.have
    → IsSpent (hand_out k rs).1 × (length (hand_out k rs).0 ≡ k)
unfolding hand_out
hand_out-IsSpent k rs is h =
    let start = 1024 - rs.have in
    let left = is.left in
    let kept = ap (take start) is.erased ∙ take-zeros start left in
    let rest = ap (drop (start + k)) is.erased ∙ drop-zeros start k left in
    let from = unused-left rs is in
    let more : start + k ≡ 1024 - (rs.have - k) = omega (arith, is.within) in
    (
      (record {
        left = drop k left;
        erased =
            ap₂ (λ (xs ys : List ℕ). xs ++ (replicate k 0 ++ ys)) kept rest
            ∙ zeros-append start k (drop k left)
            ∙ ap (λ (n : ℕ). replicate n 0 ++ drop k left) more;
        counted = omega (arith, length-drop k left, is.counted);
        within = omega (arith, is.within);
        words = is.words;
      }),
      ap length (ap (take k) from) ∙ omega (arith, length-take k left, is.counted),
    )

-- What is handed out, and what is left behind it, is what was there.
pub hand_out-unused :
    (k : ℕ) (rs : Rs)
    → IsSpent rs
    → k ≤ rs.have
    → (hand_out k rs).0 ++ unused (hand_out k rs).1 ≡ unused rs
unfolding hand_out hand_out-IsSpent
hand_out-unused k rs is h =
    let rest = unused-left (hand_out k rs).1 (hand_out-IsSpent k rs is h).0 in
    ap₂ (λ (xs ys : List ℕ). xs ++ ys) refl (rest ∙ ap (drop k) (sym (unused-left rs is)))
    ∙ take-append-drop k (unused rs)
