-- ===== src/Options/Order.antt =====
-- src/getopt.c: getopt_long moves an option and its argument before the operands that stand in front of it.
use libcs.Prelude.{
  ℕ, zero, suc, ◌+◌, ◌-◌, ◌≡◌, refl, arith, ap, ap₂, ◌∙◌, sym, List, [], ◌∷◌, ◌++◌, append_assoc,
  length, length-append, get_or, set,
}
use libcs.Options.Long.{shift_up, permute, permute_all}

abbrev pub Words : Type 0
Words = List (List ℕ)

shift_up-behind :
    (n dest : ℕ) (x : List ℕ) (av : Words) → shift_up n (suc dest) (x ∷ av) ≡ x ∷ shift_up n dest av
unfolding shift_up
shift_up-behind zero dest x av = refl
shift_up-behind (suc n) dest x av =
    let same : suc dest + suc n ≡ suc (dest + suc n) = omega arith in
    let less : suc dest + n ≡ suc (dest + n) = omega arith in
    ap₂ (λ (i j : ℕ). shift_up n (suc dest) (set (x ∷ av) i (get_or (x ∷ av) j []))) same less
    ∙ shift_up-behind n dest x (set av (dest + suc n) (get_or av (dest + n) []))

-- The lowest word moves last.
shift_up-lowest :
    (n dest : ℕ) (av : Words)
    → shift_up (suc n) dest av
      ≡ set (shift_up n (suc dest) av) (suc dest) (get_or (shift_up n (suc dest) av) dest [])
unfolding shift_up
shift_up-lowest zero dest av =
    let same : dest + 1 ≡ suc dest = omega arith in
    let less : dest + 0 ≡ dest = omega arith in
    ap₂ (λ (i j : ℕ). set av i (get_or av j [])) same less
shift_up-lowest (suc n) dest av =
    let same : dest + suc (suc n) ≡ suc dest + suc n = omega arith in
    let less : dest + suc n ≡ suc dest + n = omega arith in
    shift_up-lowest n dest (set av (dest + suc (suc n)) (get_or av (dest + suc n) []))
    ∙ ap₂
        (λ (i j : ℕ).
          let b = shift_up n (suc dest) (set av i (get_or av j [])) in
          set b (suc dest) (get_or b dest []))
        same less

shift_up_lem :
    (v w : List ℕ) (ops rest : Words)
    → set (shift_up (length ops) 0 (ops ++ (w ∷ rest))) 0 v ≡ v ∷ (ops ++ rest)
unfolding shift_up
shift_up_lem v w [] rest = refl
shift_up_lem v w (x ∷ ops) rest =
    let same = shift_up-behind (length ops) 0 x (ops ++ (w ∷ rest)) in
    ap (λ (b : Words). set b 0 v) (shift_up-lowest (length ops) 0 (x ∷ (ops ++ (w ∷ rest))))
    ∙ ap (λ (b : Words). set (set b 1 (get_or b 0 [])) 0 v) same
    ∙ ap (λ (b : Words). v ∷ b) (shift_up_lem x w ops rest)

pub get_or-after :
    (a : Words) (i : ℕ) (b : Words) → get_or (a ++ b) (length a + i) [] ≡ get_or b i []
get_or-after [] i b = let same : 0 + i ≡ i = omega arith in ap (λ (n : ℕ). get_or b n []) same
get_or-after (x ∷ a) i b =
    let same : suc (length a) + i ≡ suc (length a + i) = omega arith in
    ap (λ (n : ℕ). get_or (x ∷ (a ++ b)) n []) same ∙ get_or-after a i b

pub get_or-head : (a : Words) (w : List ℕ) (b : Words) → get_or (a ++ (w ∷ b)) (length a) [] ≡ w
get_or-head [] w b = refl
get_or-head (x ∷ a) w b = get_or-head a w b

shifted :
    (a : Words) (n : ℕ) (v : List ℕ) (b : Words)
    → set (shift_up n (length a) (a ++ b)) (length a) v ≡ a ++ set (shift_up n 0 b) 0 v
shifted [] n v b = refl
shifted (x ∷ a) n v b =
    ap (λ (c : Words). set c (suc (length a)) v) (shift_up-behind n (length a) x (a ++ b))
    ∙ ap (λ (c : Words). x ∷ c) (shifted a n v b)

permute_lem :
    (a ops : Words) (w : List ℕ) (rest : Words)
    → permute (a ++ (ops ++ (w ∷ rest))) (length a) (length a + length ops)
      ≡ a ++ (w ∷ (ops ++ rest))
unfolding permute
permute_lem a ops w rest =
    let here = get_or-after a (length ops) (ops ++ (w ∷ rest)) ∙ get_or-head ops w rest in
    let many : length a + length ops - length a ≡ length ops = omega arith in
    ap₂
      (λ (n : ℕ) (v : List ℕ). set (shift_up n (length a) (a ++ (ops ++ (w ∷ rest)))) (length a) v)
      many here
    ∙ shifted a (length ops) w (ops ++ (w ∷ rest))
    ∙ ap (λ (b : Words). a ++ b) (shift_up_lem w w ops rest)

last_word :
    (n : ℕ) (xs : Words)
    → length xs ≡ suc n
    → (ys : Words) × (w : List ℕ) × (xs ≡ ys ++ (w ∷ [])) × (length ys ≡ n)
last_word n [] h = absurd (omega arith)
last_word zero (x ∷ []) h = ([], x, refl, refl)
last_word zero (x ∷ y ∷ xs) h = absurd (omega arith)
last_word (suc n) (x ∷ xs) h =
    let (ys, w, e, size) = last_word n xs (omega arith) in
    (x ∷ ys, w, ap (λ (zs : Words). x ∷ zs) e, ap suc size)

permute-last :
    (a ops ys : Words) (w : List ℕ) (rest : Words) (src : ℕ)
    → src ≡ length a + (length ops + length ys)
    → permute (a ++ (ops ++ ((ys ++ (w ∷ [])) ++ rest))) (length a) src
      ≡ a ++ (w ∷ (ops ++ (ys ++ rest)))
permute-last a ops ys w rest src h =
    let flat =
      ap (λ (b : Words). ops ++ b) (append_assoc ys (w ∷ []) rest)
      ∙ sym (append_assoc ops ys (w ∷ rest)) in
    let place : src ≡ length a + length (ops ++ ys) = omega (arith, h, length-append ops ys) in
    ap₂ (λ (b : Words) (i : ℕ). permute (a ++ b) (length a) i) flat place
    ∙ permute_lem a (ops ++ ys) w rest
    ∙ ap (λ (b : Words). a ++ (w ∷ b)) (append_assoc ops ys rest)

-- As many calls of `permute` as there are words in `options` put these before the operands.
pub permute_all_lem :
    (n : ℕ) (a operands options rest : Words)
    → length options ≡ n
    → permute_all n
        (a ++ (operands ++ (options ++ rest)))
        (length a)
        (length a + (length operands + n) - 1)
      ≡ a ++ (options ++ (operands ++ rest))
unfolding permute_all
permute_all_lem zero a operands [] rest h = refl
permute_all_lem zero a operands (x ∷ xs) rest h = absurd (omega arith)
permute_all_lem (suc n) a operands options rest h =
    let (ys, w, e, size) = last_word n options h in
    let src = length a + (length operands + suc n) - 1 in
    let same : src ≡ length a + (suc (length operands) + n) - 1 = omega arith in
    ap
      (λ (xs : Words).
        permute_all n (permute (a ++ (operands ++ (xs ++ rest))) (length a) src) (length a) src)
      e
    ∙ ap₂ (λ (b : Words) (i : ℕ). permute_all n b (length a) i)
        (permute-last a operands ys w rest src (omega (arith, size))) same
    ∙ permute_all_lem n a (w ∷ operands) ys rest size
    ∙ ap (λ (b : Words). a ++ b) (sym (append_assoc ys (w ∷ []) (operands ++ rest)))
    ∙ ap (λ (xs : Words). a ++ (xs ++ (operands ++ rest))) (sym e)
