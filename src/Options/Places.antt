-- ===== src/Options/Places.antt =====
-- src/getopt.c: the words of argv around the option that a call of getopt_long reads.
use libcs.Prelude.{
  ℕ, ◌+◌, ◌-◌, ◌≡◌, ◌≤◌, ◌⊎◌, inl, inr, refl, arith, ap, ap₂, ◌∙◌, sym, true, some, List, [], ◌∷◌,
  ◌++◌, length, length-append, get_or, take,
}
use libcs.Options.{Scan}
use libcs.Options.Long.{permute_all, is_option}
use libcs.Options.Bounds.{Ends}
use libcs.Options.Order.{Words, permute_all_lem, get_or-after, get_or-head}

-- How far a call at `place` has read an option, with `rest` behind it.
abbrev pub Progress : (place : ℕ) → (rest : Words) → Scan → Type 0
Progress place rest st =
    ((st.optind ≡ place) × (1 ≤ st.optpos))
    ⊎ (((st.optind ≡ place + 1) × (st.optpos ≡ 0))
        ⊎ ((x : List ℕ) × (rest' : Words) × (rest ≡ x ∷ rest')
            × (st.optind ≡ place + 2)
            × (st.optpos ≡ 0)
            × (st.optarg ≡ some x)))

first_of : (ws : Words) → 1 ≤ length ws → (x : List ℕ) × (ws' : Words) × (ws ≡ x ∷ ws')
first_of [] h = absurd (omega arith)
first_of (x ∷ ws) h = (x, ws, refl)

-- The words of argv around the option.
module _ (argv : Words) (from : ℕ) (operands : Words) (word : List ℕ) (rest : Words)
    (whole : argv ≡ take from argv ++ (operands ++ (word ∷ rest)))
    (front : length (take from argv) ≡ from) where
  option_at : get_or argv (from + length operands) [] ≡ word
  option_at =
      let place : from + length operands ≡ length (take from argv) + length operands =
        omega (arith, front) in
      ap₂ (λ (av : Words) (i : ℕ). get_or av i []) whole place
      ∙ get_or-after (take from argv) (length operands) (operands ++ (word ∷ rest))
      ∙ get_or-head operands word rest

  argument_at :
      (x : List ℕ) (rest' : Words)
      → rest ≡ x ∷ rest'
      → get_or argv (from + length operands + 1) [] ≡ x
  argument_at x rest' e =
      let place : from + length operands + 1 ≡ length (take from argv) + (length operands + 1) =
        omega (arith, front) in
      ap₂ (λ (av : Words) (i : ℕ). get_or av i []) whole place
      ∙ get_or-after (take from argv) (length operands + 1) (operands ++ (word ∷ rest))
      ∙ get_or-after operands 1 (word ∷ rest)
      ∙ ap (λ (l : Words). get_or l 0 []) e

  -- Calls of `permute` for one word and for two.
  pub permute_one :
      permute_all 1 argv from (from + length operands + 1 - 1)
      ≡ take from argv ++ (word ∷ (operands ++ rest))
  permute_one =
      let src : from + length operands + 1 - 1
          ≡ length (take from argv) + (length operands + 1) - 1 =
        omega (arith, front) in
      ap₂ (λ (av : Words) (i : ℕ). permute_all 1 av from i) whole src
      ∙ ap
          (λ (d : ℕ).
            permute_all 1 (take from argv ++ (operands ++ (word ∷ rest))) d
              (length (take from argv) + (length operands + 1) - 1))
          (sym front)
      ∙ permute_all_lem 1 (take from argv) operands (word ∷ []) rest refl

  pub permute_two :
      (x : List ℕ) (rest' : Words)
      → rest ≡ x ∷ rest'
      → permute_all 2 argv from (from + length operands + 2 - 1)
        ≡ take from argv ++ (word ∷ x ∷ (operands ++ rest'))
  permute_two x rest' e =
      let src : from + length operands + 2 - 1
          ≡ length (take from argv) + (length operands + 2) - 1 =
        omega (arith, front) in
      ap₂ (λ (av : Words) (i : ℕ). permute_all 2 av from i)
        (whole ∙ ap (λ (l : Words). take from argv ++ (operands ++ (word ∷ l))) e) src
      ∙ ap
          (λ (d : ℕ).
            permute_all 2 (take from argv ++ (operands ++ (word ∷ x ∷ rest'))) d
              (length (take from argv) + (length operands + 2) - 1))
          (sym front)
      ∙ permute_all_lem 2 (take from argv) operands (word ∷ x ∷ []) rest' refl

  size : length argv ≡ from + length operands + 1 + length rest
  size =
      ap length whole
      ∙ length-append (take from argv) (operands ++ (word ∷ rest))
      ∙ omega (arith, front, length-append operands (word ∷ rest))

  pub progress :
      (st : Scan)
      → is_option word ≡ true
      → Ends (from + length operands) argv st
      → Progress (from + length operands) rest st
  progress st o (inl (a, inl b)) = inl (a, b)
  progress st o (inl (a, inr (inl b))) = absurd (omega (arith, size, b))
  progress st o (inl (a, inr (inr b))) =
      absurd (let same = ap is_option option_at in cc (same, b, o))
  progress st o (inr (inl (a, b, c))) = inr (inl (a, b))
  progress st o (inr (inr (a, b, c, d))) =
      let (x, rest', e) = first_of rest (omega (arith, size, c)) in
      inr (inr (x, rest', e, a, b, d ∙ ap some (argument_at x rest' e)))
