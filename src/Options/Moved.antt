-- ===== src/Options/Moved.antt =====
-- src/getopt.c: what a call of getopt_long that has read an option moves.
use libcs.Prelude.{
  ℕ, ◌+◌, ◌-◌, ◌≤◌, ◌<◌, ◌≡◌, ◌⊎◌, refl, arith, ap, ap₂, subst, ◌∙◌, sym, true, false, Option, some,
  List, [], ◌∷◌, ◌++◌, ltb, length, length-take, length-drop, take, drop, take-append-drop,
  Bool-cases, inl, inr,
}
use libcs.Options.{Scan}
use libcs.Options.Long.{LongResult, permute_all, is_option, settle}
use libcs.Options.Bounds.{Ends}
use libcs.Options.Order.{Words}
use libcs.Options.Places.{Progress, progress, permute_one, permute_two}

abbrev pub AllOperands : Words → Type 0
AllOperands [] = Unit
AllOperands (w ∷ ws) = (is_option w ≡ false) × AllOperands ws

-- How far a call has read the option `word`, and what it has moved: it has stopped inside the word, and nothing is
-- moved; it has read the word, which stands before the operands now; or also the next one as the argument.
abbrev pub Moves :
    (from : ℕ) → (front operands : Words) → (word : List ℕ) → (rest argv' : Words) → Scan → Type 0
Moves from front operands word rest argv' st =
    ((argv' ≡ front ++ (operands ++ (word ∷ rest))) × (st.optind ≡ from) × (1 ≤ st.optpos))
    ⊎ (((argv' ≡ front ++ (word ∷ (operands ++ rest))) × (st.optind ≡ from + 1) × (st.optpos ≡ 0))
        ⊎ ((x : List ℕ) × (rest' : Words) × (rest ≡ x ∷ rest')
            × (argv' ≡ front ++ (word ∷ x ∷ (operands ++ rest')))
            × (st.optind ≡ from + 2)
            × (st.optpos ≡ 0)
            × (st.optarg ≡ some x)))

-- The words from `from` on are operands, an option and others, and the result is that of the call `core` at the option.
pub record IsMoved (core : ℕ → Option LongResult) (from : ℕ) (argv argv' : Words) (r : LongResult)
    : Type 0 where
  pub operands : Words
  pub word : List ℕ
  pub rest : Words
  pub before : argv ≡ take from argv ++ (operands ++ (word ∷ rest))
  pub skipped : AllOperands operands
  pub option : is_option word ≡ true
  pub after : Moves from (take from argv) operands word rest argv' r.scan
  pub result : LongResult
  pub read : core (from + length operands) ≡ some result
  pub same : r ≡ record result { scan = record (result.scan) { optind = r.scan.optind } }

permute_none : (argv : Words) (from src : ℕ) → permute_all 0 argv from src ≡ argv
unfolding permute_all
permute_none argv from src = refl

pub settle-here : (argv : Words) (from : ℕ) (r : LongResult) → settle argv from from r ≡ (r, argv)
unfolding settle
settle-here argv from r = elim (Bool-cases (ltb from from)) [
  | inl a ↦ absurd (ground arith)
  | inr a ↦ rw a refl
]

settle-ahead :
    (argv : Words) (from resumed : ℕ) (r : LongResult)
    → from < resumed
    → settle argv from resumed r ≡ (
      record r { scan = record (r.scan) { optind = from + (r.scan.optind - resumed) } },
      permute_all (r.scan.optind - resumed) argv from (r.scan.optind - 1),
    )
unfolding settle
settle-ahead argv from resumed r h = elim (Bool-cases (ltb from resumed)) [
  | inl a ↦ rw a refl
  | inr a ↦ absurd (ground arith)
]

module _ (core : ℕ → Option LongResult) (argv : Words) (from : ℕ) (word : List ℕ) (rest : Words)
    (r : LongResult) (front : length (take from argv) ≡ from) (option : is_option word ≡ true) where
  -- The last move of the call, from how far it has read.
  moved :
      (operands : Words)
      → argv ≡ take from argv ++ (operands ++ (word ∷ rest))
      → Progress (from + length operands) rest r.scan
      → Moves from
          (take from argv)
          operands
          word
          rest
          (permute_all (r.scan.optind - (from + length operands)) argv from (r.scan.optind - 1))
          (record (r.scan) { optind = from + (r.scan.optind - (from + length operands)) })
  moved operands whole progress =
      let place = from + length operands in
      let count = r.scan.optind - place in
      elim progress [
        | inl (a, b) ↦
            let zero_moves : count ≡ 0 = omega (arith, a) in
            inl (
              ap (λ (n : ℕ). permute_all n argv from (r.scan.optind - 1)) zero_moves
                  ∙ permute_none argv from (r.scan.optind - 1)
                  ∙ whole,
              omega (arith, a),
              b,
            )
        | inr (inl (a, b)) ↦
            let once : count ≡ 1 = omega (arith, a) in
            let src : r.scan.optind - 1 ≡ place + 1 - 1 = omega (arith, a) in
            inr (
              inl (
                ap₂ (λ (n i : ℕ). permute_all n argv from i) once src
                    ∙ permute_one argv from operands word rest whole front,
                omega (arith, a),
                b,
              ))
        | inr (inr (x, rest', f, a, b, c)) ↦
            let twice : count ≡ 2 = omega (arith, a) in
            let src : r.scan.optind - 1 ≡ place + 2 - 1 = omega (arith, a) in
            inr (
              inr (
                x,
                rest',
                f,
                ap₂ (λ (n i : ℕ). permute_all n argv from i) twice src
                    ∙ permute_two argv from operands word rest whole front x rest' f,
                omega (arith, a),
                b,
                c,
              ))
      ]

  settle-IsMoved :
      (operands : Words)
      → argv ≡ take from argv ++ (operands ++ (word ∷ rest))
      → AllOperands operands
      → core (from + length operands) ≡ some r
      → Progress (from + length operands) rest r.scan
      → let s = settle argv from (from + length operands) r in IsMoved core from argv s.1 s.0
  settle-IsMoved [] whole all read progress =
      let none : from ≡ from + 0 = omega arith in
      let e = ap (λ (n : ℕ). settle argv from n r) (sym none) ∙ settle-here argv from r in
      subst (λ (s : LongResult × Words). IsMoved core from argv s.1 s.0) (sym e)
        (record {
          operands = [];
          word = word;
          rest = rest;
          before = whole;
          skipped = tt;
          option = option;
          after = elim progress [
            | inl (a, b) ↦ inl (whole, a ∙ sym none, b)
            | inr (inl (a, b)) ↦ inr (inl (whole, omega (arith, a), b))
            | inr (inr (x, rest', f, a, b, c)) ↦ inr (
                inr (
                  x,
                  rest',
                  f,
                  whole ∙ ap (λ (l : Words). take from argv ++ (word ∷ l)) f,
                  omega (arith, a),
                  b,
                  c,
                ))
          ];
          result = r;
          read = read;
          same = refl;
        })
  settle-IsMoved (o ∷ ops) whole all read progress =
      let e = settle-ahead argv from (from + length (o ∷ ops)) r (omega arith) in
      subst (λ (s : LongResult × Words). IsMoved core from argv s.1 s.0) (sym e)
        (record {
          operands = o ∷ ops;
          word = word;
          rest = rest;
          before = whole;
          skipped = all;
          option = option;
          after = moved (o ∷ ops) whole progress;
          result = r;
          read = read;
          same = refl;
        })

pub settled :
    (core : ℕ → Option LongResult) (argv : Words) (from n : ℕ) (word : List ℕ) (rest : Words)
    (r : LongResult)
    → n < length (drop from argv)
    → drop n (drop from argv) ≡ word ∷ rest
    → is_option word ≡ true
    → AllOperands (take n (drop from argv))
    → core (from + n) ≡ some r
    → Ends (from + n) argv r.scan
    → let s = settle argv from (from + n) r in IsMoved core from argv s.1 s.0
settled core argv from n word rest r less at option all read ends =
    let tail = drop from argv in
    let size : n ≡ length (take n tail) = omega (arith, length-take n tail, less) in
    let front : length (take from argv) ≡ from =
      omega (arith, length-take from argv, length-drop from argv, less) in
    let whole =
      sym (take-append-drop from argv)
      ∙ ap (λ (b : Words). take from argv ++ b) (sym (take-append-drop n tail))
      ∙ ap (λ (b : Words). take from argv ++ (take n tail ++ b)) at in
    let result = subst (λ (k : ℕ). core (from + k) ≡ some r) size read in
    let reached = subst (λ (k : ℕ). Ends (from + k) argv r.scan) size ends in
    subst (λ (k : ℕ). let s = settle argv from (from + k) r in IsMoved core from argv s.1 s.0)
      (sym size)
      (settle-IsMoved core argv from word rest r front option (take n tail) whole all result
        (progress argv from (take n tail) word rest whole front r.scan option reached))
