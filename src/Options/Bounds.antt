-- ===== src/Options/Bounds.antt =====
-- src/getopt.c: where a call of getopt or getopt_long leaves optind, optpos and optarg.
use libcs.Prelude.{
  ℕ, ◌+◌, ◌≤◌, ◌<◌, ◌≡◌, ◌⊎◌, refl, arith, ap, sym, ◌∙◌, subst, false, not, ◌&&◌, Option, none,
  some, List, [], leb, ◌==◌, length, get_or, Option-cases, Bool-cases, inl, inr,
}
use libcs.Prelude.Int.{ℤ, pos}
use libcs.Options.{
  Scan, byte_at, restart, Entered, answer, inside, enter_word, past_sign, find_option, next_place,
  take_argument, scan_option, getopt,
}
use libcs.Options.Long.{is_option}

-- Where a call that starts at the word `from` leaves the scan: at this word, inside of it or because it is no option;
-- behind it; or behind the next word, which is the argument.
abbrev pub Ends : ℕ → List (List ℕ) → Scan → Type 0
Ends from argv st =
    ((st.optind ≡ from)
      × ((1 ≤ st.optpos) ⊎ ((length argv ≤ from) ⊎ (is_option (get_or argv from []) ≡ false))))
    ⊎ (((st.optind ≡ from + 1) × (st.optpos ≡ 0) × (from < length argv))
        ⊎ ((st.optind ≡ from + 2)
            × (st.optpos ≡ 0)
            × (from + 1 < length argv)
            × (st.optarg ≡ some (get_or argv (from + 1) []))))

-- The scan is between words, or at a byte of the word `arg`.
abbrev pub IsPlace : List ℕ → Scan → Type 0
IsPlace arg st = (st.optpos ≡ 0) ⊎ (byte_at arg st.optpos == 0 ≡ false)

-- An answer leaves optind or the next place; a scan inside of a word leaves it.
abbrev Enters : ℕ → List ℕ → Entered → Type 0
Enters from arg (answer r st) =
    ((st.optind ≡ from) × (is_option arg ≡ false)) ⊎ ((st.optind ≡ from + 1) × (st.optpos ≡ 0))
Enters from arg (inside st) = (st.optind ≡ from) × (byte_at arg st.optpos == 0 ≡ false)

enter_word-Enters :
    (optstring arg : List ℕ) (st : Scan)
    → IsPlace arg st
    → Enters st.optind arg (enter_word optstring arg st)
unfolding enter_word is_option
enter_word-Enters optstring arg st place = elim (Bool-cases (st.optpos == 0)) [
  | inr a ↦ rw a (refl, elim place [ inl z ↦ absurd (ground arith) | inr at ↦ at ])
  | inl a ↦ elim (Bool-cases (byte_at arg 0 == 45)) [
    | inr b ↦ elim (Bool-cases (byte_at optstring 0 == 45)) [
      | inl c ↦ rw (a, b, c) (inr (refl, ground arith))
      | inr c ↦ rw (a, b, c) (inl (refl, ground arith))
    ]
    | inl b ↦ elim (Bool-cases (byte_at arg 1 == 0)) [
      | inl c ↦ rw (a, b, c) (inl (refl, ground arith))
      | inr c ↦ elim (Bool-cases ((byte_at arg 1 == 45) && (byte_at arg 2 == 0))) [
        | inl d ↦ rw (a, b, c, d) (inr (refl, ground arith))
        | inr d ↦ rw (a, b, c, d) (refl, c)
      ]
    ]
  ]
]

-- The place behind an option letter, in the word `from` or behind it.
abbrev Behind : ℕ → Scan → Type 0
Behind from st = ((st.optind ≡ from + 1) × (st.optpos ≡ 0)) ⊎ ((st.optind ≡ from) × (1 ≤ st.optpos))

Behind-Ends :
    (argv : List (List ℕ)) (from : ℕ) (st : Scan)
    → from < length argv
    → Behind from st
    → Ends from argv st
Behind-Ends argv from st h (inl (a, b)) = inr (inl (a, b, h))
Behind-Ends argv from st h (inr (a, b)) = inl (a, inl b)

take_argument-Ends :
    (argv : List (List ℕ)) (optstring arg d : List ℕ) (c : ℕ) (st : Scan) (from : ℕ)
    → from < length argv
    → Behind from st
    → Ends from argv (take_argument argv optstring arg d c st).1
unfolding take_argument
take_argument-Ends argv optstring arg d c st from h k =
    elim (Bool-cases (not (byte_at d 1 == 58))) [
      | inl e ↦ rw e (Behind-Ends argv from st h k)
      | inr e ↦ elim (Bool-cases (not (st.optpos == 0))) [
        | inl f ↦ rw (e, f) (inr (inl (ground (arith, k), refl, h)))
        | inr f ↦ elim (Bool-cases (byte_at d 2 == 58)) [
          | inl g ↦ rw (e, f, g) (Behind-Ends argv from (record st { optarg = none }) h k)
          | inr g ↦ elim (Bool-cases (leb (length argv) st.optind)) [
            | inl l ↦
                rw (e, f, g, l)
                  (Behind-Ends argv from (record st { optarg = none; optopt = pos c }) h k)
            | inr l ↦
                let next : st.optind ≡ from + 1 = ground (arith, k) in
                rw (e, f, g, l)
                  (inr (
                    inr (
                      omega (arith, next),
                      ground arith,
                      ground (arith, next),
                      ap (λ (n : ℕ). some (get_or argv n [])) next,
                    )))
          ]
        ]
      ]
    ]

next_place-Behind : (arg : List ℕ) (st : Scan) → Behind st.optind (next_place arg st)
unfolding next_place
next_place-Behind arg st = ground arith

-- A call returns, and leaves the scan where it may.
abbrev pub Leaves : (from : ℕ) → List (List ℕ) → Option (ℤ × Scan) → Type 0
Leaves from argv none = ⊥
Leaves from argv (some (r, end)) = Ends from argv end

scan_option-Leaves :
    (argv : List (List ℕ)) (optstring arg : List ℕ) (st : Scan)
    → st.optind < length argv
    → (byte_at arg st.optpos == 0 ≡ false)
    → Leaves st.optind argv (scan_option argv optstring arg st)
unfolding scan_option
scan_option-Leaves argv optstring arg st h a =
    let next = next_place-Behind arg st in
    let c = byte_at arg st.optpos in
    elim (Option-cases (find_option c optstring)) [
      | inl b ↦
          rw (a, b)
            (Behind-Ends argv st.optind (record (next_place arg st) { optopt = pos c }) h next)
      | inr (d, b) ↦
          rw (a, b) (take_argument-Ends argv optstring arg d c (next_place arg st) st.optind h next)
    ]

entered-Leaves :
    (argv : List (List ℕ)) (optstring arg : List ℕ) (from : ℕ) (entered : Entered)
    → from < length argv
    → arg ≡ get_or argv from []
    → Enters from arg entered
    → Leaves from argv (elim entered [
      | answer r end ↦ some (r, end)
      | inside place ↦ scan_option argv optstring arg place
    ])
entered-Leaves argv optstring arg from (answer r end) h same (inl (a, b)) =
    inl (a, inr (inr (ap is_option (sym same) ∙ b)))
entered-Leaves argv optstring arg from (answer r end) h same (inr (a, b)) = inr (inl (a, b, h))
entered-Leaves argv optstring arg from (inside place) h same (k, at) =
    subst (λ (n : ℕ). Leaves n argv (scan_option argv optstring arg place)) k
      (scan_option-Leaves argv optstring arg place (omega (arith, k, h)) at)

pub getopt-Leaves :
    (argv : List (List ℕ)) (optstring : List ℕ) (st : Scan)
    → (restart st).optind ≤ length argv
    → IsPlace (get_or argv (restart st).optind []) (restart st)
    → Leaves (restart st).optind argv (getopt argv optstring st)
unfolding getopt
getopt-Leaves argv optstring st h place =
    let start = restart st in
    let arg = get_or argv start.optind [] in
    elim (Bool-cases (leb (length argv) start.optind)) [
      | inl a ↦ rw a (inl (refl, inr (inl (ground arith))))
      | inr a ↦ rw a (
          entered-Leaves argv (past_sign optstring) arg start.optind
            (enter_word optstring arg start) (ground arith) refl
            (enter_word-Enters optstring arg start place))
    ]
