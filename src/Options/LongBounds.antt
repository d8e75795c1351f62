-- ===== src/Options/LongBounds.antt =====
-- src/getopt.c: where a call of long_core leaves optind, optpos and optarg.
use libcs.Prelude.{
  ℕ, ◌+◌, ◌≤◌, ◌<◌, ◌≡◌, refl, arith, ap, Bool, false, not, ◌&&◌, ◌||◌, Option, none, some, List,
  [], leb, ◌==◌, if◌then◌else◌, length, get_or, drop, Bool-cases, inl, inr,
}
use libcs.Prelude.Int.{ℤ}
use libcs.Options.{Scan, byte_at, restart, past_sign, getopt}
use libcs.Options.Long.{
  LongOption, LongResult, bare, find_long, take_long, long_argument, long_match, is_long, has_byte,
  before_equals, from_equals, short, long_core,
}
use libcs.Options.Bounds.{Ends, IsPlace, Leaves, getopt-Leaves}

abbrev pub LongLeaves : (from : ℕ) → List (List ℕ) → Option LongResult → Type 0
LongLeaves from argv none = ⊥
LongLeaves from argv (some r) = Ends from argv r.scan

bare-LongLeaves :
    (from : ℕ) (argv : List (List ℕ)) (given : Option (ℤ × Scan))
    → Leaves from argv given
    → LongLeaves from argv (elim given [ none ↦ none | some r ↦ some (bare r) ])
unfolding bare
bare-LongLeaves from argv none h = h
bare-LongLeaves from argv (some (r, end)) h = h

short-LongLeaves :
    (argv : List (List ℕ)) (optstring : List ℕ) (st : Scan)
    → 1 ≤ st.optind
    → st.optind ≤ length argv
    → IsPlace (get_or argv st.optind []) st
    → LongLeaves st.optind argv (short argv optstring st)
unfolding short bare restart
short-LongLeaves argv optstring st h k place =
    let a : st.optind == 0 ≡ false = ground arith in
    let ends = getopt-Leaves argv optstring st in
    bare-LongLeaves st.optind argv (getopt argv optstring st) (rw a at ends k place)

take_long-Ends :
    (i : ℕ) (o : LongOption) (st : Scan) (from : ℕ) (argv : List (List ℕ))
    → Ends from argv st
    → Ends from argv (take_long i o st).scan
unfolding take_long
take_long-Ends i o st from argv h = elim (Bool-cases (o.flag == 0)) [
  | inl a ↦ rw a h
  | inr a ↦ rw a h
]

long_argument-Ends :
    (argv : List (List ℕ)) (colon : Bool) (value : List ℕ) (i : ℕ) (o : LongOption) (st : Scan)
    (from : ℕ)
    → st.optind ≡ from + 1
    → st.optpos ≡ 0
    → from < length argv
    → Ends from argv (long_argument argv colon value i o st).scan
unfolding long_argument bare
long_argument-Ends argv colon value i o st from h p k =
    let taken = λ (end : Scan) (e : Ends from argv end). take_long-Ends i o end from argv e in
    elim (Bool-cases (not (byte_at value 0 == 0))) [
      | inl a ↦ elim (Bool-cases (o.has_arg == 0)) [
        | inl b ↦ rw (a, b) (inr (inl (h, p, k)))
        | inr b ↦ rw (a, b) (taken _ (inr (inl (h, p, k))))
      ]
      | inr a ↦ elim (Bool-cases (o.has_arg == 1)) [
        | inr b ↦ rw (a, b) (taken _ (inr (inl (h, p, k))))
        | inl b ↦ elim (Bool-cases (leb (length argv) st.optind)) [
          | inl c ↦ rw (a, b, c) (inr (inl (h, p, k)))
          | inr c ↦
              rw (a, b, c)
                (taken _ (
                  inr (
                    inr (
                      omega (arith, h),
                      p,
                      ground (arith, h),
                      ap (λ (n : ℕ). some (get_or argv n [])) h,
                    ))))
        ]
      ]
    ]

long_match-Ends :
    (argv : List (List ℕ)) (colon : Bool) (value : List ℕ) (found : Option (ℕ × LongOption) × ℕ)
    (st : Scan) (from : ℕ)
    → st.optind ≡ from + 1
    → st.optpos ≡ 0
    → from < length argv
    → Ends from argv (long_match argv colon value found st).scan
unfolding long_match bare
long_match-Ends argv colon value (none, cnt) st from h p k = inr (inl (h, p, k))
long_match-Ends argv colon value (some (i, o), cnt) st from h p k = elim (Bool-cases (cnt == 1)) [
  | inl a ↦ rw a (long_argument-Ends argv colon value i o st from h p k)
  | inr a ↦ rw a (inr (inl (h, p, k)))
]

-- `long_core` returns, and leaves the scan at the word, behind it, or behind its argument.
pub long_core-LongLeaves :
    (argv : List (List ℕ)) (optstring : List ℕ) (lo : List LongOption) (long_only : Bool)
    (st : Scan)
    → 1 ≤ st.optind
    → st.optind ≤ length argv
    → IsPlace (get_or argv st.optind []) st
    → LongLeaves st.optind argv (long_core argv optstring lo long_only st)
unfolding long_core
long_core-LongLeaves argv optstring lo long_only st h k place =
    let arg = get_or argv st.optind [] in
    let os = past_sign optstring in
    let single = long_only && not (byte_at arg 1 == 45) in
    let name = drop (if byte_at arg 1 == 45 then 2 else 1) arg in
    let found = find_long (before_equals name) 0 lo (none, 0) in
    let by_short = short-LongLeaves argv optstring st h k place in
    elim (Bool-cases
      (leb (length argv) st.optind || (not (st.optpos == 0) || not (is_long long_only arg)))) [
        | inl a ↦ rw a by_short
        | inr a ↦
            elim (Bool-cases (single && ((byte_at arg 2 == 0) && has_byte (byte_at arg 1) os))) [
              | inl b ↦ rw (a, b) by_short
              | inr b ↦
                  elim (Bool-cases (single && ((found.1 == 0) && has_byte (byte_at name 0) os))) [
                    | inl c ↦ rw (a, b, c) by_short
                    | inr c ↦
                        let next = record st { optind = st.optind + 1 } in
                        rw (a, b, c)
                          (long_match-Ends argv (byte_at os 0 == 58) (from_equals name) found next
                            st.optind refl (ground arith) (ground arith))
                  ]
            ]
      ]
