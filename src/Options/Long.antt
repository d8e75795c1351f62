-- ===== src/Options/Long.antt =====
-- src/getopt.c: the long options, and the words that getopt_long moves.
use libcs.Prelude.{
  ℕ, zero, suc, ◌+◌, ◌-◌, Bool, true, false, not, ◌&&◌, ◌||◌, Option, none, some, List, [], ◌∷◌,
  leb, ltb, ◌==◌, if◌then◌else◌, length, get_or, set, take, drop,
}
use libcs.Prelude.Int.{ℤ, pos, eqb_ℤ}
use libcs.Prelude.Text.{eqb_list}
use libcs.Options.{Scan, minus_one, question, byte_at, restart, past_sign, from_byte, getopt}

-- `struct option`; a null flag is 0.
pub record LongOption : Type 0 where
  pub name : List ℕ
  pub has_arg : ℕ
  pub flag : ℕ
  pub val : ℤ

-- The value of a call, with what it stores through `idx` and through a flag.
pub record LongResult : Type 0 where
  pub value : ℤ
  pub scan : Scan
  pub index : Option ℕ
  pub store : Option (ℕ × ℤ)

unfoldable pub bare : ℤ × Scan → LongResult
bare (r, end) = record { value = r; scan = end; index = none; store = none }

-- The bytes before an `=`, and what `eq` points to: the bytes from it.
unfoldable pub before_equals : List ℕ → List ℕ
before_equals [] = []
before_equals (x ∷ s) = let rest = before_equals s in if x == 61 then [] else x ∷ rest

unfoldable pub from_equals : List ℕ → List ℕ
from_equals [] = []
from_equals (x ∷ s) = let rest = from_equals s in if x == 61 then x ∷ s else rest

-- `!strncmp(lo[i].name, name, nl)` for the `nl` bytes `given`.
unfoldable pub agrees : (given : List ℕ) → List ℕ → Bool
agrees given name = eqb_list (take (length given) name) given

abbrev pub differs : LongOption → LongOption → Bool
differs o m = not (o.has_arg == m.has_arg) || (not (o.flag == m.flag) || not (eqb_ℤ o.val m.val))

-- `match` and `cnt` after an option whose name only begins with the bytes given.
unfoldable pub note_match :
    ℕ → LongOption → Option (ℕ × LongOption) × ℕ → Option (ℕ × LongOption) × ℕ
note_match i o (none, cnt) = (some (i, o), cnt + 1)
note_match i o (some (j, m), cnt) = (some (j, m), if differs o m then cnt + 1 else cnt)

-- The loop of `long_core` over the options from number `i` on.
unfoldable pub find_long :
    (given : List ℕ)
    → ℕ
    → List LongOption
    → Option (ℕ × LongOption) × ℕ
    → Option (ℕ × LongOption) × ℕ
find_long given i [] found = found
find_long given i (o ∷ lo) found =
    let rest =
      find_long given (i + 1) lo (if agrees given o.name then note_match i o found else found) in
    if agrees given o.name && (byte_at o.name (length given) == 0) then (some (i, o), 1) else rest

-- `strchr(os, c)` is not null.
unfoldable pub has_byte : ℕ → List ℕ → Bool
has_byte c s = if c == 0 then true else elim (from_byte c s) [ none ↦ false | some d ↦ true ]

-- The end of `long_core`.
unfoldable pub take_long : ℕ → LongOption → Scan → LongResult
take_long i o st =
    if o.flag == 0
    then record { value = o.val; scan = st; index = some i; store = none }
    else record { value = pos 0; scan = st; index = some i; store = some (o.flag, o.val) }

-- The part of `long_core` from `o = &lo[match]` on; `value` is what stands from an `=` on.
unfoldable pub long_argument :
    List (List ℕ) → (colon : Bool) → (value : List ℕ) → ℕ → LongOption → Scan → LongResult
long_argument argv colon value i o st =
    let refused = record st { optarg = none; optopt = o.val } in
    if not (byte_at value 0 == 0)
    then (if o.has_arg == 0
        then bare (question, refused)
        else take_long i o (record st { optarg = some (drop 1 value) }))
    else (if o.has_arg == 1
        then (if leb (length argv) st.optind
            then bare (if colon then pos 58 else question, refused)
            else take_long i o
                (record st { optarg = some (get_or argv st.optind []); optind = st.optind + 1 }))
        else take_long i o (record st { optarg = none }))

-- The number of matches has to be 1.
unfoldable pub long_match :
    List (List ℕ)
    → (colon : Bool) → (value : List ℕ) → Option (ℕ × LongOption) × ℕ
    → Scan
    → LongResult
long_match argv colon value (none, cnt) st = bare (question, record st { optopt = pos 0 })
long_match argv colon value (some (i, o), cnt) st =
    if cnt == 1
    then long_argument argv colon value i o st
    else bare (question, record st { optopt = pos 0 })

-- A word that may be a long option.
unfoldable pub is_long : (long_only : Bool) → List ℕ → Bool
is_long long_only arg =
    (byte_at arg 0 == 45)
    && (((byte_at arg 1 == 45) && not (byte_at arg 2 == 0))
        || (long_only && (not (byte_at arg 1 == 0) && not (byte_at arg 1 == 45))))

unfoldable pub short : List (List ℕ) → List ℕ → Scan → Option LongResult
short argv optstring st = elim (getopt argv optstring st) [ none ↦ none | some r ↦ some (bare r) ]

-- `long_core(argc, argv, optstring, lo, idx, longonly)`.
unfoldable pub long_core :
    List (List ℕ) → List ℕ → List LongOption → (long_only : Bool) → Scan → Option LongResult
long_core argv optstring lo long_only st =
    let arg = get_or argv st.optind [] in
    let os = past_sign optstring in
    let single = long_only && not (byte_at arg 1 == 45) in
    let name = drop (if byte_at arg 1 == 45 then 2 else 1) arg in
    let found = find_long (before_equals name) 0 lo (none, 0) in
    if leb (length argv) st.optind || (not (st.optpos == 0) || not (is_long long_only arg))
    then short argv optstring st
    else (if single && ((byte_at arg 2 == 0) && has_byte (byte_at arg 1) os)
        then short argv optstring st
        else (if single && ((found.1 == 0) && has_byte (byte_at name 0) os)
            then short argv optstring st
            else some (
                long_match argv (byte_at os 0 == 58) (from_equals name) found
                  (record st { optind = st.optind + 1 }))))

-- The loop of `permute` with `n` words left, and `permute(argv, dest, src)`.
unfoldable pub shift_up : ℕ → ℕ → List (List ℕ) → List (List ℕ)
shift_up zero dest av = av
shift_up (suc n) dest av = shift_up n dest (set av (dest + suc n) (get_or av (dest + n) []))

unfoldable pub permute : List (List ℕ) → (dest src : ℕ) → List (List ℕ)
permute av dest src = set (shift_up (src - dest) dest av) dest (get_or av src [])

-- `cnt` calls of `permute`.
unfoldable pub permute_all : ℕ → List (List ℕ) → (dest src : ℕ) → List (List ℕ)
permute_all zero av dest src = av
permute_all (suc cnt) av dest src = permute_all cnt (permute av dest src) dest src

-- `argv[i][0] == '-' && argv[i][1]`.
unfoldable pub is_option : List ℕ → Bool
is_option arg = (byte_at arg 0 == 45) && not (byte_at arg 1 == 0)

abbrev pub count_on : Option ℕ → Option ℕ
count_on none = none
count_on (some n) = some (suc n)

-- How many of the words stand before the first option; `none` if there is no option.
unfoldable pub operands_before : List (List ℕ) → Option ℕ
operands_before [] = none
operands_before (w ∷ ws) =
    let rest = count_on (operands_before ws) in if is_option w then some 0 else rest

-- `if (resumed > skipped) …` after a call.
unfoldable pub settle :
    List (List ℕ) → (skipped resumed : ℕ) → LongResult → LongResult × List (List ℕ)
settle argv skipped resumed r =
    let cnt = r.scan.optind - resumed in
    if ltb skipped resumed
    then (
      record r { scan = record (r.scan) { optind = skipped + cnt } },
      permute_all cnt argv skipped (r.scan.optind - 1),
    )
    else (r, argv)

-- The call at `resumed`, after which the option goes before the words from `skipped` on.
unfoldable pub read_option :
    List (List ℕ)
    → List ℕ
    → List LongOption
    → (long_only : Bool) → (skipped resumed : ℕ) → Scan
    → Option (LongResult × List (List ℕ))
read_option argv optstring lo long_only skipped resumed st =
    elim (long_core argv optstring lo long_only (record st { optind = resumed })) [
      | none ↦ none
      | some r ↦ some (settle argv skipped resumed r)
    ]

-- `long_permute(argc, argv, optstring, lo, idx, longonly)`: the result and the words of argv. `getopt_long` and
-- `getopt_long_only` are the two cases of `long_only`.
unfoldable pub long_permute :
    (posixly_correct : Bool)
    → List (List ℕ)
    → List ℕ
    → List LongOption
    → (long_only : Bool) → Scan
    → Option (LongResult × List (List ℕ))
long_permute posixly_correct argv optstring lo long_only st =
    let start = restart st in
    let moves =
      (start.optpos == 0)
      && (not (byte_at optstring 0 == 43)
          && (not (byte_at optstring 0 == 45) && not posixly_correct)) in
    let stop = some (bare (minus_one, start), argv) in
    let ahead : Option (LongResult × List (List ℕ)) =
      elim (operands_before (drop start.optind argv)) [
        | none ↦ stop
        | some n ↦ read_option argv optstring lo long_only start.optind (start.optind + n) start
      ] in
    if leb (length argv) start.optind
    then stop
    else (if moves
        then ahead
        else read_option argv optstring lo long_only start.optind start.optind start)
