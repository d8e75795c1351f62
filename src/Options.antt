-- ===== src/Options.antt =====
-- src/getopt.c: getopt, getopt_long and getopt_long_only. A word or an option string is the list of its bytes
-- before the null byte, and a read of that byte gives 0. `argc` is the length of argv, no word of which is a null
-- pointer. The messages of `complain` are left out, and whether POSIXLY_CORRECT is set is an argument.
pub mod Long
pub mod Bounds
pub mod LongBounds
pub mod Order
pub mod Places
pub mod Moved
pub mod Moves
mod Examples
use libcs.Prelude.{
  ℕ, zero, suc, ◌+◌, ◌-◌, Bool, true, false, not, ◌&&◌, ◌||◌, Option, none, some, List, [], ◌∷◌,
  leb, ◌==◌, if◌then◌else◌, length, get_or, set, drop,
}
use libcs.Prelude.Int.{ℤ, pos, negsuc}

-- The variables optind, optopt and optarg, and the static optpos.
pub record Scan : Type 0 where
  pub optind : ℕ
  pub optpos : ℕ
  pub optopt : ℤ
  pub optarg : Option (List ℕ)

abbrev pub minus_one : ℤ
minus_one = negsuc 0

abbrev pub question : ℤ
question = pos 63

abbrev pub byte_at : List ℕ → ℕ → ℕ
byte_at s i = get_or s i 0

-- `optarg = 0`, and a scan that starts again when optind is 0.
unfoldable pub restart : Scan → Scan
restart st =
    if st.optind == 0
    then record st { optind = 1; optpos = 0; optarg = none }
    else record st { optarg = none }

-- `if (!optpos) …`: an answer, or a place inside of a word.
pub data Entered : Type 0 where
  answer : ℤ → Scan → Entered
  inside : Scan → Entered

unfoldable pub enter_word : (optstring arg : List ℕ) → Scan → Entered
enter_word optstring arg st =
    if not (st.optpos == 0)
    then inside st
    else (if not (byte_at arg 0 == 45)
        then (if byte_at optstring 0 == 45
            then answer (pos 1) (record st { optarg = some arg; optind = st.optind + 1 })
            else answer minus_one st)
        else (if byte_at arg 1 == 0
            then answer minus_one st
            else (if (byte_at arg 1 == 45) && (byte_at arg 2 == 0)
                then answer minus_one (record st { optind = st.optind + 1 })
                else inside (record st { optpos = 1 }))))

-- The option string without its `-` or `+`.
unfoldable pub past_sign : List ℕ → List ℕ
past_sign optstring =
    if (byte_at optstring 0 == 45) || (byte_at optstring 0 == 43)
    then drop 1 optstring
    else optstring

-- `strchr(s, c)` for a byte that is not null.
unfoldable pub from_byte : ℕ → List ℕ → Option (List ℕ)
from_byte c [] = none
from_byte c (x ∷ s) = let rest = from_byte c s in if x == c then some (x ∷ s) else rest

-- `c != ':' ? strchr(optstring, c) : 0`.
unfoldable pub find_option : ℕ → List ℕ → Option (List ℕ)
find_option c optstring = if c == 58 then none else from_byte c optstring

-- The place behind the byte at optpos.
unfoldable pub next_place : List ℕ → Scan → Scan
next_place arg st =
    if byte_at arg (st.optpos + 1) == 0
    then record st { optind = st.optind + 1; optpos = 0 }
    else record st { optpos = st.optpos + 1 }

-- The part of getopt from `if (d[1] != ':')` on.
unfoldable pub take_argument : List (List ℕ) → (optstring arg d : List ℕ) → ℕ → Scan → ℤ × Scan
take_argument argv optstring arg d c st =
    if not (byte_at d 1 == 58)
    then (pos c, st)
    else (if not (st.optpos == 0)
        then (
          pos c,
          record st { optarg = some (drop st.optpos arg); optind = st.optind + 1; optpos = 0 },
        )
        else (if byte_at d 2 == 58
            then (pos c, record st { optarg = none })
            else (if leb (length argv) st.optind
                then (
                  if byte_at optstring 0 == 58 then pos 58 else question,
                  record st { optarg = none; optopt = pos c },
                )
                else (
                  pos c,
                  record st { optarg = some (get_or argv st.optind []); optind = st.optind + 1 },
                ))))

-- The part from `int c = …` on. `none` is a read past the end of the word.
unfoldable pub scan_option : List (List ℕ) → (optstring arg : List ℕ) → Scan → Option (ℤ × Scan)
scan_option argv optstring arg st =
    let c = byte_at arg st.optpos in
    let next = next_place arg st in
    if c == 0 then none else elim (find_option c optstring) [
      | none ↦ some (question, record next { optopt = pos c })
      | some d ↦ some (take_argument argv optstring arg d c next)
    ]

-- `getopt(argc, argv, optstring)`.
unfoldable pub getopt : List (List ℕ) → List ℕ → Scan → Option (ℤ × Scan)
getopt argv optstring st =
    let start = restart st in
    let arg = get_or argv start.optind [] in
    if leb (length argv) start.optind
    then some (minus_one, start)
    else elim (enter_word optstring arg start) [
      | answer r end ↦ some (r, end)
      | inside place ↦ scan_option argv (past_sign optstring) arg place
    ]
