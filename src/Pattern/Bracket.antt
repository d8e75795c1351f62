-- ===== src/Pattern/Bracket.antt =====
-- src/fnmatch.c: one bracket expression. A string is the list of its bytes before the null byte, so that
-- `[]` is a read of the null byte.
use libcs.Prelude.{
  ℕ, zero, suc, Bool, true, false, not, ◌&&◌, ◌||◌, Option, none, some, List, [], ◌∷◌, leb, ◌==◌,
  if◌then◌else◌, length,
}
use libcs.Prelude.Text.{codes, eqb_list}
use libcs.Ctype.{
  isalnum, isalpha, isblank, iscntrl, isdigit, isgraph, islower, isprint, ispunct, isspace, isupper,
  isxdigit, tolower, toupper,
}

-- The bits of `flags`.
pub record Flags : Type 0 where
  pub noescape : Bool
  pub pathname : Bool
  pub period : Bool
  pub leading_dir : Bool
  pub casefold : Bool

-- `*p`.
abbrev pub byte : List ℕ → ℕ
byte [] = 0
byte (x ∷ p) = x

abbrev pub ends : List ℕ → Bool
ends [] = true
ends (x ∷ p) = false

unfoldable pub fold : Flags → ℕ → ℕ
fold flags c = if flags.casefold then tolower c else c

-- `cls`, and its search: `none` is -1.
unfoldable pub classes : List (List ℕ × (ℕ → Bool))
classes =
    (codes "alnum", isalnum)
    ∷ (codes "alpha", isalpha)
    ∷ (codes "blank", isblank)
    ∷ (codes "cntrl", iscntrl)
    ∷ (codes "digit", isdigit)
    ∷ (codes "graph", isgraph)
    ∷ (codes "lower", islower)
    ∷ (codes "print", isprint)
    ∷ (codes "punct", ispunct)
    ∷ (codes "space", isspace)
    ∷ (codes "upper", isupper)
    ∷ (codes "xdigit", isxdigit)
    ∷ []

unfoldable pub class_of : List (List ℕ × (ℕ → Bool)) → List ℕ → ℕ → Option Bool
class_of [] name c = none
class_of ((n, f) ∷ table) name c = if eqb_list n name then some (f c) else class_of table name c

unfoldable pub in_class : List ℕ → ℕ → Option Bool
unfolding classes class_of
in_class name c = class_of classes name c

-- `strstr(p, end)` for the two bytes `x` and ']': what stands before them and behind them.
unfoldable pub closing : ℕ → List ℕ → Option (List ℕ × List ℕ)
closing x [] = none
closing x (y ∷ []) = none
closing x (y ∷ z ∷ p) =
    if (y == x) && (z == b']')
    then some ([], p)
    else elim (closing x (z ∷ p)) [ none ↦ none | some (before, e) ↦ some (y ∷ before, e) ]

-- What a round of the loop finds: no closing ']', a malformed item, or an item and what follows it.
pub data Item : Type 0 where
  unclosed : Item
  malformed : Item
  item : Bool → List ℕ → Item

-- A collating symbol or an equivalence class, from `p + 2` on.
unfoldable pub collating : Flags → ℕ → ℕ → List ℕ → Item
collating flags c x p = elim (closing x p) [
  | none ↦ malformed
  | some ([], e) ↦ item false e
  | some (y ∷ [], e) ↦ item (fold flags y == fold flags c) e
  | some (y ∷ z ∷ before, e) ↦ item false e
]

-- A class, from `p + 2` on.
unfoldable pub class_item : Flags → ℕ → List ℕ → Item
class_item flags c p = elim (closing b':' p) [
  | none ↦ malformed
  | some (name, e) ↦ elim (in_class name c) [
    | none ↦ malformed
    | some true ↦ item true e
    | some false ↦ elim (flags.casefold && isalpha c) [
      | true ↦ elim (in_class name (if isupper c then tolower c else toupper c)) [
        | none ↦ item false e
        | some hit ↦ item hit e
      ]
      | false ↦ item false e
    ]
  ]
]

-- A byte, which a backslash may stand before, and what follows it.
unfoldable pub escaped : Flags → ℕ → List ℕ → ℕ × List ℕ
escaped flags x [] = (x, [])
escaped flags x (y ∷ p) = if (x == b'\\') && not flags.noescape then (y, p) else (x, y ∷ p)

-- `lo <= c && c <= hi` and its variants under FNM_CASEFOLD.
unfoldable pub in_range : Flags → ℕ → ℕ → ℕ → Bool
in_range flags c lo hi =
    (leb lo c && leb c hi)
    || (flags.casefold && leb (fold flags lo) (fold flags c) && leb (fold flags c) (fold flags hi))
    || (flags.casefold && leb lo (toupper c) && leb (toupper c) hi)

-- The byte `lo`, or a range from it.
unfoldable pub range_item : Flags → ℕ → ℕ → List ℕ → Item
range_item flags c lo [] = item (fold flags lo == fold flags c) []
range_item flags c lo (x ∷ []) = item (fold flags lo == fold flags c) (x ∷ [])
range_item flags c lo (x ∷ y ∷ p) =
    if (x == b'-') && not (y == b']')
    then (let (hi, rest) = escaped flags y p in item (in_range flags c lo hi) rest)
    else item (fold flags lo == fold flags c) (x ∷ y ∷ p)

-- `p[0]` and what follows it, when `p[0]` is not the closing ']'.
unfoldable pub bracket_item : Flags → ℕ → ℕ → List ℕ → Item
bracket_item flags c x [] = range_item flags c x []
bracket_item flags c x (y ∷ p) =
    if (x == b'[') && ((y == b'.') || (y == b'='))
    then collating flags c y p
    else (if (x == b'[') && (y == b':')
        then class_item flags c p
        else (let (lo, rest) = escaped flags x (y ∷ p) in range_item flags c lo rest))

-- The result of `bracket`: -1, -2, or a match or none with the place behind the ']'.
pub data Bracket : Type 0 where
  literal : Bracket
  never : Bracket
  closed : Bool → List ℕ → Bracket

-- The loop, with a round for each byte; `first` and `hit` are the variables of that name.
unfoldable pub bracket_loop : ℕ → Flags → ℕ → (neg first hit : Bool) → List ℕ → Bracket
bracket_loop zero flags c neg first hit p = literal
bracket_loop (suc rounds) flags c neg first hit [] = literal
bracket_loop (suc rounds) flags c neg first hit (x ∷ p) =
    let done = closed (if neg then not hit else hit) p in
    let next : Bracket = elim (bracket_item flags c x p) [
      | unclosed ↦ literal
      | malformed ↦ never
      | item h rest ↦ bracket_loop rounds flags c neg false (hit || h) rest
    ] in
    if not first && (x == b']') then done else next

-- `bracket(&p, c, flags)`.
unfoldable pub bracket : Flags → ℕ → List ℕ → Bracket
bracket flags c [] = literal
bracket flags c (x ∷ p) =
    if (x == b'!') || (x == b'^')
    then bracket_loop (suc (length p)) flags c true true false p
    else bracket_loop (suc (suc (length p))) flags c false true false (x ∷ p)
