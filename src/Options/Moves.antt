-- ===== src/Options/Moves.antt =====
-- src/getopt.c: a call of getopt_long puts the option that it reads before the operands.
use libcs.Prelude.{
  ℕ, ◌<◌, ◌≡◌, ◌⊎◌, Bool, true, false, not, ◌&&◌, Option, none, some, List, ◌∷◌, ◌==◌, length, take,
  drop,
}
use libcs.Options.{Scan, byte_at, minus_one}
use libcs.Options.Long.{LongResult, bare, is_option}
use libcs.Options.Order.{Words}
use libcs.Options.Moved.{AllOperands, IsMoved}

-- Operands are passed over between words, unless the option string begins with `+` or `-` or POSIXLY_CORRECT is set.
abbrev pub passes_over : Bool → List ℕ → Scan → Bool
passes_over posixly_correct optstring start =
    (start.optpos == 0)
    && (not (byte_at optstring 0 == 43) && (not (byte_at optstring 0 == 45) && not posixly_correct))

abbrev pub Ordered :
    (posixly_correct : Bool)
    → List ℕ
    → (start : Scan) → (core : ℕ → Option LongResult) → Words
    → Option (LongResult × Words)
    → Type 0
Ordered posixly_correct optstring start core argv none = ⊥
Ordered posixly_correct optstring start core argv (some (r, argv')) =
    (AllOperands (drop start.optind argv) × (r ≡ bare (minus_one, start)) × (argv' ≡ argv))
    ⊎ (((passes_over posixly_correct optstring start ≡ false)
          × (core start.optind ≡ some r)
          × (argv' ≡ argv))
        ⊎ ((passes_over posixly_correct optstring start ≡ true)
            × IsMoved core start.optind argv argv' r))

abbrev FoundAt : Words → Option ℕ → Type 0
FoundAt ws none = AllOperands ws
FoundAt ws (some n) =
    AllOperands (take n ws)
    × (n < length ws)
    × ((word : List ℕ) × (rest : Words) × (drop n ws ≡ word ∷ rest) × (is_option word ≡ true))
