-- ===== src/Pattern/Fnmatch.antt =====
-- src/fnmatch.c: the matching loop. A place in the string carries the byte before it, which the code reads
-- at `x[-1]`; `none` is the start of the string.
use libcs.Prelude.{
  ℕ, zero, suc, Bool, true, false, not, ◌&&◌, ◌||◌, Option, none, some, List, [], ◌∷◌, ◌==◌,
  if◌then◌else◌,
}
use libcs.Pattern.Bracket.{Flags, byte, ends, fold, bracket, literal, never, closed}

pub data Place : Type 0 where
  place : Option ℕ → List ℕ → Place

abbrev pub rest_of : Place → List ℕ
rest_of (place before s) = s

-- `LEADING_DOT(x)`.
unfoldable pub leading_dot : Flags → Place → Bool
leading_dot flags (place none s) = flags.period && (byte s == b'.')
leading_dot flags (place (some y) s) =
    flags.period && (byte s == b'.') && flags.pathname && (y == b'/')

-- What a round of the loop does: `return`, or go on at `p` and `s` with `star_p` and `star_s`.
pub data Round : Type 0 where
  return : Bool → Round
  continue : List ℕ → Place → Option (List ℕ × Place) → Round

-- `backtrack:`.
unfoldable pub backtrack : Flags → Option (List ℕ × Place) → Round
backtrack flags none = return false
backtrack flags (some (star_p, place before [])) = return false
backtrack flags (some (star_p, place before (y ∷ s))) =
    if (flags.pathname && (y == b'/')) || leading_dot flags (place before (y ∷ s))
    then return false
    else continue star_p (place (some y) s) (some (star_p, place (some y) s))

-- `while (*p == '*') p++`.
unfoldable pub skip_stars : List ℕ → List ℕ
skip_stars [] = []
skip_stars (x ∷ p) = let rest = skip_stars p in if x == b'*' then rest else x ∷ p

module _ (flags : Flags) (star : Option (List ℕ × Place)) where
  -- `literal:` at the byte `x` of the pattern.
  unfoldable pub match_literal : ℕ → List ℕ → Place → Round
  match_literal x p (place before []) = backtrack flags star
  match_literal x p (place before (y ∷ s)) =
      if fold flags x == fold flags y
      then continue p (place (some y) s) star
      else backtrack flags star

  -- `case '?'`.
  unfoldable pub match_any : List ℕ → Place → Round
  match_any p (place before []) = backtrack flags star
  match_any p (place before (y ∷ s)) =
      if flags.pathname && (y == b'/')
      then backtrack flags star
      else continue p (place (some y) s) star

  -- `case '['`.
  unfoldable pub match_bracket : List ℕ → Place → Round
  match_bracket p (place before []) = backtrack flags star
  match_bracket p (place before (y ∷ s)) =
      if flags.pathname && (y == b'/') then backtrack flags star else elim (bracket flags y p) [
        | literal ↦ match_literal b'[' p (place before (y ∷ s))
        | never ↦ return false
        | closed true q ↦ continue q (place (some y) s) star
        | closed false q ↦ backtrack flags star
      ]

  -- `case '\\'`.
  unfoldable pub match_escape : List ℕ → Place → Round
  match_escape [] s = if flags.noescape then match_literal b'\\' [] s else return false
  match_escape (x ∷ p) s =
      if flags.noescape then match_literal b'\\' (x ∷ p) s else match_literal x p s

  -- The test for a dot that only a dot of the pattern matches.
  unfoldable pub hidden : List ℕ → Place → Bool
  hidden [] s = false
  hidden (x ∷ p) s =
      leading_dot flags s
      && not (x == b'.')
      && not ((x == b'\\') && not flags.noescape && (byte p == b'.'))

  -- A round of the loop.
  unfoldable pub round : List ℕ → Place → Round
  round [] s =
      if ends (rest_of s) || (flags.leading_dir && (byte (rest_of s) == b'/'))
      then return true
      else backtrack flags star
  round (x ∷ p) s =
      if hidden (x ∷ p) s
      then backtrack flags star
      else (if x == b'*'
          then continue (skip_stars p) s (some (skip_stars p, s))
          else (if x == b'?'
              then match_any p s
              else (if x == b'['
                  then match_bracket p s
                  else (if x == b'\\' then match_escape p s else match_literal x p s))))

-- The loop for at most `fuel` rounds; `none` means that it has not returned by then.
unfoldable pub run : ℕ → Flags → Round → Option Bool
run zero flags (return b) = some b
run zero flags (continue p s star) = none
run (suc fuel) flags (return b) = some b
run (suc fuel) flags (continue p s star) = run fuel flags (round flags star p s)

-- `fnmatch(pat, str, flags)`, `true` for 0 and `false` for FNM_NOMATCH.
unfoldable pub fnmatch : ℕ → List ℕ → List ℕ → Flags → Option Bool
fnmatch fuel pat str flags = run fuel flags (continue pat (place none str) none)
