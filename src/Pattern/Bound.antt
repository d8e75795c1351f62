-- ===== src/Pattern/Bound.antt =====
-- src/fnmatch.c: the matching loop ends. `star_s` never goes back, and between two moves of it the pattern
-- grows shorter.
use libcs.Prelude.{
  ℕ, zero, suc, ◌+◌, ◌*◌, ◌≤◌, ◌<◌, ◌≡◌, arith, Bool, true, false, Option, none, some, List, [],
  ◌∷◌, length, if◌then◌else◌, refl, ◌==◌, ◌&&◌, ◌||◌,
}
use libcs.Pattern.Bracket.{Flags, byte, ends, Bracket, bracket, literal, never, closed}
use libcs.Pattern.Length.{Leaves, bracket-Leaves}
use libcs.Pattern.Fnmatch.{
  Place, place, rest_of, Round, return, continue, backtrack, skip_stars, match_literal, match_any,
  match_bracket, match_escape, round, run, fnmatch,
}

-- How often `star_s` can still move, for a string of `l` bytes.
abbrev moves : ℕ → Option (List ℕ × Place) → ℕ
moves l none = l + 1
moves l (some (star_p, place before s)) = length s

abbrev Fits : ℕ → ℕ → Option (List ℕ × Place) → ℕ → Type 0
Fits m l none n = n ≤ l
Fits m l (some (star_p, place before s)) n = (length star_p ≤ m) × (n ≤ length s) × (length s ≤ l)

-- A round from a pattern of `k` bytes under the same star goes on below it, or moves the star.
abbrev Falls : ℕ → ℕ → Option (List ℕ × Place) → ℕ → Round → Type 0
Falls m l star k (return b) = Unit {0}
Falls m l star k (continue p s star') =
    Fits m l star' (length (rest_of s))
    × (length p ≤ m)
    × (moves l star' * suc m + length p < moves l star * suc m + k)

move-lt : (m a b p k : ℕ) → a < b → p ≤ m → a * suc m + p < b * suc m + k
move-lt m a b p k h l = grind arith

stay-lt : (m a b p k : ℕ) → a ≤ b → p < k → a * suc m + p < b * suc m + k
stay-lt m a b p k h l = grind arith

backtrack-Falls :
    (flags : Flags) (m l k n : ℕ) (star : Option (List ℕ × Place))
    → Fits m l star n
    → Falls m l star k (backtrack flags star)
unfolding backtrack
backtrack-Falls flags m l k n none h = tt
backtrack-Falls flags m l k n (some (star_p, place before [])) h = tt
backtrack-Falls flags m l k n (some (star_p, place before (y ∷ s))) h =
    ground (arith, move-lt m (length s) (length (y ∷ s)) (length star_p) k (omega arith) h.0)

forward-Falls :
    (flags : Flags) (m l k : ℕ) (star : Option (List ℕ × Place)) (p s : List ℕ) (y : ℕ)
    → Fits m l star (suc (length s))
    → length p < k
    → k ≤ m
    → Falls m l star k (continue p (place (some y) s) star)
forward-Falls flags m l k none p s y h less le =
    ground (arith, stay-lt m (l + 1) (l + 1) (length p) k)
forward-Falls flags m l k (some (star_p, place before t)) p s y h less le =
    ground (arith, stay-lt m (length t) (length t) (length p) k)

match_literal-Falls :
    (flags : Flags) (m l k : ℕ) (star : Option (List ℕ × Place)) (x : ℕ) (p : List ℕ) (s : Place)
    → Fits m l star (length (rest_of s))
    → length p < k
    → k ≤ m
    → Falls m l star k (match_literal flags star x p s)
unfolding match_literal
match_literal-Falls flags m l k star x p (place before []) h less le =
    backtrack-Falls flags m l k 0 star h
match_literal-Falls flags m l k star x p (place before (y ∷ s)) h less le = ground (
  arith,
  backtrack-Falls flags m l k (suc (length s)) star h,
  forward-Falls flags m l k star p s y h less le,
)

module _ (flags : Flags) (m l k : ℕ) (star : Option (List ℕ × Place)) where
  Falls-if :
      (t : Bool) (a b : Round)
      → Falls m l star k a
      → Falls m l star k b
      → Falls m l star k (if t then a else b)
  Falls-if true a b h h' = h
  Falls-if false a b h h' = h'

  match_any-Falls :
      (p : List ℕ) (s : Place)
      → Fits m l star (length (rest_of s))
      → length p < k
      → k ≤ m
      → Falls m l star k (match_any flags star p s)
  unfolding match_any
  match_any-Falls p (place before []) h less le = backtrack-Falls flags m l k 0 star h
  match_any-Falls p (place before (y ∷ s)) h less le =
      Falls-if (flags.pathname && (y == b'/')) _ _
        (backtrack-Falls flags m l k (suc (length s)) star h)
        (forward-Falls flags m l k star p s y h less le)

  match_bracket-Falls :
      (p : List ℕ) (s : Place)
      → Fits m l star (length (rest_of s))
      → length p < k
      → k ≤ m
      → Falls m l star k (match_bracket flags star p s)
  unfolding match_bracket
  match_bracket-Falls p (place before []) h less le = backtrack-Falls flags m l k 0 star h
  match_bracket-Falls p (place before (y ∷ s)) h less le =
      Falls-if (flags.pathname && (y == b'/')) _ _
        (backtrack-Falls flags m l k (suc (length s)) star h)
        (after (bracket flags y p) (bracket-Leaves flags y p))
    where
      after :
          (r : Bracket)
          → Leaves (length p) r
          → Falls m l star k (elim r as (λ r. Round) [
            | literal ↦ match_literal flags star b'[' p (place before (y ∷ s))
            | never ↦ return false
            | closed true q ↦ continue q (place (some y) s) star
            | closed false q ↦ backtrack flags star
          ])
      after literal g = match_literal-Falls flags m l k star b'[' p (place before (y ∷ s)) h less le
      after never g = tt
      after (closed true q) g = forward-Falls flags m l k star q s y h (omega arith) le
      after (closed false q) g = backtrack-Falls flags m l k (suc (length s)) star h

  match_escape-Falls :
      (p : List ℕ) (s : Place)
      → Fits m l star (length (rest_of s))
      → length p < k
      → k ≤ m
      → Falls m l star k (match_escape flags star p s)
  unfolding match_escape
  match_escape-Falls [] s h less le =
      Falls-if flags.noescape _ _ (match_literal-Falls flags m l k star b'\\' [] s h less le) tt
  match_escape-Falls (x ∷ p) s h less le =
      Falls-if flags.noescape _ _ (match_literal-Falls flags m l k star b'\\' (x ∷ p) s h less le)
        (match_literal-Falls flags m l k star x p s h (omega arith) le)

skip_stars-le : (p : List ℕ) → length (skip_stars p) ≤ length p
unfolding skip_stars
skip_stars-le [] = omega arith
skip_stars-le (x ∷ p) = ground (arith, skip_stars-le p)

star-Falls :
    (flags : Flags) (m l : ℕ) (star : Option (List ℕ × Place)) (p : List ℕ) (s : Place)
    → Fits m l star (length (rest_of s))
    → suc (length p) ≤ m
    → Falls m l star (suc (length p)) (continue (skip_stars p) s (some (skip_stars p, s)))
star-Falls flags m l none p (place before s) h le =
    ground (
      arith,
      skip_stars-le p,
      move-lt m (length s) (l + 1) (length (skip_stars p)) (suc (length p)),
    )
star-Falls flags m l (some (q, place b t)) p (place before s) h le = ground (
  arith,
  skip_stars-le p,
  stay-lt m (length s) (length t) (length (skip_stars p)) (suc (length p)),
)

-- Every round goes on below, or returns.
round-Falls :
    (flags : Flags) (m l : ℕ) (star : Option (List ℕ × Place)) (p : List ℕ) (s : Place)
    → Fits m l star (length (rest_of s))
    → length p ≤ m
    → Falls m l star (length p) (round flags star p s)
unfolding round
round-Falls flags m l star [] s h le =
    Falls-if flags m l 0 star
      (ends (rest_of s) || (flags.leading_dir && (byte (rest_of s) == b'/'))) (return true) _ tt
      (backtrack-Falls flags m l 0 (length (rest_of s)) star h)
round-Falls flags m l star (x ∷ p) s h le =
    let k = suc (length p) in
    let less : length p < suc (length p) = omega arith in
    Falls-if flags m l k star _ _ _ (backtrack-Falls flags m l k (length (rest_of s)) star h) (
      Falls-if flags m l k star (x == b'*') _ _ (star-Falls flags m l star p s h le) (
        Falls-if flags m l k star (x == b'?') _ _ (match_any-Falls flags m l k star p s h less le) (
          Falls-if flags m l k star (x == b'[') _ _
            (match_bracket-Falls flags m l k star p s h less le)
            (Falls-if flags m l k star (x == b'\\') _ _
              (match_escape-Falls flags m l k star p s h less le)
              (match_literal-Falls flags m l k star x p s h less le)))))

run_ends :
    (fuel : ℕ) (flags : Flags) (m l k : ℕ) (star : Option (List ℕ × Place)) (r : Round)
    → Falls m l star k r
    → moves l star * suc m + k ≤ fuel
    → (b : Bool) × (run fuel flags r ≡ some b)
unfolding run
run_ends zero flags m l k star (return b) f h = (b, refl)
run_ends (suc fuel) flags m l k star (return b) f h = (b, refl)
run_ends zero flags m l k star (continue p s star') f h = absurd (omega arith)
run_ends (suc fuel) flags m l k star (continue p s star') f h =
    run_ends fuel flags m l (length p) star' (round flags star' p s)
      (round-Falls flags m l star' p s f.0 f.1) (omega arith)

-- `fnmatch` returns within (length of the pattern + 1) * (length of the string + 2) + 1 rounds of its loop,
-- whatever the pattern, the string and the flags.
pub fnmatch_ends :
    (pat str : List ℕ) (flags : Flags) (fuel : ℕ)
    → (length pat + 1) * (length str + 2) < fuel
    → (b : Bool) × (fnmatch fuel pat str flags ≡ some b)
unfolding fnmatch
fnmatch_ends pat str flags fuel h =
    run_ends fuel flags (length pat) (length str) (length pat + 1) none
      (continue pat (place none str) none)
      (ground (
        arith,
        stay-lt (length pat) (length str + 1) (length str + 1) (length pat) (length pat + 1),
      ))
      (grind arith)
