-- ===== src/Pattern/Length.antt =====
-- src/fnmatch.c: a bracket expression uses up its part of the pattern.
use libcs.Prelude.{
  ℕ, zero, suc, ◌≤◌, arith, Bool, true, false, Option, none, some, List, [], ◌∷◌, length,
  if◌then◌else◌, ◌==◌, ◌&&◌, ◌||◌, not,
}
use libcs.Pattern.Bracket.{
  Flags, closing, Item, unclosed, malformed, item, collating, class_item, escaped, range_item,
  bracket_item, Bracket, literal, never, closed, bracket_loop, bracket,
}

-- What an item or an expression leaves of the pattern is at most `n` bytes.
abbrev pub LeavesItem : ℕ → Item → Type 0
LeavesItem n unclosed = Unit {0}
LeavesItem n malformed = Unit {0}
LeavesItem n (item h p) = length p ≤ n

abbrev pub Leaves : ℕ → Bracket → Type 0
Leaves n literal = Unit {0}
Leaves n never = Unit {0}
Leaves n (closed h p) = length p ≤ n

abbrev LeavesRest : ℕ → Option (List ℕ × List ℕ) → Type 0
LeavesRest n none = Unit {0}
LeavesRest n (some (before, e)) = length e ≤ n

closing-LeavesRest : (x : ℕ) (p : List ℕ) → LeavesRest (length p) (closing x p)
unfolding closing
closing-LeavesRest x [] = tt
closing-LeavesRest x (y ∷ []) = tt
closing-LeavesRest x (y ∷ z ∷ p) = ground (arith, closing-LeavesRest x (z ∷ p))

collating-Leaves :
    (flags : Flags) (c x : ℕ) (p : List ℕ) → LeavesItem (length p) (collating flags c x p)
unfolding collating
collating-Leaves flags c x p = ground (arith, closing-LeavesRest x p)

class_item-Leaves :
    (flags : Flags) (c : ℕ) (p : List ℕ) → LeavesItem (length p) (class_item flags c p)
unfolding class_item
class_item-Leaves flags c p = ground (arith, closing-LeavesRest b':' p)

escaped-le : (flags : Flags) (x : ℕ) (p : List ℕ) → length (escaped flags x p).1 ≤ length p
unfolding escaped
escaped-le flags x [] = omega arith
escaped-le flags x (y ∷ p) = ground arith

range_item-Leaves :
    (flags : Flags) (c lo : ℕ) (p : List ℕ) → LeavesItem (length p) (range_item flags c lo p)
unfolding range_item
range_item-Leaves flags c lo [] = omega arith
range_item-Leaves flags c lo (x ∷ []) = omega arith
range_item-Leaves flags c lo (x ∷ y ∷ p) = ground (arith, escaped-le flags y p)

bracket_item-Leaves :
    (flags : Flags) (c x : ℕ) (p : List ℕ) → LeavesItem (length p) (bracket_item flags c x p)
unfolding bracket_item
bracket_item-Leaves flags c x [] = range_item-Leaves flags c x []
bracket_item-Leaves flags c x (y ∷ p) = ground (
  arith,
  collating-Leaves flags c y p,
  class_item-Leaves flags c p,
  range_item-Leaves flags c (escaped flags x (y ∷ p)).0 (escaped flags x (y ∷ p)).1,
  escaped-le flags x (y ∷ p),
)

bracket_loop-Leaves :
    (rounds : ℕ) (flags : Flags) (c : ℕ) (neg first hit : Bool) (p : List ℕ)
    → Leaves (length p) (bracket_loop rounds flags c neg first hit p)
unfolding bracket_loop
bracket_loop-Leaves zero flags c neg first hit p = tt
bracket_loop-Leaves (suc rounds) flags c neg first hit [] = tt
bracket_loop-Leaves (suc rounds) flags c neg first hit (x ∷ p) =
    after (bracket_item flags c x p) (bracket_item-Leaves flags c x p)
      (λ h e. bracket_loop-Leaves rounds flags c neg false (hit || h) e)
  where
    after :
        (i : Item)
        → LeavesItem (length p) i
        → ((h : Bool) (e : List ℕ)
            → Leaves (length e) (bracket_loop rounds flags c neg false (hit || h) e))
        → Leaves (suc (length p)) (
            if not first && (x == b']')
            then closed (if neg then not hit else hit) p
            else (elim i as (λ x'. Bracket) [
              | unclosed ↦ literal
              | malformed ↦ never
              | item h rest ↦ bracket_loop rounds flags c neg false (hit || h) rest
            ]))
    after unclosed l rest = ground arith
    after malformed l rest = ground arith
    after (item h e) l rest = ground (arith, rest h e)

pub bracket-Leaves : (flags : Flags) (c : ℕ) (p : List ℕ) → Leaves (length p) (bracket flags c p)
unfolding bracket
bracket-Leaves flags c [] = tt
bracket-Leaves flags c (x ∷ p) = ground (
  arith,
  bracket_loop-Leaves (suc (length p)) flags c true true false p,
  bracket_loop-Leaves (suc (suc (length p))) flags c false true false (x ∷ p),
)
