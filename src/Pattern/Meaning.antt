-- ===== src/Pattern/Meaning.antt =====
-- src/fnmatch.c: what a pattern means, without the loop. An element of a pattern matches one byte or, if it
-- is a star, any number of them.
use libcs.Prelude.{
  ℕ, zero, suc, ◌≡◌, refl, arith, Bool, true, false, not, ◌&&◌, ◌||◌, none, List, [], ◌∷◌, ◌==◌,
  if◌then◌else◌, Option-cases, inl, inr, subst, length,
}
use libcs.Pattern.Bracket.{
  Flags, fold, classes, class_of, in_class, closing, Item, unclosed, malformed, item, collating,
  class_item, escaped, range_item, bracket_item, Bracket, literal, never, closed, bracket_loop,
  bracket,
}

-- The first element of a pattern at the byte `y`, with what follows it.
pub data Element : Type 0 where
  any_number : List ℕ → Element
  one_byte : Bool → List ℕ → Element
  no_byte : Element

unfoldable pub element : Flags → ℕ → ℕ → List ℕ → Element
element flags y x p =
    if x == b'*'
    then any_number p
    else (if x == b'?'
        then one_byte true p
        else (if x == b'['
            then elim (bracket flags y p) [
              | literal ↦ one_byte (fold flags b'[' == fold flags y) p
              | never ↦ no_byte
              | closed hit q ↦ one_byte hit q
            ]
            else (if (x == b'\\') && not flags.noescape
                then elim p [ [] ↦ no_byte | z ∷ q ↦ one_byte (fold flags z == fold flags y) q ]
                else one_byte (fold flags x == fold flags y) p)))

pub data Suffix (t : List ℕ) : List ℕ → Type 0 where
  whole : (s : List ℕ) → t ≡ s → Suffix t s
  beyond : (y : ℕ) (s : List ℕ) → Suffix t s → Suffix t (y ∷ s)

-- The pattern matches the whole string, where no byte of it is special.
pub data Matches (flags : Flags) : List ℕ → List ℕ → Type 0 where
  done : Matches flags [] []
  spread :
      (x : ℕ) (p t s : List ℕ) → x ≡ b'*' → Suffix t s → Matches flags p t → Matches flags (x ∷ p) s
  consume :
      (x : ℕ) (p q s : List ℕ) (y : ℕ)
      → element flags y x p ≡ one_byte true q
      → Matches flags q s
      → Matches flags (x ∷ p) (y ∷ s)

-- The byte decides whether an element matches, and not how long the element is.
abbrev SameItem : Item → Item → Type 0
SameItem unclosed unclosed = Unit {0}
SameItem malformed malformed = Unit {0}
SameItem (item h e) (item h' e') = e ≡ e'
SameItem _ _ = ⊥

abbrev SameBracket : Bracket → Bracket → Type 0
SameBracket literal literal = Unit {0}
SameBracket never never = Unit {0}
SameBracket (closed h e) (closed h' e') = e ≡ e'
SameBracket _ _ = ⊥

abbrev pub SameElement : Element → Element → Type 0
SameElement (any_number q) (any_number q') = q ≡ q'
SameElement (one_byte h q) (one_byte h' q') = q ≡ q'
SameElement no_byte no_byte = Unit {0}
SameElement _ _ = ⊥

module _ (flags : Flags) (c c' : ℕ) where
  collating-SameItem :
      (x : ℕ) (p : List ℕ) → SameItem (collating flags c x p) (collating flags c' x p)
  unfolding collating
  collating-SameItem x p = ground arith

  range_item-SameItem :
      (lo : ℕ) (p : List ℕ) → SameItem (range_item flags c lo p) (range_item flags c' lo p)
  unfolding range_item
  range_item-SameItem lo [] = refl
  range_item-SameItem lo (x ∷ []) = refl
  range_item-SameItem lo (x ∷ y ∷ p) = ground arith

class_of-none :
    (c c' : ℕ) (table : List (List ℕ × (ℕ → Bool))) (name : List ℕ)
    → class_of table name c ≡ none
    → class_of table name c' ≡ none
unfolding class_of
class_of-none c c' [] name h = refl
class_of-none c c' ((n, f) ∷ table) name h = ground (arith, class_of-none c c' table name)

in_class-none : (c c' : ℕ) (name : List ℕ) → in_class name c ≡ none → in_class name c' ≡ none
unfolding in_class
in_class-none c c' name h = class_of-none c c' classes name h

module _ (flags : Flags) (c c' : ℕ) where
  class_item-SameItem : (p : List ℕ) → SameItem (class_item flags c p) (class_item flags c' p)
  unfolding class_item
  class_item-SameItem p = elim (Option-cases (closing b':' p)) [
    | inl unended ↦ ground arith
    | inr ((name, e), shut) ↦ elim (Option-cases (in_class name c)) [
      | inl h ↦ ground (arith, in_class-none c c' name h)
      | inr (b, h) ↦ elim (Option-cases (in_class name c')) [
        | inl h' ↦ absurd (cc (in_class-none c' c name h'))
        | inr (b', h') ↦ ground arith
      ]
    ]
  ]

  bracket_item-SameItem :
      (x : ℕ) (p : List ℕ) → SameItem (bracket_item flags c x p) (bracket_item flags c' x p)
  unfolding bracket_item
  bracket_item-SameItem x [] = range_item-SameItem flags c c' x []
  bracket_item-SameItem x (y ∷ p) = ground (
    arith,
    collating-SameItem flags c c' y p,
    class_item-SameItem p,
    range_item-SameItem flags c c' (escaped flags x (y ∷ p)).0 (escaped flags x (y ∷ p)).1,
  )

  after_item :
      (i j : Item) (next next' : Bool → List ℕ → Bracket) (t : Bool) (p : List ℕ) (b b' : Bool)
      → SameItem i j
      → ((h h' : Bool) (e : List ℕ) → SameBracket (next h e) (next' h' e))
      → SameBracket
          (if t then closed b p else (elim i as (λ r. Bracket) [
            | unclosed ↦ literal
            | malformed ↦ never
            | item h e ↦ next h e
          ]))
          (if t then closed b' p else (elim j as (λ r. Bracket) [
            | unclosed ↦ literal
            | malformed ↦ never
            | item h e ↦ next' h e
          ]))
  after_item i j next next' true p b b' same rest = refl
  after_item unclosed unclosed next next' false p b b' same rest = tt
  after_item unclosed malformed next next' false p b b' same rest = absurd same
  after_item unclosed (item h' e') next next' false p b b' same rest = absurd same
  after_item malformed unclosed next next' false p b b' same rest = absurd same
  after_item malformed malformed next next' false p b b' same rest = tt
  after_item malformed (item h' e') next next' false p b b' same rest = absurd same
  after_item (item h e) unclosed next next' false p b b' same rest = absurd same
  after_item (item h e) malformed next next' false p b b' same rest = absurd same
  after_item (item h e) (item h' e') next next' false p b b' same rest =
      subst (λ q. SameBracket (next h e) (next' h' q)) same (rest h h' e)

  bracket_loop-SameBracket :
      (rounds : ℕ) (neg first hit hit' : Bool) (p : List ℕ)
      → SameBracket
          (bracket_loop rounds flags c neg first hit p)
          (bracket_loop rounds flags c' neg first hit' p)
  unfolding bracket_loop
  bracket_loop-SameBracket zero neg first hit hit' p = tt
  bracket_loop-SameBracket (suc rounds) neg first hit hit' [] = tt
  bracket_loop-SameBracket (suc rounds) neg first hit hit' (x ∷ p) =
      after_item (bracket_item flags c x p) (bracket_item flags c' x p)
        (λ h e. bracket_loop rounds flags c neg false (hit || h) e)
        (λ h e. bracket_loop rounds flags c' neg false (hit' || h) e) (not first && (x == b']')) p
        (if neg then not hit else hit) (if neg then not hit' else hit') (bracket_item-SameItem x p)
        (λ h h' e. bracket_loop-SameBracket rounds neg false (hit || h) (hit' || h') e)

  bracket-SameBracket : (p : List ℕ) → SameBracket (bracket flags c p) (bracket flags c' p)
  unfolding bracket
  bracket-SameBracket [] = tt
  bracket-SameBracket (x ∷ p) = ground (
    arith,
    bracket_loop-SameBracket (suc (length p)) true true false false p,
    bracket_loop-SameBracket (suc (suc (length p))) false true false false (x ∷ p),
  )

  pub element-SameElement :
      (x : ℕ) (p : List ℕ) → SameElement (element flags c x p) (element flags c' x p)
  unfolding element
  element-SameElement x [] = ground (arith, bracket-SameBracket [])
  element-SameElement x (z ∷ p) = ground (arith, bracket-SameBracket (z ∷ p))
