-- ===== src/Pattern/Rounds.antt =====
-- src/fnmatch.c: a round of the loop, by the pattern's first element, where no byte is special.
use libcs.Prelude.{
  ℕ, ◌≡◌, ◌≢◌, arith, Bool, true, false, not, ◌&&◌, Option, none, some, List, [], ◌∷◌, ◌==◌,
  Bool-cases, inl, inr, ◌⊎◌, subst,
}
use libcs.Pattern.Bracket.{Flags}
use libcs.Pattern.Fnmatch.{
  Place, place, leading_dot, Round, return, continue, backtrack, skip_stars, match_literal,
  match_any, match_bracket, match_escape, hidden, round,
}
use libcs.Pattern.Meaning.{
  Element, any_number, one_byte, no_byte, element, SameElement, element-SameElement,
}
use libcs.Pattern.Parts.{IsPlain}

module _ (flags : Flags) (plain : IsPlain flags) where
  -- A round of the loop in terms of the pattern's first element.
  unfoldable pub follow : Option (List ℕ × Place) → Place → ℕ → List ℕ → Element → Round
  follow star s y t (any_number q) = continue (skip_stars q) s (some (skip_stars q, s))
  follow star s y t (one_byte true q) = continue q (place (some y) t) star
  follow star s y t (one_byte false q) = backtrack flags star
  follow star s y t no_byte = return false

  pub round-follow :
      (star : Option (List ℕ × Place)) (x : ℕ) (p : List ℕ) (before : Option ℕ) (y : ℕ) (t : List ℕ)
      → round flags star (x ∷ p) (place before (y ∷ t))
        ≡ follow star (place before (y ∷ t)) y t (element flags y x p)
  unfolding round follow element hidden leading_dot match_any match_bracket match_escape
      match_literal
  round-follow star x [] none y t = ground arith
  round-follow star x [] (some b) y t = ground arith
  round-follow star x (z ∷ p) none y t = ground arith
  round-follow star x (z ∷ p) (some b) y t = ground arith

  pub same_rest :
      (x : ℕ) (p q q' : List ℕ) (y z : ℕ)
      → element flags y x p ≡ one_byte true q
      → element flags z x p ≡ one_byte true q'
      → q' ≡ q
  same_rest x p q q' y z e e' =
      subst (λ k. SameElement (one_byte true q') k) e
        (subst (λ k. SameElement k (element flags y x p)) e' (element-SameElement flags z y x p))

  pub backtrack-plain :
      (q : List ℕ) (before : Option ℕ) (y : ℕ) (u : List ℕ)
      → backtrack flags (some (q, place before (y ∷ u)))
        ≡ continue q (place (some y) u) (some (q, place (some y) u))
  unfolding backtrack leading_dot
  backtrack-plain q none y u = ground arith
  backtrack-plain q (some b) y u = ground arith

  -- A star is the only element that is no byte.
  pub is_star :
      (x : ℕ) (p : List ℕ) (y : ℕ) (q : List ℕ)
      → element flags y x p ≡ any_number q
      → (x ≡ b'*') × (p ≡ q)
  unfolding element
  is_star x [] y q e = (ground arith, ground arith)
  is_star x (z ∷ p) y q e = (ground arith, ground arith)

  pub no_star :
      (x : ℕ) (p q : List ℕ) (y : ℕ) (hit : Bool) → element flags y x p ≡ one_byte hit q → x ≢ b'*'
  unfolding element
  no_star x p q y hit e = λ star. ground arith

  pub no_star_dead : (x : ℕ) (p : List ℕ) (y : ℕ) → element flags y x p ≡ no_byte → x ≢ b'*'
  unfolding element
  no_star_dead x p y e = λ star. ground arith

  -- A round at the end of the string.
  pub at_end :
      (star : Option (List ℕ × Place)) (x : ℕ) (p : List ℕ) (b : Option ℕ)
      → ((x ≡ b'*')
          × (round flags star (x ∷ p) (place b [])
              ≡ continue (skip_stars p) (place b []) (some (skip_stars p, place b []))))
        ⊎ (((x ≢ b'*') × (round flags star (x ∷ p) (place b []) ≡ backtrack flags star))
            ⊎ ((x ≢ b'*')
                × (round flags star (x ∷ p) (place b []) ≡ return false)
                × ((y : ℕ) → element flags y x p ≡ no_byte)))
  unfolding round element hidden leading_dot match_any match_bracket match_escape match_literal
  at_end star x [] none = elim (Bool-cases (x == b'*')) [
    | inl star ↦ inl (ground arith, ground arith)
    | inr other ↦ elim (Bool-cases ((x == b'\\') && not flags.noescape)) [
      | inl lone ↦ inr (inr (λ star. ground arith, ground arith, λ y. ground arith))
      | inr more ↦ inr (inl (λ star. ground arith, ground arith))
    ]
  ]
  at_end star x [] (some c) = elim (Bool-cases (x == b'*')) [
    | inl star ↦ inl (ground arith, ground arith)
    | inr other ↦ elim (Bool-cases ((x == b'\\') && not flags.noescape)) [
      | inl lone ↦ inr (inr (λ star. ground arith, ground arith, λ y. ground arith))
      | inr more ↦ inr (inl (λ star. ground arith, ground arith))
    ]
  ]
  at_end star x (z ∷ p) none = elim (Bool-cases (x == b'*')) [
    | inl star ↦ inl (ground arith, ground arith)
    | inr other ↦ inr (inl (λ star. ground arith, ground arith))
  ]
  at_end star x (z ∷ p) (some c) = elim (Bool-cases (x == b'*')) [
    | inl star ↦ inl (ground arith, ground arith)
    | inr other ↦ inr (inl (λ star. ground arith, ground arith))
  ]
