-- ===== src/Pattern/Parts.antt =====
-- src/fnmatch.c: suffixes of a string, and the meaning of stars.
use libcs.Prelude.{
  ℕ, ◌≡◌, ◌≢◌, refl, arith, true, false, List, [], ◌∷◌, ◌==◌, Bool-cases, inl, inr, ◌⊎◌, subst,
}
use libcs.Pattern.Bracket.{Flags}
use libcs.Pattern.Fnmatch.{skip_stars}
use libcs.Pattern.Meaning.{one_byte, element, Suffix, whole, beyond, Matches, spread, consume}

-- Slashes and leading dots are bytes like others.
abbrev pub IsPlain : Flags → Type 0
IsPlain flags = (flags.pathname ≡ false) × (flags.period ≡ false) × (flags.leading_dir ≡ false)

abbrev pub Proper : List ℕ → List ℕ → Type 0
Proper t [] = ⊥
Proper t (y ∷ s) = Suffix t s

pub Suffix-cases : {t s : List ℕ} → Suffix t s → (t ≡ s) ⊎ Proper t s
Suffix-cases (whole s e) = inl e
Suffix-cases (beyond y s h) = inr h

pub Suffix-tail : (z : ℕ) (t s : List ℕ) → Suffix (z ∷ t) s → Proper t s
Suffix-tail z t [] (whole _ e) = absurd (cc)
Suffix-tail z t (y ∷ s) (whole _ e) = whole s (cc)
Suffix-tail z t (y ∷ s) (beyond _ _ h) = widen (Suffix-tail z t s h)
  where
    widen : Proper t s → Suffix t s
    widen p = widen_cases s p
      where
        widen_cases : (s : List ℕ) → Proper t s → Suffix t s
        widen_cases [] p = absurd p
        widen_cases (y ∷ s) p = beyond y s p

pub Suffix-trans : (t u s : List ℕ) → Suffix t u → Suffix u s → Suffix t s
Suffix-trans t u s h (whole _ e) = subst (Suffix t) e h
Suffix-trans t u (y ∷ s) h (beyond _ _ k) = beyond y s (Suffix-trans t u s h k)

pub Proper-Suffix : (t u s : List ℕ) → Suffix t u → Proper u s → Proper t s
Proper-Suffix t u [] h p = p
Proper-Suffix t u (y ∷ s) h p = Suffix-trans t u s h p

module _ (flags : Flags) where
  -- What a star and those behind it stand for.
  pub stars_join :
      (p t s : List ℕ) → Matches flags (skip_stars p) t → Suffix t s → Matches flags (b'*' ∷ p) s
  unfolding skip_stars
  stars_join [] t s m h = spread b'*' [] t s refl h m
  stars_join (x ∷ p) t s m h = elim (Bool-cases (x == b'*')) [
    | inl star ↦ spread b'*' (x ∷ p) s s refl (whole s refl) (
        subst (λ c. Matches flags (c ∷ p) s) (ground arith)
          (stars_join p t s (subst (λ q. Matches flags q t) (ground arith) m) h))
    | inr other ↦ spread b'*' (x ∷ p) t s refl h (subst (λ q. Matches flags q t) (ground arith) m)
  ]

  -- How a pattern that begins with a star, or with another element, matches.
  Matches-star :
      (x : ℕ) (p s : List ℕ)
      → x ≡ b'*'
      → Matches flags (x ∷ p) s
      → (t : List ℕ) × Suffix t s × Matches flags p t
  unfolding element
  Matches-star x p s star (spread _ _ t _ e h m) = (t, h, m)
  Matches-star x p _ star (consume _ _ q s y e m) = absurd (ground arith)

  pub Matches-byte :
      (x : ℕ) (p s : List ℕ)
      → x ≢ b'*'
      → Matches flags (x ∷ p) s
      → (y : ℕ) × (t q : List ℕ) × (s ≡ y ∷ t)
        × (element flags y x p ≡ one_byte true q)
        × Matches flags q t
  Matches-byte x p s other (spread _ _ t _ e h m) = absurd (other e)
  Matches-byte x p _ other (consume _ _ q s y e m) = (y, s, q, refl, e, m)

  pub stars_part :
      (p s : List ℕ)
      → Matches flags (b'*' ∷ p) s
      → (t : List ℕ) × Suffix t s × Matches flags (skip_stars p) t
  unfolding skip_stars
  stars_part [] s m = Matches-star b'*' [] s refl m
  stars_part (x ∷ p) s m =
      let (t, h, m') = Matches-star b'*' (x ∷ p) s refl m in
      elim (Bool-cases (x == b'*')) [
        | inl star ↦
            let (u, k, m'') =
              stars_part p t (subst (λ c. Matches flags (c ∷ p) t) (ground arith) m') in
            (u, Suffix-trans u t s k h, subst (λ q. Matches flags q u) (ground arith) m'')
        | inr other ↦ (t, h, subst (λ q. Matches flags q t) (ground arith) m')
      ]
