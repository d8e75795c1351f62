-- ===== src/Pattern/Correct.antt =====
-- src/fnmatch.c: with one saved star the loop finds a match if there is one, where no byte is special.
use libcs.Prelude.{
  ℕ, zero, suc, ◌+◌, ◌*◌, ◌<◌, ◌≡◌, ◌≢◌, refl, arith, Bool, true, false, Option, none, some, List,
  [], ◌∷◌, inl, inr, ◌⊎◌, sym, subst, length, ◌↔◌,
}
use libcs.Pattern.Bracket.{Flags}
use libcs.Pattern.Fnmatch.{
  Place, place, rest_of, leading_dot, Round, return, continue, backtrack, skip_stars, round, run,
  fnmatch,
}
use libcs.Pattern.Bound.{fnmatch_ends}
use libcs.Pattern.Meaning.{
  Element, any_number, one_byte, no_byte, element, Suffix, whole, beyond, Matches, done, consume,
  SameElement, element-SameElement,
}
use libcs.Pattern.Parts.{
  IsPlain, Proper, Suffix-cases, Suffix-tail, Proper-Suffix, stars_join, Matches-byte, stars_part,
}
use libcs.Pattern.Rounds.{
  follow, round-follow, same_rest, backtrack-plain, is_star, no_star, no_star_dead, at_end,
}

module _ (flags : Flags) (plain : IsPlain flags) where
  module _ (pat str : List ℕ) where
    Answer : Bool → Type 0
    Answer true = Matches flags pat str
    Answer false = ¬ (Matches flags pat str)

    -- A match at a later place of the last star.
    Later : Option (List ℕ × Place) → Type 0
    Later none = ⊥
    Later (some (p, place before s)) = (t : List ℕ) × Proper t s × Matches flags p t

    Resumes : Option (List ℕ × Place) → Type 0
    Resumes none = Unit {0}
    Resumes (some (p, place before s)) =
        (t : List ℕ) → Suffix t s → Matches flags p t → Matches flags pat str

    -- A later match uses up what has been matched since the star, so that it shows behind `s`.
    Passes : List ℕ → List ℕ → Option (List ℕ × Place) → Type 0
    Passes p s none = Unit {0}
    Passes p s (some (q, place before u)) =
        (t : List ℕ)
        → Proper t u
        → Matches flags q t
        → (t' : List ℕ) × Proper t' s × Matches flags p t'

    Tracked : List ℕ → List ℕ → Option (List ℕ × Place) → Type 0
    Tracked p s star =
        (Matches flags p s → Matches flags pat str)
        × Resumes star
        × (Matches flags pat str → Matches flags p s ⊎ Later star)
        × Passes p s star

    Good : Round → Type 0
    Good (return b) = Answer b
    Good (continue p s star) = Tracked p (rest_of s) star

    backtrack-Good :
        (p s : List ℕ) (star : Option (List ℕ × Place))
        → Tracked p s star
        → ¬ (Matches flags p s)
        → Good (backtrack flags star)
    unfolding Good Tracked Resumes Later Passes Answer backtrack leading_dot
    backtrack-Good p s none (now, resumes, all, passes) miss =
        λ m. elim (all m) [ inl h ↦ miss h | inr h ↦ h ]
    backtrack-Good p s (some (q, place before [])) (now, resumes, all, passes) miss =
        λ m. elim (all m) [ inl h ↦ miss h | inr (t, h, m') ↦ h ]
    backtrack-Good p s (some (q, place before (y ∷ u))) (now, resumes, all, passes) miss =
        subst Good (sym moved) (
          λ m. resumes u (beyond y u (whole u refl)) m,
          λ t h m. resumes t (beyond y u h) m,
          λ m. elim (all m) [
            | inl h ↦ absurd (miss h)
            | inr (t, h, m') ↦ elim (Suffix-cases h) [
              | inl e ↦ inl (subst (Matches flags q) e m')
              | inr k ↦ inr (t, k, m')
            ]
          ],
          λ t h m. (t, h, m),
        )
      where
        moved :
            backtrack flags (some (q, place before (y ∷ u)))
            ≡ continue q (place (some y) u) (some (q, place (some y) u))
        moved = backtrack-plain flags plain q before y u

    dead-Good :
        (p s : List ℕ) (star : Option (List ℕ × Place))
        → Tracked p s star
        → ((t : List ℕ) → ¬ (Matches flags p t))
        → Answer false
    unfolding Tracked Later Passes Answer
    dead-Good p s none (now, resumes, all, passes) dead =
        λ m. elim (all m) [ inl h ↦ dead s h | inr h ↦ h ]
    dead-Good p s (some (q, place before u)) (now, resumes, all, passes) dead = λ m. elim (all m) [
      | inl h ↦ dead s h
      | inr (t, h, m') ↦ let (t', h', m'') = passes t h m' in dead t' m''
    ]

    end-Good :
        (b : Option ℕ) (s : List ℕ) (star : Option (List ℕ × Place))
        → Tracked [] s star
        → Good (round flags star [] (place b s))
    unfolding Good Answer round Tracked
    end-Good b [] star tracked = tracked.0 done
    end-Good b (y ∷ s) star tracked =
        subst Good (ground arith) (backtrack-Good [] (y ∷ s) star tracked (λ m. ends_only m))
      where
        ends_only : ¬ (Matches flags [] (y ∷ s))
        ends_only m = elim m [ ]

    -- A match at a later place of the star shows behind `s`.
    Later-Passes :
        (p s : List ℕ) (star : Option (List ℕ × Place))
        → Later star
        → Passes p s star
        → (t : List ℕ) × Proper t s × Matches flags p t
    unfolding Later Passes
    Later-Passes p s none later passes = absurd later
    Later-Passes p s (some (q, place before u)) (t, h, m) passes = passes t h m

    star-Good :
        (p s : List ℕ) (b : Option ℕ) (star : Option (List ℕ × Place))
        → Tracked (b'*' ∷ p) s star
        → Good (continue (skip_stars p) (place b s) (some (skip_stars p, place b s)))
    unfolding Good Tracked Resumes Later Passes
    star-Good p s b star (now, resumes, all, passes) = (
      λ m. now (stars_join flags p s s m (whole s refl)),
      λ t h m. now (stars_join flags p t s m h),
      λ m. elim (all m) [
        | inl h ↦
            let (t, k, m') = stars_part flags p s h in
            elim (Suffix-cases k) [
              | inl e ↦ inl (subst (Matches flags (skip_stars p)) e m')
              | inr k' ↦ inr (t, k', m')
            ]
        | inr later ↦
            let (t, h, m') = Later-Passes (b'*' ∷ p) s star later passes in
            let (u, k, m'') = stars_part flags p t m' in inr (u, Proper-Suffix u t s k h, m'')
      ],
      λ t h m. (t, h, m),
    )

    -- A later match of the pattern with its first element is one of the rest, a byte further on.
    Passes-byte :
        (x : ℕ) (p q s : List ℕ) (y : ℕ) (star : Option (List ℕ × Place))
        → x ≢ b'*'
        → element flags y x p ≡ one_byte true q
        → Passes (x ∷ p) (y ∷ s) star
        → Passes q s star
    unfolding Passes
    Passes-byte x p q s y none other e passes = tt
    Passes-byte x p q s y (some (r, place before u)) other e passes = λ t h m.
        let (t', h', m') = passes t h m in
        let (z, t'', q', eq, e', m'') = Matches-byte flags x p t' other m' in
        (
          t'',
          Suffix-tail z t'' s (subst (λ v. Suffix v s) eq h'),
          subst (λ r. Matches flags r t'') (same_rest flags plain x p q q' y z e e') m'',
        )

    byte-Good :
        (x : ℕ) (p q s : List ℕ) (y : ℕ) (b : Option ℕ) (star : Option (List ℕ × Place))
        → x ≢ b'*'
        → element flags y x p ≡ one_byte true q
        → Tracked (x ∷ p) (y ∷ s) star
        → Good (continue q (place b s) star)
    unfolding Good Tracked Resumes Later Passes
    byte-Good x p q s y b star other e (now, resumes, all, passes) = (
      λ m. now (consume x p q s y e m),
      resumes,
      λ m. elim (all m) [ inl h ↦ inl (rest_matches h) | inr later ↦ inr later ],
      Passes-byte x p q s y star other e passes,
    )
      where
        rest_matches : Matches flags (x ∷ p) (y ∷ s) → Matches flags q s
        rest_matches h =
            let (y', t, q', eq, e', m') = Matches-byte flags x p (y ∷ s) other h in
            let tail : t ≡ s = cc in
            subst (Matches flags q) tail
              (subst (λ r. Matches flags r t) (same_rest flags plain x p q q' y y' e e') m')

    follow-Good :
        (x : ℕ) (p t : List ℕ) (y : ℕ) (b : Option ℕ) (star : Option (List ℕ × Place)) (k : Element)
        → element flags y x p ≡ k
        → Tracked (x ∷ p) (y ∷ t) star
        → Good (follow flags plain star (place b (y ∷ t)) y t k)
    unfolding follow Good Answer
    follow-Good x p t y b star (any_number q) e tracked =
        let (first, rest) = is_star flags plain x p y q e in
        subst
          (λ r.
            Good (continue (skip_stars r) (place b (y ∷ t)) (some (skip_stars r, place b (y ∷ t)))))
          rest
          (star-Good p (y ∷ t) b star (subst (λ c. Tracked (c ∷ p) (y ∷ t) star) first tracked))
    follow-Good x p t y b star (one_byte true q) e tracked =
        byte-Good x p q t y (some y) star (no_star flags plain x p q y true e) e tracked
    follow-Good x p t y b star (one_byte false q) e tracked =
        backtrack-Good (x ∷ p) (y ∷ t) star tracked (λ m.
          let (y', u, q', eq, e', m') =
            Matches-byte flags x p (y ∷ t) (no_star flags plain x p q y false e) m in
          let same : y' ≡ y = cc in
          cc (subst (λ c. element flags c x p ≡ one_byte true q') same e', e))
    follow-Good x p t y b star no_byte e tracked = dead-Good (x ∷ p) (y ∷ t) star tracked (λ u m.
        let (y', v, q', eq, e', m') =
          Matches-byte flags x p u (no_star_dead flags plain x p y e) m in
        subst (λ k. SameElement k no_byte) e'
          (subst (λ k. SameElement (element flags y' x p) k) e
            (element-SameElement flags y' y x p)))

    round-Good :
        (p : List ℕ) (s : Place) (star : Option (List ℕ × Place))
        → Tracked p (rest_of s) star
        → Good (round flags star p s)
    unfolding Good Answer
    round-Good [] (place b s) star tracked = end-Good b s star tracked
    round-Good (x ∷ p) (place b (y ∷ t)) star tracked =
        subst Good (sym (round-follow flags plain star x p b y t))
          (follow-Good x p t y b star (element flags y x p) refl tracked)
    round-Good (x ∷ p) (place b []) star tracked = elim (at_end flags plain star x p b) [
      | inl (first, e) ↦
          subst Good (sym e)
            (star-Good p [] b star (subst (λ c. Tracked (c ∷ p) [] star) first tracked))
      | inr (inl (other, e)) ↦ subst Good (sym e) (
          backtrack-Good (x ∷ p) [] star tracked
            (λ m. let (y, t, q, eq, e', m') = Matches-byte flags x p [] other m in cc))
      | inr (inr (other, e, dead)) ↦ subst Good (sym e) (
          dead-Good (x ∷ p) [] star tracked
            (λ u m. let (y, t, q, eq, e', m') = Matches-byte flags x p u other m in cc (dead y)))
    ]

    run-Good : (fuel : ℕ) (r : Round) (b : Bool) → Good r → run fuel flags r ≡ some b → Answer b
    unfolding run Good
    run-Good zero (return b') b g e = subst Answer (cc) g
    run-Good (suc fuel) (return b') b g e = subst Answer (cc) g
    run-Good zero (continue p s star) b g e = absurd (cc)
    run-Good (suc fuel) (continue p s star) b g e =
        run-Good fuel (round flags star p s) b (round-Good p s star g) e

  started-Tracked : (pat str : List ℕ) → Tracked pat str pat str none
  unfolding Tracked Resumes Passes
  started-Tracked pat str = (λ m. m, tt, λ m. inl m, tt)

Answer-iff :
    (flags : Flags) (plain : IsPlain flags) (pat str : List ℕ) (b : Bool)
    → Answer flags plain pat str b
    → ((b ≡ true) ↔ Matches flags pat str)
unfolding Answer
Answer-iff flags plain pat str true a = (λ e. a, λ m. refl)
Answer-iff flags plain pat str false a = (λ e. absurd (cc), λ m. absurd (a m))

-- Where slashes and leading dots are not special, with enough rounds for the loop to end: `fnmatch` returns,
-- and it returns 0 exactly if the pattern matches the whole string, by the meaning of its elements. So going
-- back to the last star only is enough to find every match.
pub fnmatch-Matches :
    (flags : Flags) (pat str : List ℕ) (fuel : ℕ)
    → IsPlain flags
    → (length pat + 1) * (length str + 2) < fuel
    → (b : Bool) × (fnmatch fuel pat str flags ≡ some b) × ((b ≡ true) ↔ Matches flags pat str)
unfolding fnmatch Good
fnmatch-Matches flags pat str fuel plain enough =
    let (b, e) = fnmatch_ends pat str flags fuel enough in
    (
      b,
      e,
      Answer-iff flags plain pat str b (
          run-Good flags plain pat str fuel (continue pat (place none str) none) b
            (started-Tracked flags plain pat str) e),
    )
