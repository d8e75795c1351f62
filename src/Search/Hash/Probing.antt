-- ===== src/Search/Hash/Probing.antt =====
-- src/search.c: what a probe finds before and after an entry is stored in a free slot.
use native.Mathlib.Nat.{mod-lt}
use libcs.Prelude.{
  ℕ, zero, suc, ◌+◌, ◌%◌, ◌<◌, ◌≡◌, refl, arith, ap, ◌∙◌, true, Option, none, some, List, [], ◌∷◌,
  get_or, set, length, Bool-cases, Option-cases, inl, inr,
}
use libcs.Prelude.Text.{eqb_list}
use libcs.Search.Hash.{Entry, hit, free, probe}
use libcs.Search.Hash.Filled.{get_or-set_ne}

pub eqb_list_self : (s : List ℕ) → eqb_list s s ≡ true
eqb_list_self [] = refl
eqb_list_self (x ∷ s) = ground (arith, eqb_list_self s)

pub eqb_list_sound : (m n : List ℕ) → eqb_list m n ≡ true → m ≡ n
eqb_list_sound [] [] h = refl
eqb_list_sound [] (y ∷ n) h = absurd (cc)
eqb_list_sound (x ∷ m) [] h = absurd (cc)
eqb_list_sound (x ∷ m) (y ∷ n) h = ground (arith, eqb_list_sound m n)

pub get_or-set_self :
    (e : List (Option Entry)) (i : ℕ) (o : Option Entry)
    → i < length e
    → get_or (set e i o) i none ≡ o
get_or-set_self [] i o h = absurd (omega arith)
get_or-set_self (x ∷ e) zero o h = refl
get_or-set_self (x ∷ e) (suc i) o h = get_or-set_self e i o (omega arith)

module _ (mask : ℕ) where
  pub probe-hit :
      (rounds : ℕ) (e : List (Option Entry)) (key : List ℕ) (i step j : ℕ)
      → probe rounds e mask key i step ≡ hit j
      → (x : Entry) × (get_or e j none ≡ some x) × (eqb_list x.key key ≡ true)
  unfolding probe
  probe-hit zero e key i step j h = absurd (cc)
  probe-hit (suc rounds) e key i step j h = elim (Option-cases (get_or e i none)) [
    | inl empty ↦ absurd (ground arith)
    | inr (x, there) ↦ elim (Bool-cases (eqb_list x.key key)) [
      | inl same ↦ (x, ground arith, same)
      | inr other ↦ probe-hit rounds e key ((i + step) % (mask + 1)) (step + 1) j (ground arith)
    ]
  ]

  pub probe-free :
      (rounds : ℕ) (e : List (Option Entry)) (key : List ℕ) (i step j : ℕ)
      → i < mask + 1
      → probe rounds e mask key i step ≡ free j
      → (get_or e j none ≡ none) × (j < mask + 1)
  unfolding probe
  probe-free zero e key i step j less h = absurd (cc)
  probe-free (suc rounds) e key i step j less h = elim (Option-cases (get_or e i none)) [
    | inl empty ↦ (ground arith, ground arith)
    | inr (x, there) ↦ elim (Bool-cases (eqb_list x.key key)) [
      | inl same ↦ absurd (ground arith)
      | inr other ↦
          probe-free rounds e key ((i + step) % (mask + 1)) (step + 1) j
            (mod-lt (i + step) (omega arith)) (ground arith)
    ]
  ]

  module _ (e : List (Option Entry)) (f : ℕ) (item : Entry) (inside : f < length e)
      (empty_f : get_or e f none ≡ none) where
    kept :
        (i : ℕ) (x : Entry)
        → get_or e i none ≡ some x
        → get_or (set e f (some item)) i none ≡ some x
    kept i x there =
        get_or-set_ne e f i (some item)
          (λ q. cc (ap (λ (n : ℕ). get_or e n none) q, empty_f, there))
        ∙ there

    -- The entry is found where it has been stored.
    pub probe-set_free :
        (rounds : ℕ) (i step : ℕ)
        → probe rounds e mask item.key i step ≡ free f
        → probe rounds (set e f (some item)) mask item.key i step ≡ hit f
    unfolding probe
    probe-set_free zero i step h = absurd (cc)
    probe-set_free (suc rounds) i step h = elim (Option-cases (get_or e i none)) [
      | inl empty ↦ ground (arith, get_or-set_self e f (some item) inside, eqb_list_self item.key)
      | inr (x, there) ↦ elim (Bool-cases (eqb_list x.key item.key)) [
        | inl same ↦ absurd (ground arith)
        | inr other ↦
            ground
              (arith, kept i x there, probe-set_free rounds ((i + step) % (mask + 1)) (step + 1))
      ]
    ]

    -- What was found before is found where it was.
    pub probe-set_hit :
        (rounds : ℕ) (key : List ℕ) (i step j : ℕ)
        → probe rounds e mask key i step ≡ hit j
        → probe rounds (set e f (some item)) mask key i step ≡ hit j
    unfolding probe
    probe-set_hit zero key i step j h = absurd (cc)
    probe-set_hit (suc rounds) key i step j h = elim (Option-cases (get_or e i none)) [
      | inl empty ↦ absurd (ground arith)
      | inr (x, there) ↦ elim (Bool-cases (eqb_list x.key key)) [
        | inl same ↦ ground (arith, kept i x there)
        | inr other ↦
            ground (
              arith,
              kept i x there,
              probe-set_hit rounds key ((i + step) % (mask + 1)) (step + 1) j,
            )
      ]
    ]
