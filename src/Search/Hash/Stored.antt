-- ===== src/Search/Hash/Stored.antt =====
-- src/search.c: a hash table in order, and the table with one entry more.
use native.Mathlib.Nat.{mod-lt}
use libcs.Prelude.{
  ℕ, ◌+◌, ◌-◌, ◌/◌, ◌%◌, ◌^◌, ◌<◌, ◌≤◌, ◌≡◌, ◌≢◌, refl, arith, ap, ◌∙◌, sym, subst, false, Option,
  none, some, List, get_or, set, length, length-set, ◌==◌, Bool-cases, inl, inr, ◌⊎◌,
}
use libcs.Prelude.Text.{eqb_list}
use libcs.Search.Hash.{Entry, Htab, keyhash, Probe, hit, free, lost, probe}
use libcs.Search.Hash.Filled.{occupied, occupied-set, get_or-set_ne, probe-ne-lost}
use libcs.Search.Hash.Probing.{
  eqb_list_sound, get_or-set_self, probe-hit, probe-free, probe-set_free, probe-set_hit,
}

-- The probe for a key from its hash on.
abbrev pub search_for : Htab → List ℕ → Probe
search_for t key = probe (t.mask + 1) t.e t.mask key (keyhash t key % (t.mask + 1)) 1

-- The number of slots is a power of two, `used` counts the entries, a quarter stays free, and a search for
-- the key of an entry finds that entry.
pub record IsTable (t : Htab) : Type 0 where
  pub power : ℕ
  pub size : t.mask + 1 ≡ 2 ^ power
  pub whole : length t.e ≡ t.mask + 1
  pub counted : occupied t.e ≡ t.used
  pub room : t.used ≤ t.mask - t.mask / 4
  pub reached : (j : ℕ) (x : Entry) → get_or t.e j none ≡ some x → search_for t x.key ≡ hit j

-- The map that a table stands for.
unfoldable pub lookup : Htab → List ℕ → Option Entry
lookup t key = elim (search_for t key) [ hit i ↦ get_or t.e i none | free i ↦ none | lost ↦ none ]

abbrev pub stored : Htab → ℕ → Entry → Htab
stored t f item = record t { e = set t.e f (some item); used = t.used + 1 }

-- A search in the table with one entry more has the same hash.
search_for-stored :
    (t : Htab) (f : ℕ) (item : Entry) (key : List ℕ)
    → search_for (stored t f item) key
      ≡ probe (t.mask + 1) (set t.e f (some item)) t.mask key (keyhash t key % (t.mask + 1)) 1
unfolding keyhash
search_for-stored t f item key = refl

pub Probe-cases : (p : Probe) → ((i : ℕ) × (p ≡ hit i)) ⊎ (((i : ℕ) × (p ≡ free i)) ⊎ (p ≡ lost))
Probe-cases (hit i) = inl (i, refl)
Probe-cases (free i) = inr (inl (i, refl))
Probe-cases lost = inr (inr refl)

pub lookup-hit :
    (t : Htab) (key : List ℕ) (i : ℕ) → search_for t key ≡ hit i → lookup t key ≡ get_or t.e i none
unfolding lookup
lookup-hit t key i h = ground arith

pub lookup-free :
    (t : Htab) (key : List ℕ) (i : ℕ) → search_for t key ≡ free i → lookup t key ≡ none
unfolding lookup
lookup-free t key i h = ground arith

module _ (t : Htab) (is : IsTable t) where
  pub search_for-ne-lost : (key : List ℕ) → search_for t key ≢ lost
  search_for-ne-lost key =
      probe-ne-lost t.e t.mask is.power key (keyhash t key) is.size
        (omega (arith, is.counted, is.room))

  module _ (item : Entry) (f : ℕ) (found : search_for t item.key ≡ free f)
      (less : t.used + 1 ≤ t.mask - t.mask / 4) where
    empty_f : (get_or t.e f none ≡ none) × (f < t.mask + 1)
    empty_f =
        probe-free t.mask (t.mask + 1) t.e item.key (keyhash t item.key % (t.mask + 1)) 1 f
          (mod-lt (keyhash t item.key) (omega arith)) found

    inside : f < length t.e
    inside = omega (arith, is.whole, empty_f.1)

    pub found_item : search_for (stored t f item) item.key ≡ hit f
    found_item =
        search_for-stored t f item item.key
        ∙ probe-set_free t.mask t.e f item inside empty_f.0 (t.mask + 1)
            (keyhash t item.key % (t.mask + 1)) 1 found

    found_before :
        (key : List ℕ) (j : ℕ) → search_for t key ≡ hit j → search_for (stored t f item) key ≡ hit j
    found_before key j h =
        search_for-stored t f item key
        ∙ probe-set_hit t.mask t.e f item inside empty_f.0 (t.mask + 1) key
            (keyhash t key % (t.mask + 1)) 1 j h

    -- The entry at a slot is the new one, or was there before.
    entry_at :
        (j : ℕ) (x : Entry)
        → get_or (set t.e f (some item)) j none ≡ some x
        → ((j ≡ f) × (x ≡ item)) ⊎ (get_or t.e j none ≡ some x)
    entry_at j x there = elim (Bool-cases (f == j)) [
      | inl same ↦
          let eq : f ≡ j = ground arith in
          let new : get_or (set t.e f (some item)) j none ≡ some item =
            ap (λ (n : ℕ). get_or (set t.e f (some item)) n none) (sym eq)
            ∙ get_or-set_self t.e f (some item) inside in
          inl (sym eq, cc)
      | inr other ↦ inr (sym (get_or-set_ne t.e f j (some item) (ne other)) ∙ there)
    ]
      where
        ne : (f == j) ≡ false → f ≢ j
        ne other q = ground arith

    pub stored-IsTable : IsTable (stored t f item)
    stored-IsTable = record {
      power = is.power;
      size = is.size;
      whole = length-set t.e f (some item) ∙ is.whole;
      counted = omega (arith, occupied-set t.e f item inside empty_f.0, is.counted);
      room = less;
      reached = λ j x there. elim (entry_at j x there) [
        | inl (at_f, new) ↦
            subst (λ y. search_for (stored t f item) y.key ≡ hit j) (sym new)
              (found_item ∙ ap hit (sym at_f))
        | inr old ↦ found_before x.key j (is.reached j x old)
      ];
    }

module _ (t : Htab) (is : IsTable t) (item : Entry) (f : ℕ) (found : search_for t item.key ≡ free f)
    (less : t.used + 1 ≤ t.mask - t.mask / 4) where
  absent :
      (key : List ℕ) (i j : ℕ)
      → eqb_list item.key key ≡ false
      → search_for t key ≡ free i
      → search_for (stored t f item) key ≢ hit j
  absent key i j other h hit_j =
      let (x, there, same) =
        probe-hit t.mask (t.mask + 1) (set t.e f (some item)) key (keyhash t key % (t.mask + 1)) 1 j
          (sym (search_for-stored t f item key) ∙ hit_j) in
      elim (entry_at t is item f found less j x there) [
        | inl (at_f, new) ↦ cc (ap (λ (y : Entry). eqb_list y.key key) new, same, other)
        | inr old ↦ cc (
          subst (λ k. search_for t k ≡ hit j) (eqb_list_sound x.key key same) (is.reached j x old),
          h,
        )
      ]

  pub stored-lookup_other :
      (key : List ℕ) → eqb_list item.key key ≡ false → lookup (stored t f item) key ≡ lookup t key
  stored-lookup_other key other = elim (Probe-cases (search_for t key)) [
    | inl (j, h) ↦
        let (x, there, same) =
          probe-hit t.mask (t.mask + 1) t.e key (keyhash t key % (t.mask + 1)) 1 j h in
        lookup-hit (stored t f item) key j (found_before t is item f found less key j h)
        ∙ get_or-set_ne t.e f j (some item) (λ q.
          cc (ap (λ (n : ℕ). get_or t.e n none) q, (empty_f t is item f found less).0, there))
        ∙ sym (lookup-hit t key j h)
    | inr (inl (i, h)) ↦ elim (Probe-cases (search_for (stored t f item) key)) [
      | inl (j, h') ↦ absurd (absent key i j other h h')
      | inr (inl (j, h')) ↦ lookup-free (stored t f item) key j h' ∙ sym (lookup-free t key i h)
      | inr (inr h') ↦
          absurd
            (search_for-ne-lost (stored t f item) (stored-IsTable t is item f found less) key h')
    ]
    | inr (inr h) ↦ absurd (search_for-ne-lost t is key h)
  ]

  pub stored-lookup_self : lookup (stored t f item) item.key ≡ some item
  stored-lookup_self =
      lookup-hit (stored t f item) item.key f (found_item t is item f found less)
      ∙ get_or-set_self t.e f (some item) (inside t is item f found less)
