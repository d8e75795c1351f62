-- ===== src/Search/Hash/Create.antt =====
-- src/search.c: the table that hcreate makes.
use native.Mathlib.Nat.{pow-suc}
use libcs.Prelude.{
  ℕ, zero, suc, ◌+◌, ◌-◌, ◌*◌, ◌/◌, ◌%◌, ◌^◌, ◌<◌, ◌≤◌, ◌≡◌, refl, arith, ap, ◌∙◌, true, Option,
  none, some, List, get_or, length-replicate, replicate, ltb, Bool-cases, inl, inr,
}
use libcs.Search.Hash.{Entry, Htab, grow, hcreate_r, keyhash}
use libcs.Search.Hash.Filled.{occupied}
use libcs.Search.Hash.Stored.{IsTable, lookup, search_for, Probe-cases, lookup-free}
use libcs.Search.Hash.Probing.{probe-hit}

grow_power :
    (rounds a need : ℕ)
    → need ≤ 2 ^ (rounds + a)
    → (p : ℕ) × (grow rounds (2 ^ a) need ≡ 2 ^ p) × (need ≤ 2 ^ p) × (a ≤ p)
unfolding grow
grow_power zero a need h =
    let same : 0 + a ≡ a = omega arith in
    (a, refl, omega (arith, ap (λ (n : ℕ). 2 ^ n) same), omega arith)
grow_power (suc rounds) a need h = elim (Bool-cases (ltb (2 ^ a) need)) [
  | inl less ↦
      let shift : suc rounds + a ≡ rounds + suc a = omega arith in
      let (p, e, enough, le) =
        grow_power rounds (suc a) need (omega (arith, ap (λ (n : ℕ). 2 ^ n) shift)) in
      let double : 2 ^ a * 2 ≡ 2 ^ suc a = omega (arith, pow-suc 2 a) in
      (p, rw less (ap (λ (s : ℕ). grow rounds s need) double ∙ e), enough, omega arith)
  | inr reached ↦ (a, rw reached, ground arith, omega arith)
]

get_or-replicate : (n j : ℕ) → get_or {A = Option Entry} (replicate n none) j none ≡ none
get_or-replicate zero j = refl
get_or-replicate (suc n) zero = refl
get_or-replicate (suc n) (suc j) = get_or-replicate n j

occupied-replicate : (n : ℕ) → occupied (replicate n none) ≡ 0
unfolding occupied
occupied-replicate zero = refl
occupied-replicate (suc n) = occupied-replicate n

abbrev made : (k0 k1 size : ℕ) → Htab
made k0 k1 size = record { e = replicate size none; mask = size - 1; used = 0; k0 = k0; k1 = k1 }

module _ (k0 k1 size p : ℕ) (pow : size ≡ 2 ^ p) (some_slots : 0 < size) where
  made-IsTable : IsTable (made k0 k1 size)
  made-IsTable = record {
    power = p;
    size = omega (arith, pow);
    whole = length-replicate size none ∙ omega arith;
    counted = occupied-replicate size;
    room = omega arith;
    reached = λ j x there. absurd (cc (get_or-replicate size j, there));
  }

  made-lookup : (key : List ℕ) → lookup (made k0 k1 size) key ≡ none
  unfolding lookup
  made-lookup key = elim (Probe-cases (search_for (made k0 k1 size) key)) [
    | inl (j, h) ↦
        let (x, there, same) =
          probe-hit (size - 1) (size - 1 + 1) (replicate size none) key
            (keyhash (made k0 k1 size) key % (size - 1 + 1)) 1 j h in
        absurd (cc (get_or-replicate size j, there))
    | inr (inl (j, h)) ↦ lookup-free (made k0 k1 size) key j h
    | inr (inr h) ↦ ground arith
  ]

-- The table that `hcreate_r(nel)` makes, if it succeeds: it is in order, it has no entries, and `nel` of them
-- can be stored before it counts as full; and with memory for it, it succeeds for every `nel` up to 2^61 - 1.
pub hcreate_r-IsTable :
    (k0 k1 nel : ℕ)
    → nel < 2 ^ 61
    → (t : Htab) × (hcreate_r true k0 k1 nel ≡ some t)
      × IsTable t
      × ((key : List ℕ) → lookup t key ≡ none)
      × (t.used + nel ≤ t.mask - t.mask / 4)
unfolding hcreate_r
hcreate_r-IsTable k0 k1 nel h =
    let (p, e, enough, le) = grow_power 64 3 (nel + nel / 3 + 1) (omega arith) in
    let size = grow 64 8 (nel + nel / 3 + 1) in
    let some_slots : 0 < size = omega (arith, e, enough) in
    (
      made k0 k1 size,
      ground arith,
      made-IsTable k0 k1 size p e some_slots,
      λ key. made-lookup k0 k1 size p e some_slots key,
      omega (arith, e, enough),
    )
