-- ===== src/Search/Hash/Laws.antt =====
-- src/search.c: the hash table as a map from keys to entries.
use libcs.Prelude.{
  ℕ, ◌+◌, ◌-◌, ◌/◌, ◌%◌, ◌≤◌, ◌≡◌, ◌<◌, ◌⊎◌, refl, sym, arith, ap, ◌∙◌, Bool, true, false, ◌&&◌,
  Option, none, some, List, get_or, ltb, if◌then◌else◌, Bool-cases, inl, inr,
}
use libcs.Prelude.Text.{eqb_list}
use libcs.Search.Hash.{
  Entry, Htab, keyhash, hit, free, Action, find_action, enter_action, HashResult, slot, esrch,
  enomem, hsearch_r,
}
use libcs.Search.Hash.Probing.{eqb_list_sound, probe-hit}
use libcs.Search.Hash.Stored.{
  IsTable, search_for, lookup, stored, Probe-cases, lookup-hit, lookup-free, search_for-ne-lost,
  found_item, stored-IsTable, stored-lookup_other, stored-lookup_self,
}

-- Whether a call has found or stored the entry for ENTER.
abbrev pub enters : Action → HashResult → Bool
enters enter_action (slot i) = true
enters _ _ = false

-- The entry that is there already, or the new one.
abbrev pub first_of : Option Entry → Entry → Option Entry
first_of none item = some item
first_of (some x) item = some x

-- What a call returns and leaves behind, by what the table has for the key: its slot, with the table as it was; for
-- FIND, ESRCH and the table as it was; for ENTER, either three quarters of the slots are used, and it is ENOMEM with the
-- table as it was, or the item is in the slot and one more of them is used.
abbrev pub Answers : Entry → Action → Option Entry → Htab → HashResult → Htab → Type 0
Answers item act (some x) t r t' = (i : ℕ) × (r ≡ slot i) × (get_or t.e i none ≡ some x) × (t' ≡ t)
Answers item find_action none t r t' = (r ≡ esrch) × (t' ≡ t)
Answers item enter_action none t r t' =
    ((t.mask - t.mask / 4 ≤ t.used) × (r ≡ enomem) × (t' ≡ t))
    ⊎ ((t.used < t.mask - t.mask / 4)
        × ((i : ℕ) × (r ≡ slot i) × (get_or t'.e i none ≡ some item) × (t'.used ≡ t.used + 1)))

abbrev pub Finishes : Entry → Action → Htab → Type 0
Finishes item act t =
    (r : HashResult) × (t' : Htab) × (hsearch_r item act (some t) ≡ (r, some t'))
    × IsTable t'
    × Answers item act (lookup t item.key) t r t'
    × ((key : List ℕ)
        → lookup t' key ≡ (
            if enters act r && eqb_list item.key key
            then first_of (lookup t key) item
            else lookup t key))

hit_case :
    (item : Entry) (act : Action) (t : Htab)
    → IsTable t
    → (i : ℕ) → search_for t item.key ≡ hit i
    → Finishes item act t
unfolding hsearch_r
hit_case item act t is i h =
    let (x, there, same) =
      probe-hit t.mask (t.mask + 1) t.e item.key (keyhash t item.key % (t.mask + 1)) 1 i h in
    let found = lookup-hit t item.key i h in
    let some_there : lookup t item.key ≡ some x = found ∙ there in
    (
      slot i,
      t,
      returns,
      is,
      rw some_there (i, refl, there, refl),
      λ key. unchanged act key x some_there,
    )
  where
    returns : hsearch_r item act (some t) ≡ (slot i, some t)
    returns = ground arith

    unchanged :
        (act : Action) (key : List ℕ) (x : Entry)
        → lookup t item.key ≡ some x
        → lookup t key ≡ (
            if enters act (slot i) && eqb_list item.key key
            then first_of (lookup t key) item
            else lookup t key)
    unchanged find_action key x e = refl
    unchanged enter_action key x e = elim (Bool-cases (eqb_list item.key key)) [
      | inl same ↦ ground (arith, ap (lookup t) (eqb_list_sound item.key key same))
      | inr other ↦ rw other
    ]

free_case :
    (item : Entry) (act : Action) (t : Htab)
    → IsTable t
    → (f : ℕ) → search_for t item.key ≡ free f
    → Finishes item act t
unfolding hsearch_r
free_case item find_action t is f h =
    (esrch, t, ground arith, is, rw (lookup-free t item.key f h) (refl, refl), λ key. refl)
free_case item enter_action t is f h = elim (Bool-cases (ltb (t.mask - t.mask / 4) (t.used + 1))) [
  | inl full ↦ (
    enomem,
    t,
    ground arith,
    is,
    rw (lookup-free t item.key f h) (inl (ground arith, refl, refl)),
    λ key. refl,
  )
  | inr room ↦
      let less : t.used + 1 ≤ t.mask - t.mask / 4 = ground arith in
      let self = stored-lookup_self t is item f h less in
      (
        slot f,
        stored t f item,
        ground arith,
        stored-IsTable t is item f h less,
        rw (lookup-free t item.key f h) (
            inr (
              omega (arith, less),
              (
                f,
                refl,
                sym (lookup-hit (stored t f item) item.key f (found_item t is item f h less))
                    ∙ self,
                refl,
              ),
            )),
        λ key. entered key less self,
      )
]
  where
    entered :
        (key : List ℕ)
        → t.used + 1 ≤ t.mask - t.mask / 4
        → lookup (stored t f item) item.key ≡ some item
        → lookup (stored t f item) key
          ≡ (if eqb_list item.key key then first_of (lookup t key) item else lookup t key)
    entered key less self = elim (Bool-cases (eqb_list item.key key)) [
      | inl same ↦ ground (
        arith,
        self,
        ap (lookup t) (eqb_list_sound item.key key same),
        ap (lookup (stored t f item)) (eqb_list_sound item.key key same),
        lookup-free t item.key f h,
      )
      | inr other ↦ rw other (stored-lookup_other t is item f h less key other)
    ]

-- `hsearch_r` in a table that `hcreate_r` has made and calls of it have filled: it returns, and leaves such a
-- table. If the table has an entry for the key, the result is 1 with its slot, and the table is as before. If it
-- has none, FIND gives ESRCH and leaves the table as it was; ENTER gives ENOMEM and leaves it as it was if three
-- quarters of the slots are used, and otherwise gives 1 with a slot that has the item, so that the table has the
-- item for its key, the same entries as before for all other keys, and one more slot in use.
pub hsearch_r-Finishes : (item : Entry) (act : Action) (t : Htab) → IsTable t → Finishes item act t
hsearch_r-Finishes item act t is = elim (Probe-cases (search_for t item.key)) [
  | inl (i, h) ↦ hit_case item act t is i h
  | inr (inl (f, h)) ↦ free_case item act t is f h
  | inr (inr h) ↦ absurd (search_for-ne-lost t is item.key h)
]
