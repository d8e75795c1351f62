-- ===== src/Search/Hash/Examples.antt =====
-- src/search.c: a small table, and each theorem at it.
use libcs.Prelude.{
  ℕ, ◌+◌, ◌-◌, ◌/◌, ◌^◌, ◌≤◌, ◌≡◌, refl, subst, arith, true, none, some, List, [], ◌∷◌,
}
use libcs.Prelude.Text.{codes}
use libcs.Search.Hash.{
  Entry, Htab, rotl, sipround, le_word, absorb, absorb_words, keyhash, grow, hcreate_r, probe,
  find_action, enter_action, esrch, hsearch_r,
}
use libcs.Search.Hash.Stored.{IsTable, lookup}
use libcs.Search.Hash.Laws.{Finishes, hsearch_r-Finishes}
use libcs.Search.Hash.Create.{hcreate_r-IsTable}

-- What the runs below compute with.
program : Unit {0}
unfolding rotl sipround le_word absorb absorb_words keyhash grow hcreate_r probe hsearch_r
program = tt

abbrev empty : Htab
empty = record {
  e = none ∷ none ∷ none ∷ none ∷ none ∷ none ∷ none ∷ none ∷ [];
  mask = 7;
  used = 0;
  k0 = 1;
  k1 = 2;
}

abbrev item : Entry
item = record { key = codes "a longer key"; value = 5 }

created : hcreate_r true 1 2 4 ≡ some empty
unfolding program
created = refl

too_many : hcreate_r true 1 2 (2 ^ 61) ≡ none
unfolding program
too_many = refl

not_there : (hsearch_r item find_action (some empty)).0 ≡ esrch
unfolding program
not_there = refl

found_again :
    (hsearch_r item find_action (hsearch_r item enter_action (some empty)).1).0
    ≡ (hsearch_r item enter_action (some empty)).0
unfolding program
found_again = refl

hcreate_r-IsTable_example :
    (t : Htab) × (hcreate_r true 1 2 4 ≡ some t)
    × IsTable t
    × ((key : List ℕ) → lookup t key ≡ none)
    × (t.used + 4 ≤ t.mask - t.mask / 4)
hcreate_r-IsTable_example = hcreate_r-IsTable 1 2 4 (omega arith)

empty-IsTable : IsTable empty
empty-IsTable =
    let (t, e, is, absent, room) = hcreate_r-IsTable 1 2 4 (omega arith) in
    let same : t ≡ empty = cc (e, created) in subst IsTable same is

hsearch_r-Finishes_example : Finishes item enter_action empty
hsearch_r-Finishes_example = hsearch_r-Finishes item enter_action empty empty-IsTable
