-- ===== src/Search/Avl/Examples.antt =====
-- src/search.c: a tree of numbers, and each theorem at a tree.
use libcs.Prelude.{ℕ, ◌≡◌, refl, arith, true, Option, none, some, [], ◌∷◌, ok}
use libcs.Prelude.Int.{ℤ, sub_ℕ}
use libcs.Search.Avl.{
  Tree, nil, node, leaf, preorder, postorder, endorder, rot_left, rot_right, lean_left, lean_right,
  balance, take_min, unlink, walk, tdestroy, tfind, descend, tsearch, Deletion, deleted, tdelete,
}
use libcs.Search.Avl.Balance.{keys, IsAvl}
use libcs.Search.Avl.Ordered.{IsOrder, IsSorted}
use libcs.Search.Avl.Refine.{tsearch-list_insert}
use libcs.Search.Avl.Delete.{DeletesKey, tdelete-list_delete}
use libcs.Search.Avl.Walk.{in_between, walk-keys}

-- What the runs below compute with.
program : Unit {0}
unfolding rot_left rot_right lean_left lean_right balance take_min unlink walk tdestroy tfind
    descend tsearch tdelete
program = tt

abbrev difference : ℕ → ℕ → ℤ
difference a b = sub_ℕ a b

difference-IsOrder : IsOrder difference
difference-IsOrder = record { flip = λ x y. ground arith; between = λ x y z h k. ground arith }

-- 2 below 1, which the third key makes lean.
abbrev chain : Tree ℕ
chain = node 1 nil (node 2 nil nil 1) 2

rotates :
    tsearch difference 3 true chain ≡ ok (some 3, node 2 (node 1 nil nil 1) (node 3 nil nil 1) 2)
unfolding program
rotates = refl

finds : tfind difference 2 chain ≡ some 2
unfolding program
finds = refl

visits : walk chain 0 ≡ (preorder, 1, 0) ∷ (postorder, 1, 0) ∷ (leaf, 2, 1) ∷ (endorder, 1, 0) ∷ []
unfolding program
visits = refl

root_gone : tdelete difference 1 none chain ≡ ok (deleted none (node 2 nil nil 1))
unfolding program
root_gone = refl

chain-IsAvl : IsAvl chain
chain-IsAvl = (refl, omega arith, omega arith, tt, (refl, omega arith, omega arith, tt, tt))

chain-IsSorted : IsSorted difference (keys chain)
chain-IsSorted = ((refl, tt), (tt, tt))

tsearch-list_insert_example :
    (r : Option ℕ) × (u : Tree ℕ) × (tsearch difference 3 true chain ≡ ok (r, u))
    × IsAvl u
    × IsSorted difference (keys u)
    × (keys u ≡ 1 ∷ 2 ∷ 3 ∷ [])
    × (r ≡ some 3)
tsearch-list_insert_example =
    tsearch-list_insert difference difference-IsOrder 3 true chain chain-IsAvl chain-IsSorted

tdelete-list_delete_example :
    (d : Deletion ℕ) × (tdelete difference 1 none chain ≡ ok d)
    × DeletesKey difference difference-IsOrder 1 (1 ∷ 2 ∷ []) d
tdelete-list_delete_example =
    tdelete-list_delete difference difference-IsOrder 1 none chain chain-IsAvl chain-IsSorted

walk-keys_example : in_between (walk chain 0) ≡ 1 ∷ 2 ∷ []
walk-keys_example = walk-keys chain 0
