-- ===== src/Search/Avl/Delete.antt =====
-- src/search.c: `tdelete` implements deletion from the sorted list of keys.
use libcs.Prelude.{
  ℕ, ◌+◌, ◌≡◌, ◌≤◌, refl, arith, ap, ◌∙◌, sym, subst, Option, none, some, List, ◌∷◌, ◌++◌, Run, ok,
}
use libcs.Prelude.Int.{ℤ}
use libcs.Search.Avl.{Tree, nil, node, height, Deletion, missing, deleted, regraft, tdelete}
use libcs.Search.Avl.Balance.{keys, IsAvl, balance-Balanced, unlink_lem}
use libcs.Search.Avl.Ordered.{
  IsOrder, IsSorted, IsSorted-append, list_find, list_delete, delete-IsSorted,
}
use libcs.Search.Avl.Refine.{here, left, right, way}

module _ {ℓ} {K : Type ℓ} (cmp : K → K → ℤ) (order : IsOrder cmp) (key : K) where
  abbrev Deleted : List K → ℕ → Deletion K → Type ℓ
  Deleted xs n missing = list_find cmp key xs ≡ none
  Deleted xs n (deleted p u) =
      ((x : K) × (list_find cmp key xs ≡ some x))
      × IsAvl u
      × (keys u ≡ list_delete cmp key xs)
      × (height u ≤ n)
      × (n ≤ height u + 1)

  abbrev Deletes : List K → ℕ → Run (Deletion K) → Type ℓ
  Deletes xs n m = (d : Deletion K) × (m ≡ ok d) × Deleted xs n d

  regraft_left :
      (k : K) (l r : Tree K) (h : ℕ) (d : Deletion K)
      → IsAvl (node k l r h)
      → list_find cmp key (keys l ++ k ∷ keys r) ≡ list_find cmp key (keys l)
      → list_delete cmp key (keys l ++ k ∷ keys r) ≡ list_delete cmp key (keys l) ++ k ∷ keys r
      → Deleted (keys l) (height l) d
      → Deletes (keys l ++ k ∷ keys r) h (regraft (λ t. node k t r h) d)
  regraft_left k l r h missing a f g j = (missing, refl, f ∙ j)
  regraft_left k l r h (deleted p u) (a, b, c, d, e) f g ((x, q), avl, same, low, high) =
      let (w, run, avl', same', low', high', exact) =
        balance-Balanced k u r h avl e (omega arith) (omega arith) in
      (
        deleted p w,
        rw run refl,
        (
          (x, f ∙ q),
          avl',
          same' ∙ ap (λ xs. xs ++ k ∷ keys r) same ∙ sym g,
          omega arith,
          omega arith,
        ),
      )

  regraft_right :
      (k : K) (l r : Tree K) (h : ℕ) (d : Deletion K)
      → IsAvl (node k l r h)
      → list_find cmp key (keys l ++ k ∷ keys r) ≡ list_find cmp key (keys r)
      → list_delete cmp key (keys l ++ k ∷ keys r) ≡ keys l ++ k ∷ list_delete cmp key (keys r)
      → Deleted (keys r) (height r) d
      → Deletes (keys l ++ k ∷ keys r) h (regraft (λ t. node k l t h) d)
  regraft_right k l r h missing a f g j = (missing, refl, f ∙ j)
  regraft_right k l r h (deleted p u) (a, b, c, d, e) f g ((x, q), avl, same, low, high) =
      let (w, run, avl', same', low', high', exact) =
        balance-Balanced k l u h d avl (omega arith) (omega arith) in
      (
        deleted p w,
        rw run refl,
        (
          (x, f ∙ q),
          avl',
          same' ∙ ap (λ xs. keys l ++ k ∷ xs) same ∙ sym g,
          omega arith,
          omega arith,
        ),
      )

  tdelete-Deletes :
      (parent : Option K) (t : Tree K)
      → IsAvl t
      → IsSorted cmp (keys t)
      → Deletes (keys t) (height t) (tdelete cmp key parent t)
  unfolding tdelete
  tdelete-Deletes parent nil a s = (missing, refl, refl)
  tdelete-Deletes parent (node k l r h) a s =
      let (sl, low, sr) = IsSorted-append cmp (keys l) k (keys r) s in
      elim (way cmp order key k (keys l) (keys r) low) [
        | here e f d ↦
            let (u, run, avl, same, low', high') = unlink_lem k l r h a in
            (
              deleted parent u,
              rw (e, run) refl,
              ((k, f), avl, same ∙ sym d, omega (arith, a), omega (arith, a)),
            )
        | left e g f i d ↦
            let (j, run, del) = tdelete-Deletes (some k) l a.3 sl in
            let (w, run', del') = regraft_left k l r h j a f d del in
            (w, rw (e, g, run, run') refl, del')
        | right e g f i d ↦
            let (j, run, del) = tdelete-Deletes (some k) r a.4 sr in
            let (w, run', del') = regraft_right k l r h j a f d del in
            (w, rw (e, g, run, run') refl, del')
      ]

  -- What a deletion leaves of the list of keys `xs`: it is right to find nothing, or the tree is balanced
  -- and its keys are sorted, and are `xs` without the key.
  abbrev pub DeletesKey : List K → Deletion K → Type ℓ
  DeletesKey xs missing = list_find cmp key xs ≡ none
  DeletesKey xs (deleted p u) =
      ((x : K) × (list_find cmp key xs ≡ some x))
      × IsAvl u
      × IsSorted cmp (keys u)
      × (keys u ≡ list_delete cmp key xs)

  -- `tdelete` on a balanced tree with sorted keys, under an order: it returns, without a null access. It
  -- reports a missing key exactly if the key is not among the tree's, and otherwise leaves a balanced
  -- tree whose keys are sorted and are those before without the key.
  pub tdelete-list_delete :
      (parent : Option K) (t : Tree K)
      → IsAvl t
      → IsSorted cmp (keys t)
      → (d : Deletion K) × (tdelete cmp key parent t ≡ ok d) × DeletesKey (keys t) d
  tdelete-list_delete parent t a s =
      let (d, run, del) = tdelete-Deletes parent t a s in (d, run, result d del)
    where
      result : (d : Deletion K) → Deleted (keys t) (height t) d → DeletesKey (keys t) d
      result missing e = e
      result (deleted p u) (f, avl, same, low, high) =
          (f, avl, subst (IsSorted cmp) (sym same) (delete-IsSorted cmp key (keys t) s), same)
