-- ===== src/Search/Avl/Refine.antt =====
-- src/search.c: the tree operations implement those of the sorted list of keys.
use libcs.Prelude.{
  ℕ, ◌+◌, ◌≡◌, ◌≤◌, refl, arith, ap, ◌∙◌, sym, subst, Bool, true, false, Bool-cases, inl, inr,
  Option, none, some, List, ◌∷◌, ◌++◌, Run, ok, if◌then◌else◌,
}
use libcs.Prelude.Int.{ℤ, pos, ltb_ℤ, eqb_ℤ}
use libcs.Search.Avl.{
  Tree, nil, node, height, tfind, Insertion, found, no_memory, grown, regrow, descend, tsearch,
}
use libcs.Search.Avl.Balance.{keys, IsAvl, balance-Balanced}
use libcs.Search.Avl.Ordered.{
  else_below, at_zero, above_zero, IsOrder, IsSorted, IsSorted-append, AllBelow, list_find,
  list_insert, list_delete, AllBelow-Passes, after_lem, before_lem, insert-found, insert-IsSorted,
}

module _ {ℓ} {K : Type ℓ} (cmp : K → K → ℤ) (order : IsOrder cmp) (key : K) where
  -- The key found, or the new one if there is room for it.
  abbrev pub or_new : Option K → Bool → Option K
  or_new (some x) room = some x
  or_new none true = some key
  or_new none false = none

  -- Which way the key goes at a node, and what the list operations do there.
  pub data Way (k : K) (xs ys : List K) : Type ℓ where
    here :
        (eqb_ℤ (cmp key k) (pos 0) ≡ true)
        → list_find cmp key (xs ++ k ∷ ys) ≡ some k
        → list_delete cmp key (xs ++ k ∷ ys) ≡ xs ++ ys
        → Way k xs ys
    left :
        (eqb_ℤ (cmp key k) (pos 0) ≡ false)
        → (ltb_ℤ (pos 0) (cmp key k) ≡ false)
        → list_find cmp key (xs ++ k ∷ ys) ≡ list_find cmp key xs
        → list_insert cmp key (xs ++ k ∷ ys) ≡ list_insert cmp key xs ++ k ∷ ys
        → list_delete cmp key (xs ++ k ∷ ys) ≡ list_delete cmp key xs ++ k ∷ ys
        → Way k xs ys
    right :
        (eqb_ℤ (cmp key k) (pos 0) ≡ false)
        → (ltb_ℤ (pos 0) (cmp key k) ≡ true)
        → list_find cmp key (xs ++ k ∷ ys) ≡ list_find cmp key ys
        → list_insert cmp key (xs ++ k ∷ ys) ≡ xs ++ k ∷ list_insert cmp key ys
        → list_delete cmp key (xs ++ k ∷ ys) ≡ xs ++ k ∷ list_delete cmp key ys
        → Way k xs ys

  pub way : (k : K) (xs ys : List K) → AllBelow cmp k xs → Way k xs ys
  way k xs ys low = elim (Bool-cases (eqb_ℤ (cmp key k) (pos 0))) [
    | inl equal ↦
        let (f, i, d) =
          after_lem cmp key xs (k ∷ ys)
            (AllBelow-Passes cmp key order k xs (at_zero (cmp key k) equal) low) in
        here equal (f ∙ rw equal refl) (d ∙ rw equal refl)
    | inr unequal ↦ elim (Bool-cases (ltb_ℤ (pos 0) (cmp key k))) [
      | inl above ↦
          let (_, not_below) = above_zero (cmp key k) above in
          let (f, i, d) =
            after_lem cmp key xs (k ∷ ys) (AllBelow-Passes cmp key order k xs not_below low) in
          right unequal above (f ∙ rw (unequal, above) refl) (i ∙ rw (unequal, above) refl)
            (d ∙ rw (unequal, above) refl)
      | inr not_above ↦
          let (f, i, d) = before_lem cmp key xs k ys (else_below (cmp key k) unequal not_above) in
          left unequal not_above f i d
    ]
  ]

  -- `tfind` finds in a tree what a search of its list of keys finds.
  pub tfind-list_find :
      (t : Tree K) → IsSorted cmp (keys t) → tfind cmp key t ≡ list_find cmp key (keys t)
  unfolding tfind
  tfind-list_find nil h = refl
  tfind-list_find (node k l r h) s =
      let (sl, low, sr) = IsSorted-append cmp (keys l) k (keys r) s in
      elim (way k (keys l) (keys r) low) [
        | here e f d ↦ rw e (sym f)
        | left e g f i d ↦ rw (e, g) (tfind-list_find l sl ∙ sym f)
        | right e g f i d ↦ rw (e, g) (tfind-list_find r sr ∙ sym f)
      ]

  abbrev Inserted : Bool → List K → ℕ → Insertion K → Type ℓ
  Inserted room xs n (found x) = list_find cmp key xs ≡ some x
  Inserted room xs n no_memory = (room ≡ false) × (list_find cmp key xs ≡ none)
  Inserted room xs n (grown u) =
      (room ≡ true)
      × (list_find cmp key xs ≡ none)
      × IsAvl u
      × (keys u ≡ list_insert cmp key xs)
      × (n ≤ height u)
      × (height u ≤ n + 1)

  abbrev Inserts : Bool → List K → ℕ → Run (Insertion K) → Type ℓ
  Inserts room xs n m = (i : Insertion K) × (m ≡ ok i) × Inserted room xs n i

  -- One level of the way back up.
  regrow_left :
      (room : Bool) (k : K) (l r : Tree K) (h : ℕ) (i : Insertion K)
      → IsAvl (node k l r h)
      → list_find cmp key (keys l ++ k ∷ keys r) ≡ list_find cmp key (keys l)
      → list_insert cmp key (keys l ++ k ∷ keys r) ≡ list_insert cmp key (keys l) ++ k ∷ keys r
      → Inserted room (keys l) (height l) i
      → Inserts room (keys l ++ k ∷ keys r) h (regrow (λ t. node k t r h) i)
  regrow_left room k l r h (found x) a f g j = (found x, refl, f ∙ j)
  regrow_left room k l r h no_memory a f g (p, q) = (no_memory, refl, (p, f ∙ q))
  regrow_left room k l r h (grown u) (a, b, c, d, e) f g (p, q, avl, same, low, high) =
      let (w, run, avl', same', low', high', exact) =
        balance-Balanced k u r h avl e (omega arith) (omega arith) in
      (
        grown w,
        rw run refl,
        (
          p,
          f ∙ q,
          avl',
          same' ∙ ap (λ xs. xs ++ k ∷ keys r) same ∙ sym g,
          omega arith,
          omega arith,
        ),
      )

  regrow_right :
      (room : Bool) (k : K) (l r : Tree K) (h : ℕ) (i : Insertion K)
      → IsAvl (node k l r h)
      → list_find cmp key (keys l ++ k ∷ keys r) ≡ list_find cmp key (keys r)
      → list_insert cmp key (keys l ++ k ∷ keys r) ≡ keys l ++ k ∷ list_insert cmp key (keys r)
      → Inserted room (keys r) (height r) i
      → Inserts room (keys l ++ k ∷ keys r) h (regrow (λ t. node k l t h) i)
  regrow_right room k l r h (found x) a f g j = (found x, refl, f ∙ j)
  regrow_right room k l r h no_memory a f g (p, q) = (no_memory, refl, (p, f ∙ q))
  regrow_right room k l r h (grown u) (a, b, c, d, e) f g (p, q, avl, same, low, high) =
      let (w, run, avl', same', low', high', exact) =
        balance-Balanced k l u h d avl (omega arith) (omega arith) in
      (
        grown w,
        rw run refl,
        (
          p,
          f ∙ q,
          avl',
          same' ∙ ap (λ xs. keys l ++ k ∷ xs) same ∙ sym g,
          omega arith,
          omega arith,
        ),
      )

  descend-Inserts :
      (room : Bool) (t : Tree K)
      → IsAvl t
      → IsSorted cmp (keys t)
      → Inserts room (keys t) (height t) (descend cmp key room t)
  unfolding descend
  descend-Inserts true nil a s = (
    grown (node key nil nil 1),
    refl,
    (refl, refl, (omega arith, omega arith, omega arith, tt, tt), refl, omega arith, omega arith),
  )
  descend-Inserts false nil a s = (no_memory, refl, (refl, refl))
  descend-Inserts room (node k l r h) a s =
      let (sl, low, sr) = IsSorted-append cmp (keys l) k (keys r) s in
      elim (way k (keys l) (keys r) low) [
        | here e f d ↦ (found k, rw e refl, f)
        | left e g f i d ↦
            let (j, run, ins) = descend-Inserts room l a.3 sl in
            let (w, run', ins') = regrow_left room k l r h j a f i ins in
            (w, rw (e, g, run, run') refl, ins')
        | right e g f i d ↦
            let (j, run, ins) = descend-Inserts room r a.4 sr in
            let (w, run', ins') = regrow_right room k l r h j a f i ins in
            (w, rw (e, g, run, run') refl, ins')
      ]

  -- `tsearch` on a balanced tree with sorted keys, under an order: it returns, without a null access, a
  -- balanced tree with sorted keys. The keys are those before with the new one put in its place, or the
  -- same if the key is there or no memory is left; and it names the node found, or the new one, or
  -- nothing if there is no memory for it.
  pub tsearch-list_insert :
      (room : Bool) (t : Tree K)
      → IsAvl t
      → IsSorted cmp (keys t)
      → (r : Option K) × (u : Tree K) × (tsearch cmp key room t ≡ ok (r, u))
        × IsAvl u
        × IsSorted cmp (keys u)
        × (keys u ≡ (if room then list_insert cmp key (keys t) else keys t))
        × (r ≡ or_new (list_find cmp key (keys t)) room)
  unfolding tsearch
  tsearch-list_insert room t a s =
      let (i, run, ins) = descend-Inserts room t a s in by_end i run ins
    where
      kept : (room : Bool) (xs ys : List K) → ys ≡ xs → xs ≡ (if room then ys else xs)
      kept true xs ys e = sym e
      kept false xs ys e = refl

      by_end :
          (i : Insertion K)
          → descend cmp key room t ≡ ok i
          → Inserted room (keys t) (height t) i
          → (r : Option K) × (u : Tree K) × (tsearch cmp key room t ≡ ok (r, u))
            × IsAvl u
            × IsSorted cmp (keys u)
            × (keys u ≡ (if room then list_insert cmp key (keys t) else keys t))
            × (r ≡ or_new (list_find cmp key (keys t)) room)
      by_end (found x) run f = (
        some x,
        t,
        rw run refl,
        a,
        s,
        kept room (keys t) (list_insert cmp key (keys t)) (insert-found cmp key (keys t) x f),
        rw f refl,
      )
      by_end no_memory run (p, q) = (none, t, rw run refl, a, s, rw p refl, rw (p, q) refl)
      by_end (grown u) run (p, q, avl, same, low, high) = (
        some key,
        u,
        rw run refl,
        avl,
        subst (IsSorted cmp) (sym same) (insert-IsSorted cmp key order (keys t) s),
        rw p same,
        rw (p, q) refl,
      )
