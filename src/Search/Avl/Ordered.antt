-- ===== src/Search/Avl/Ordered.antt =====
-- src/search.c: the abstract view of a tree, a sorted list of keys, and its operations.
use libcs.Prelude.{
  ◌≡◌, refl, arith, ap, ◌∙◌, sym, true, false, Bool-cases, inl, inr, Option, none, some, List, [],
  ◌∷◌, ◌++◌, if◌then◌else◌,
}
use libcs.Prelude.Int.{ℤ, pos, ltb_ℤ, eqb_ℤ}

pub below_zero :
    (z : ℤ) → ltb_ℤ z (pos 0) ≡ true → (eqb_ℤ z (pos 0) ≡ false) × (ltb_ℤ (pos 0) z ≡ false)
below_zero z h = (ground arith, ground arith)

pub above_zero :
    (z : ℤ) → ltb_ℤ (pos 0) z ≡ true → (eqb_ℤ z (pos 0) ≡ false) × (ltb_ℤ z (pos 0) ≡ false)
above_zero z h = (ground arith, ground arith)

pub at_zero : (z : ℤ) → eqb_ℤ z (pos 0) ≡ true → ltb_ℤ z (pos 0) ≡ false
at_zero z h = ground arith

pub else_below :
    (z : ℤ) → eqb_ℤ z (pos 0) ≡ false → ltb_ℤ (pos 0) z ≡ false → ltb_ℤ z (pos 0) ≡ true
else_below z h k = ground arith

module _ {ℓ} {K : Type ℓ} (cmp : K → K → ℤ) where
  abbrev pub Less : K → K → Type 0
  Less x y = ltb_ℤ (cmp x y) (pos 0) ≡ true

  -- What the caller's comparison function owes: signs agree with those of the arguments exchanged, and a
  -- key that is not below `y` is above every key that is below `y`.
  pub record IsOrder : Type ℓ where
    pub flip : (x y : K) → ltb_ℤ (pos 0) (cmp x y) ≡ ltb_ℤ (cmp y x) (pos 0)
    pub between : (x y z : K) → Less x y → ltb_ℤ (cmp z y) (pos 0) ≡ false → Less x z

  abbrev pub AllLess : K → List K → Type 0
  AllLess x [] = Unit
  AllLess x (y ∷ ys) = Less x y × AllLess x ys

  abbrev pub AllBelow : K → List K → Type 0
  AllBelow k [] = Unit
  AllBelow k (x ∷ xs) = Less x k × AllBelow k xs

  abbrev pub IsSorted : List K → Type 0
  IsSorted [] = Unit
  IsSorted (x ∷ xs) = AllLess x xs × IsSorted xs

  AllLess-append : (x k : K) (xs ys : List K) → AllLess x (xs ++ k ∷ ys) → AllLess x xs × Less x k
  AllLess-append x k [] ys (a, b) = (tt, a)
  AllLess-append x k (y ∷ xs) ys (a, b) = let (c, d) = AllLess-append x k xs ys b in ((a, c), d)

  pub IsSorted-append :
      (xs : List K) (k : K) (ys : List K)
      → IsSorted (xs ++ k ∷ ys)
      → IsSorted xs × AllBelow k xs × IsSorted ys
  IsSorted-append [] k ys (a, b) = (tt, tt, b)
  IsSorted-append (x ∷ xs) k ys (a, b) =
      let (c, d, e) = IsSorted-append xs k ys b in
      let (f, g) = AllLess-append x k xs ys a in ((f, c), (g, d), e)

  module _ (key : K) where
    -- The operations on the list of keys.
    abbrev pub list_find : List K → Option K
    list_find [] = none
    list_find (x ∷ xs) =
        if eqb_ℤ (cmp key x) (pos 0)
        then some x
        else (if ltb_ℤ (pos 0) (cmp key x) then list_find xs else none)

    abbrev pub list_insert : List K → List K
    list_insert [] = key ∷ []
    list_insert (x ∷ xs) =
        if eqb_ℤ (cmp key x) (pos 0)
        then x ∷ xs
        else (if ltb_ℤ (pos 0) (cmp key x) then x ∷ list_insert xs else key ∷ x ∷ xs)

    abbrev pub list_delete : List K → List K
    list_delete [] = []
    list_delete (x ∷ xs) =
        if eqb_ℤ (cmp key x) (pos 0)
        then xs
        else (if ltb_ℤ (pos 0) (cmp key x) then x ∷ list_delete xs else x ∷ xs)

    -- The key lies beyond all of a list.
    abbrev pub Passes : List K → Type 0
    Passes [] = Unit
    Passes (x ∷ xs) = (ltb_ℤ (pos 0) (cmp key x) ≡ true) × Passes xs

    pub AllBelow-Passes :
        IsOrder
        → (k : K) (xs : List K) → ltb_ℤ (cmp key k) (pos 0) ≡ false
        → AllBelow k xs
        → Passes xs
    AllBelow-Passes order k [] h a = tt
    AllBelow-Passes order k (x ∷ xs) h (a, b) =
        (order.flip key x ∙ order.between x k key a h, AllBelow-Passes order k xs h b)

    pub after_lem :
        (xs ys : List K)
        → Passes xs
        → (list_find (xs ++ ys) ≡ list_find ys)
          × (list_insert (xs ++ ys) ≡ xs ++ list_insert ys)
          × (list_delete (xs ++ ys) ≡ xs ++ list_delete ys)
    after_lem [] ys h = (refl, refl, refl)
    after_lem (x ∷ xs) ys (a, b) =
        let (unequal, _) = above_zero (cmp key x) a in
        let (f, i, d) = after_lem xs ys b in
        (
          rw (unequal, a) f,
          rw (unequal, a) (ap (λ zs. x ∷ zs) i),
          rw (unequal, a) (ap (λ zs. x ∷ zs) d),
        )

    pub before_lem :
        (xs : List K) (k : K) (ys : List K)
        → Less key k
        → (list_find (xs ++ k ∷ ys) ≡ list_find xs)
          × (list_insert (xs ++ k ∷ ys) ≡ list_insert xs ++ k ∷ ys)
          × (list_delete (xs ++ k ∷ ys) ≡ list_delete xs ++ k ∷ ys)
    before_lem [] k ys h =
        let (unequal, not_above) = below_zero (cmp key k) h in
        (rw (unequal, not_above) refl, rw (unequal, not_above) refl, rw (unequal, not_above) refl)
    before_lem (x ∷ xs) k ys h =
        let (f, i, d) = before_lem xs k ys h in
        elim (Bool-cases (eqb_ℤ (cmp key x) (pos 0))) [
          | inl equal ↦ (rw equal refl, rw equal refl, rw equal refl)
          | inr unequal ↦ elim (Bool-cases (ltb_ℤ (pos 0) (cmp key x))) [
            | inl above ↦ (
              rw (unequal, above) f,
              rw (unequal, above) (ap (λ zs. x ∷ zs) i),
              rw (unequal, above) (ap (λ zs. x ∷ zs) d),
            )
            | inr not_above ↦ (
              rw (unequal, not_above) refl,
              rw (unequal, not_above) refl,
              rw (unequal, not_above) refl,
            )
          ]
        ]

    pub insert-found : (xs : List K) (x : K) → list_find xs ≡ some x → list_insert xs ≡ xs
    insert-found [] x h = absurd (cc)
    insert-found (y ∷ xs) x h = elim (Bool-cases (eqb_ℤ (cmp key y) (pos 0))) [
      | inl equal ↦ rw equal refl
      | inr unequal ↦ elim (Bool-cases (ltb_ℤ (pos 0) (cmp key y))) [
        | inl above ↦
            let g = rw (unequal, above) at h in
            rw (unequal, above) (ap (λ zs. y ∷ zs) (insert-found xs x g))
        | inr not_above ↦ absurd (let g = rw (unequal, not_above) at h in cc)
      ]
    ]

    -- Sortedness is kept.
    AllLess-insert : (x : K) (xs : List K) → Less x key → AllLess x xs → AllLess x (list_insert xs)
    AllLess-insert x [] h a = (h, tt)
    AllLess-insert x (y ∷ xs) h (a, b) = elim (Bool-cases (eqb_ℤ (cmp key y) (pos 0))) [
      | inl equal ↦ rw equal (a, b)
      | inr unequal ↦ elim (Bool-cases (ltb_ℤ (pos 0) (cmp key y))) [
        | inl above ↦ rw (unequal, above) (a, AllLess-insert x xs h b)
        | inr not_above ↦ rw (unequal, not_above) (h, (a, b))
      ]
    ]

    AllLess-trans : IsOrder → (x y : K) (ys : List K) → Less x y → AllLess y ys → AllLess x ys
    AllLess-trans order x y [] h a = tt
    AllLess-trans order x y (z ∷ ys) h (a, b) =
        let (_, not_below) = above_zero (cmp z y) (order.flip z y ∙ a) in
        (order.between x y z h not_below, AllLess-trans order x y ys h b)

    pub insert-IsSorted : IsOrder → (xs : List K) → IsSorted xs → IsSorted (list_insert xs)
    insert-IsSorted order [] h = (tt, tt)
    insert-IsSorted order (y ∷ xs) (a, b) = elim (Bool-cases (eqb_ℤ (cmp key y) (pos 0))) [
      | inl equal ↦ rw equal (a, b)
      | inr unequal ↦ elim (Bool-cases (ltb_ℤ (pos 0) (cmp key y))) [
        | inl above ↦
            rw (unequal, above)
              (AllLess-insert y xs (sym (order.flip key y) ∙ above) a, insert-IsSorted order xs b)
        | inr not_above ↦
            let less = else_below (cmp key y) unequal not_above in
            rw (unequal, not_above) ((less, AllLess-trans order key y xs less a), (a, b))
      ]
    ]

    AllLess-delete : (x : K) (xs : List K) → AllLess x xs → AllLess x (list_delete xs)
    AllLess-delete x [] a = tt
    AllLess-delete x (y ∷ xs) (a, b) = elim (Bool-cases (eqb_ℤ (cmp key y) (pos 0))) [
      | inl equal ↦ rw equal b
      | inr unequal ↦ elim (Bool-cases (ltb_ℤ (pos 0) (cmp key y))) [
        | inl above ↦ rw (unequal, above) (a, AllLess-delete x xs b)
        | inr not_above ↦ rw (unequal, not_above) (a, b)
      ]
    ]

    pub delete-IsSorted : (xs : List K) → IsSorted xs → IsSorted (list_delete xs)
    delete-IsSorted [] h = tt
    delete-IsSorted (y ∷ xs) (a, b) = elim (Bool-cases (eqb_ℤ (cmp key y) (pos 0))) [
      | inl equal ↦ rw equal b
      | inr unequal ↦ elim (Bool-cases (ltb_ℤ (pos 0) (cmp key y))) [
        | inl above ↦ rw (unequal, above) (AllLess-delete y xs a, delete-IsSorted xs b)
        | inr not_above ↦ rw (unequal, not_above) (a, b)
      ]
    ]
