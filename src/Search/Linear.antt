-- ===== src/Search/Linear.antt =====
-- src/search.c: linear search in an array of elements, and queues of linked elements.
use libcs.Prelude.{ℕ, suc, Option, none, some, List, [], ◌∷◌, ◌++◌, ◌==◌, if◌then◌else◌, length}
use libcs.Prelude.Int.{ℤ, pos, eqb_ℤ}

module _ {ℓ} {A : Type ℓ} (cmp : A → A → ℤ) (key : A) where
  -- `lfind(key, base, nel, width, cmp)`: the index of the element.
  unfoldable pub lfind : List A → Option ℕ
  lfind [] = none
  lfind (x ∷ base) =
      let rest : Option ℕ = elim (lfind base) [ none ↦ none | some i ↦ some (suc i) ] in
      if eqb_ℤ (cmp key x) (pos 0) then some 0 else rest

  -- `lsearch(key, base, nel, width, cmp)`: the index, and the array, which has room for one element more.
  unfoldable pub lsearch : List A → ℕ × List A
  lsearch base = elim (lfind base) [ none ↦ (length base, base ++ key ∷ []) | some i ↦ (i, base) ]

-- `struct qelem` at an address; 0 is the null pointer.
pub record Qelem : Type 0 where
  pub next : ℕ
  pub prev : ℕ

abbrev pub Store : Type 0
Store = ℕ → Qelem

abbrev pub update : Store → ℕ → Qelem → Store
update st a q b = if a == b then q else st b

abbrev pub set_next : Store → ℕ → ℕ → Store
set_next st a n = update st a (record { next = n; prev = (st a).prev })

abbrev pub set_prev : Store → ℕ → ℕ → Store
set_prev st a p = update st a (record { next = (st a).next; prev = p })

-- `insque(elem, pred)`.
unfoldable pub insque : ℕ → ℕ → Store → Store
insque e p st =
    if p == 0
    then update st e (record { next = 0; prev = 0 })
    else (let after = (st p).next in
        let linked = set_next (update st e (record { next = after; prev = p })) p e in
        if (linked e).next == 0 then linked else set_prev linked (linked e).next e)

-- `remque(elem)`.
unfoldable pub remque : ℕ → Store → Store
remque e st =
    let back = if (st e).next == 0 then st else set_prev st (st e).next (st e).prev in
    if (back e).prev == 0 then back else set_next back (back e).prev (back e).next
