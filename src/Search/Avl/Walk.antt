-- ===== src/Search/Avl/Walk.antt =====
-- src/search.c: twalk and tdestroy pass every node.
use mathlib.Core.List.{Perm, perm_middle}
use mathlib.Core.List.Perm
use libcs.Prelude.{ℕ, ◌+◌, ◌≡◌, refl, ap, ◌∙◌, sym, subst, List, [], ◌∷◌, ◌++◌, append-nil}
use libcs.Search.Avl.{Tree, nil, node, Visit, preorder, postorder, endorder, leaf, walk, tdestroy}
use libcs.Search.Avl.Balance.{keys}

module _ {ℓ} {K : Type ℓ} where
  -- The keys of the visits between a node's children, and of the leaves.
  abbrev pub in_between : List (Visit × K × ℕ) → List K
  in_between [] = []
  in_between ((preorder, k, n) ∷ vs) = in_between vs
  in_between ((postorder, k, n) ∷ vs) = k ∷ in_between vs
  in_between ((endorder, k, n) ∷ vs) = in_between vs
  in_between ((leaf, k, n) ∷ vs) = k ∷ in_between vs

  in_between-append :
      (vs ws : List (Visit × K × ℕ)) → in_between (vs ++ ws) ≡ in_between vs ++ in_between ws
  in_between-append [] ws = refl
  in_between-append ((preorder, k, n) ∷ vs) ws = in_between-append vs ws
  in_between-append ((postorder, k, n) ∷ vs) ws = ap (λ xs. k ∷ xs) (in_between-append vs ws)
  in_between-append ((endorder, k, n) ∷ vs) ws = in_between-append vs ws
  in_between-append ((leaf, k, n) ∷ vs) ws = ap (λ xs. k ∷ xs) (in_between-append vs ws)

  ends :
      (vs : List (Visit × K × ℕ)) (k : K) (n : ℕ)
      → in_between (vs ++ (endorder, k, n) ∷ []) ≡ in_between vs
  ends vs k n = in_between-append vs ((endorder, k, n) ∷ []) ∙ append-nil (in_between vs)

  -- `twalk` visits the leaves, and the other nodes between their subtrees, in the order of the keys.
  pub walk-keys : (t : Tree K) (n : ℕ) → in_between (walk t n) ≡ keys t
  unfolding walk
  walk-keys nil n = refl
  walk-keys (node k nil nil h) n = refl
  walk-keys (node k nil (node rk rl rr rh) h) n =
      ap (λ xs. k ∷ xs)
        (ends (walk (node rk rl rr rh) (n + 1)) k n ∙ walk-keys (node rk rl rr rh) (n + 1))
  walk-keys (node k (node lk ll lr lh) r h) n =
      in_between-append (walk (node lk ll lr lh) (n + 1))
        ((postorder, k, n) ∷ (walk r (n + 1) ++ (endorder, k, n) ∷ []))
      ∙ ap (λ xs. xs ++ k ∷ in_between (walk r (n + 1) ++ (endorder, k, n) ∷ []))
          (walk-keys (node lk ll lr lh) (n + 1))
      ∙ ap (λ xs. keys (node lk ll lr lh) ++ k ∷ xs)
          (ends (walk r (n + 1)) k n ∙ walk-keys r (n + 1))

  -- `tdestroy` frees every node once.
  pub tdestroy-Perm : (t : Tree K) → Perm (tdestroy t) (keys t)
  unfolding tdestroy
  tdestroy-Perm nil = Perm.nil
  tdestroy-Perm (node k l r h) = Perm.append (tdestroy-Perm l) (
      Perm.trans (perm_middle (tdestroy r) []) (
        Perm.cons k
          (subst (λ xs. Perm xs (keys r)) (sym (append-nil (tdestroy r))) (tdestroy-Perm r))))
