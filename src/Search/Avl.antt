-- ===== src/Search/Avl.antt =====
-- src/search.c: the balanced trees of tsearch. A node's children are two trees and a null pointer is `nil`;
-- reading a field of `nil` is a fault. The stack of places `path` is the recursion: what the code does on
-- the way back up is what follows the call.
pub mod Balance
pub mod Ordered
pub mod Refine
pub mod Delete
pub mod Walk
mod Examples
use libcs.Prelude.{
  ℕ, zero, suc, ◌+◌, Bool, true, false, not, Option, none, some, List, [], ◌∷◌, ◌++◌, Run, ok,
  fault, ◌>>=◌, ltb, if◌then◌else◌,
}
use libcs.Prelude.Int.{ℤ, pos, ltb_ℤ, eqb_ℤ}

-- `struct node`: `key`, `a[0]`, `a[1]` and `h`.
pub data Tree {ℓ} (K : Type ℓ) : Type ℓ where
  nil : Tree K
  node : K → Tree K → Tree K → ℕ → Tree K

-- `VISIT`.
pub data Visit : Type 0 where
  preorder : Visit
  postorder : Visit
  endorder : Visit
  leaf : Visit

module _ {ℓ} {K : Type ℓ} where
  abbrev pub height : Tree K → ℕ
  height nil = 0
  height (node k l r h) = h

  -- A node whose `h` is set from its children.
  abbrev pub with_height : K → Tree K → Tree K → Tree K
  with_height k l r = node k l r (1 + (if ltb (height r) (height l) then height l else height r))

  -- `rot(n, 0)`: the right child becomes the root.
  unfoldable pub rot_left : Tree K → Run (Tree K)
  rot_left nil = fault
  rot_left (node k l nil h) = fault
  rot_left (node k l (node ck cl cr ch) h) = ok (with_height ck (with_height k l cl) cr)

  -- `rot(n, 1)`: the left child becomes the root.
  unfoldable pub rot_right : Tree K → Run (Tree K)
  rot_right nil = fault
  rot_right (node k nil r h) = fault
  rot_right (node k (node ck cl cr ch) r h) = ok (with_height ck cl (with_height k cr r))

  -- The child that a rotation lifts leans outwards, if need be by a rotation of its own.
  unfoldable pub lean_left : Tree K → Run (Tree K)
  lean_left nil = fault
  lean_left (node k l r h) =
      if ltb (height l) (height r) then rot_left (node k l r h) else ok (node k l r h)

  unfoldable pub lean_right : Tree K → Run (Tree K)
  lean_right nil = fault
  lean_right (node k l r h) =
      if ltb (height r) (height l) then rot_right (node k l r h) else ok (node k l r h)

  -- `balance(n)`.
  unfoldable pub balance : Tree K → Run (Tree K)
  balance nil = fault
  balance (node k l r h) =
      if ltb (height r + 1) (height l)
      then (lean_left l >>= λ c. rot_right (node k c r h))
      else (if ltb (height l + 1) (height r)
          then (lean_right r >>= λ c. rot_left (node k l c h))
          else ok (with_height k l r))

  -- The last nodes of a walk to the least key: that key, its `h`, and the tree without it.
  unfoldable pub take_min : K → Tree K → Tree K → ℕ → Run (K × ℕ × Tree K)
  take_min k nil r h = ok (k, h, r)
  take_min k (node lk ll lr lh) r h =
      take_min lk ll lr lh >>= λ (s, sh, l). balance (node k l r h) >>= λ t. ok (s, sh, t)

  -- The node found by `tdelete` is unlinked, or replaced by its successor.
  unfoldable pub unlink : Tree K → Tree K → Run (Tree K)
  unlink nil r = ok r
  unlink (node lk ll lr lh) nil = ok (node lk ll lr lh)
  unlink (node lk ll lr lh) (node rk rl rr rh) =
      take_min rk rl rr rh >>= λ (s, sh, r). balance (node s (node lk ll lr lh) r sh)

  -- `walk(n, act, level)`: the calls of `act`.
  unfoldable pub walk : Tree K → ℕ → List (Visit × K × ℕ)
  walk nil level = []
  walk (node k nil nil h) level = (leaf, k, level) ∷ []
  walk (node k nil (node rk rl rr rh) h) level =
      (preorder, k, level)
      ∷ (postorder, k, level)
      ∷ (walk (node rk rl rr rh) (level + 1) ++ (endorder, k, level) ∷ [])
  walk (node k (node lk ll lr lh) r h) level =
      (preorder, k, level)
      ∷ (walk (node lk ll lr lh) (level + 1)
          ++ (postorder, k, level) ∷ (walk r (level + 1) ++ (endorder, k, level) ∷ []))

  -- `tdestroy(root, freekey)`: the keys in the order in which they are freed.
  unfoldable pub tdestroy : Tree K → List K
  tdestroy nil = []
  tdestroy (node k l r h) = tdestroy l ++ (tdestroy r ++ k ∷ [])

  module _ (cmp : K → K → ℤ) (key : K) where
    -- `tfind(key, rootp, cmp)`: the key of the node found.
    unfoldable pub tfind : Tree K → Option K
    tfind nil = none
    tfind (node k l r h) =
        let left = tfind l in
        let right = tfind r in
        if eqb_ℤ (cmp key k) (pos 0)
        then some k
        else (if ltb_ℤ (pos 0) (cmp key k) then right else left)

-- The three ways in which the descent of `tsearch` ends.
pub data Insertion {ℓ} (K : Type ℓ) : Type ℓ where
  found : K → Insertion K
  no_memory : Insertion K
  grown : Tree K → Insertion K

-- `tdelete` finds nothing, or deletes a node below a parent, if it is not the root.
pub data Deletion {ℓ} (K : Type ℓ) : Type ℓ where
  missing : Deletion K
  deleted : Option K → Tree K → Deletion K

module _ {ℓ} {K : Type ℓ} where
  -- A changed subtree is put back under its node, which is balanced.
  abbrev pub regrow : (Tree K → Tree K) → Insertion K → Run (Insertion K)
  regrow f (found x) = ok (found x)
  regrow f no_memory = ok no_memory
  regrow f (grown t) = balance (f t) >>= λ u. ok (grown u)

  abbrev pub regraft : (Tree K → Tree K) → Deletion K → Run (Deletion K)
  regraft f missing = ok missing
  regraft f (deleted p t) = balance (f t) >>= λ u. ok (deleted p u)

  module _ (cmp : K → K → ℤ) (key : K) where
    unfoldable pub descend : Bool → Tree K → Run (Insertion K)
    descend room nil = ok (if room then grown (node key nil nil 1) else no_memory)
    descend room (node k l r h) =
        let left = descend room l >>= regrow (λ t. node k t r h) in
        let right = descend room r >>= regrow (λ t. node k l t h) in
        if eqb_ℤ (cmp key k) (pos 0)
        then ok (found k)
        else (if ltb_ℤ (pos 0) (cmp key k) then right else left)

    -- `tsearch(key, rootp, cmp)`: the key of the node returned, and the tree; `room` tells whether `malloc`
    -- succeeds.
    unfoldable pub tsearch : Bool → Tree K → Run (Option K × Tree K)
    tsearch room t = descend room t >>= λ i.
        ok (elim i [ found x ↦ (some x, t) | no_memory ↦ (none, t) | grown u ↦ (some key, u) ])

    -- `tdelete(key, rootp, cmp)`, below the node `parent`.
    unfoldable pub tdelete : Option K → Tree K → Run (Deletion K)
    tdelete parent nil = ok missing
    tdelete parent (node k l r h) =
        let left = tdelete (some k) l >>= regraft (λ t. node k t r h) in
        let right = tdelete (some k) r >>= regraft (λ t. node k l t h) in
        if eqb_ℤ (cmp key k) (pos 0)
        then (unlink l r >>= λ t. ok (deleted parent t))
        else (if ltb_ℤ (pos 0) (cmp key k) then right else left)
