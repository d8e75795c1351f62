-- ===== src/Search/Avl/Balance.antt =====
-- src/search.c: rotations and the shape of the trees.
use libcs.Prelude.{
  ℕ, ◌+◌, ◌≡◌, ◌<◌, ◌≤◌, refl, arith, ap, ◌∙◌, sym, max, false, Bool-cases, inl, inr, ◌⊎◌, List, [],
  ◌∷◌, ◌++◌, append_assoc, append-nil, Run, ok, ◌>>=◌, ltb, ltb→lt, if◌then◌else◌,
}
use libcs.Search.Avl.{
  Tree, nil, node, height, with_height, rot_left, rot_right, lean_left, lean_right, balance,
  take_min, unlink,
}

ltb→ge : (a b : ℕ) → ltb a b ≡ false → b ≤ a
ltb→ge a b h = ground arith

higher : (a b : ℕ) → (if ltb b a then a else b) ≡ max a b
higher a b = ground arith

module _ {ℓ} {K : Type ℓ} where
  -- The keys of a tree from left to right.
  abbrev pub keys : Tree K → List K
  keys nil = []
  keys (node k l r h) = keys l ++ k ∷ keys r

  -- Heights are right, and the two sides of a node differ by at most one.
  abbrev pub IsAvl : Tree K → Type 0
  IsAvl nil = Unit
  IsAvl (node k l r h) =
      (h ≡ 1 + max (height l) (height r))
      × (height l ≤ height r + 1)
      × (height r ≤ height l + 1)
      × IsAvl l
      × IsAvl r

  -- A balanced tree with these keys, of the height of the higher side or one more.
  abbrev pub Balanced : List K → ℕ → ℕ → Run (Tree K) → Type ℓ
  Balanced xs hl hr m =
      (t : Tree K) × (m ≡ ok t)
      × IsAvl t
      × (keys t ≡ xs)
      × (max hl hr ≤ height t)
      × (height t ≤ 1 + max hl hr)
      × ((height t ≡ 1 + max hl hr) ⊎ ((hl ≡ hr + 2) ⊎ (hr ≡ hl + 2)))

  with_height_lem :
      (k : K) (l r : Tree K)
      → IsAvl l
      → IsAvl r
      → height l ≤ height r + 1
      → height r ≤ height l + 1
      → IsAvl (with_height k l r) × (height (with_height k l r) ≡ 1 + max (height l) (height r))
  with_height_lem k l r a b c d =
      let e = ap suc' (higher (height l) (height r)) in ((e, c, d, a, b), e)
    where
      suc' : ℕ → ℕ
      suc' n = 1 + n

  lift_middle :
      (a b c d : List K) (x y z : K)
      → (a ++ x ∷ b) ++ y ∷ (c ++ z ∷ d) ≡ (a ++ x ∷ (b ++ y ∷ c)) ++ z ∷ d
  lift_middle a b c d x y z = simp append_assoc refl

  lift_right :
      (a b c d : List K) (x y z : K)
      → (a ++ x ∷ b) ++ y ∷ (c ++ z ∷ d) ≡ a ++ x ∷ ((b ++ y ∷ c) ++ z ∷ d)
  lift_right a b c d x y z = simp append_assoc refl

  heavy_left :
      (k : K) (l r : Tree K) (h : ℕ)
      → IsAvl l
      → IsAvl r
      → height l ≡ height r + 2
      → Balanced
          (keys l ++ k ∷ keys r)
          (height l)
          (height r)
          (lean_left l >>= λ c. rot_right (node k c r h))
  unfolding lean_left rot_left rot_right
  heavy_left k nil r h a b e = absurd (omega arith)
  heavy_left k (node ck cl nil ch) r h (c, c0, c1, cl', cr') b e =
      let outer : ltb (height cl) 0 ≡ false = ground arith in
      let (low, hlow) = with_height_lem k nil r cr' b (omega arith) (omega arith) in
      let (top, htop) =
        with_height_lem ck cl (with_height k nil r) cl' low (omega arith) (omega arith) in
      (
        with_height ck cl (with_height k nil r),
        rw outer refl,
        top,
        sym (append_assoc (keys cl) (ck ∷ []) (k ∷ keys r)),
        omega arith,
        omega arith,
        inr (inl e),
      )
  heavy_left k (node ck cl (node dk dl dr dh) ch) r h (c, c0, c1, cl', (d, d0, d1, dl', dr')) b e =
      elim (Bool-cases (ltb (height cl) dh)) [
        | inl inner ↦
            let far : height cl < dh = ltb→lt (height cl) dh inner in
            let (left, hleft) = with_height_lem ck cl dl cl' dl' (omega arith) (omega arith) in
            let (right, hright) = with_height_lem k dr r dr' b (omega arith) (omega arith) in
            let (top, htop) =
              with_height_lem dk (with_height ck cl dl) (with_height k dr r) left right
                (omega arith) (omega arith) in
            (
              with_height dk (with_height ck cl dl) (with_height k dr r),
              rw inner refl,
              top,
              lift_middle (keys cl) (keys dl) (keys dr) (keys r) ck dk k,
              omega arith,
              omega arith,
              inr (inl e),
            )
        | inr outer ↦
            let near : dh ≤ height cl = ltb→ge (height cl) dh outer in
            let (low, hlow) =
              with_height_lem k (node dk dl dr dh) r (d, d0, d1, dl', dr') b (omega arith)
                (omega arith) in
            let (top, htop) =
              with_height_lem ck cl (with_height k (node dk dl dr dh) r) cl' low (omega arith)
                (omega arith) in
            (
              with_height ck cl (with_height k (node dk dl dr dh) r),
              rw outer refl,
              top,
              sym (append_assoc (keys cl) (ck ∷ keys (node dk dl dr dh)) (k ∷ keys r)),
              omega arith,
              omega arith,
              inr (inl e),
            )
      ]

  heavy_right :
      (k : K) (l r : Tree K) (h : ℕ)
      → IsAvl l
      → IsAvl r
      → height r ≡ height l + 2
      → Balanced
          (keys l ++ k ∷ keys r)
          (height l)
          (height r)
          (lean_right r >>= λ c. rot_left (node k l c h))
  unfolding lean_right rot_left rot_right
  heavy_right k l nil h a b e = absurd (omega arith)
  heavy_right k l (node ck nil cr ch) h a (c, c0, c1, cl', cr') e =
      let outer : ltb (height cr) 0 ≡ false = ground arith in
      let (low, hlow) = with_height_lem k l nil a cl' (omega arith) (omega arith) in
      let (top, htop) =
        with_height_lem ck (with_height k l nil) cr low cr' (omega arith) (omega arith) in
      (
        with_height ck (with_height k l nil) cr,
        rw outer refl,
        top,
        append_assoc (keys l) (k ∷ []) (ck ∷ keys cr),
        omega arith,
        omega arith,
        inr (inr e),
      )
  heavy_right k l (node ck (node dk dl dr dh) cr ch) h a (c, c0, c1, (d, d0, d1, dl', dr'), cr') e =
      elim (Bool-cases (ltb (height cr) dh)) [
        | inl inner ↦
            let far : height cr < dh = ltb→lt (height cr) dh inner in
            let (left, hleft) = with_height_lem k l dl a dl' (omega arith) (omega arith) in
            let (right, hright) = with_height_lem ck dr cr dr' cr' (omega arith) (omega arith) in
            let (top, htop) =
              with_height_lem dk (with_height k l dl) (with_height ck dr cr) left right
                (omega arith) (omega arith) in
            (
              with_height dk (with_height k l dl) (with_height ck dr cr),
              rw inner refl,
              top,
              lift_right (keys l) (keys dl) (keys dr) (keys cr) k dk ck,
              omega arith,
              omega arith,
              inr (inr e),
            )
        | inr outer ↦
            let near : dh ≤ height cr = ltb→ge (height cr) dh outer in
            let (low, hlow) =
              with_height_lem k l (node dk dl dr dh) a (d, d0, d1, dl', dr') (omega arith)
                (omega arith) in
            let (top, htop) =
              with_height_lem ck (with_height k l (node dk dl dr dh)) cr low cr' (omega arith)
                (omega arith) in
            (
              with_height ck (with_height k l (node dk dl dr dh)) cr,
              rw outer refl,
              top,
              append_assoc (keys l) (k ∷ keys (node dk dl dr dh)) (ck ∷ keys cr),
              omega arith,
              omega arith,
              inr (inr e),
            )
      ]

  -- `balance` restores a node whose sides differ by two, and keeps its keys.
  pub balance-Balanced :
      (k : K) (l r : Tree K) (h : ℕ)
      → IsAvl l
      → IsAvl r
      → height l ≤ height r + 2
      → height r ≤ height l + 2
      → Balanced (keys l ++ k ∷ keys r) (height l) (height r) (balance (node k l r h))
  unfolding balance
  balance-Balanced k l r h a b c d = elim (Bool-cases (ltb (height r + 1) (height l))) [
    | inl left ↦
        let e = ltb→lt (height r + 1) (height l) left in
        rw left (heavy_left k l r h a b (omega arith))
    | inr not_left ↦
        let e = ltb→ge (height r + 1) (height l) not_left in
        elim (Bool-cases (ltb (height l + 1) (height r))) [
          | inl right ↦
              let g = ltb→lt (height l + 1) (height r) right in
              rw (not_left, right) (heavy_right k l r h a b (omega arith))
          | inr not_right ↦
              let g = ltb→ge (height l + 1) (height r) not_right in
              let (top, htop) = with_height_lem k l r a b e g in
              rw (not_left, not_right)
                (with_height k l r, refl, top, refl, omega arith, omega arith, inl htop)
        ]
  ]

  -- A node with balanced sides.
  abbrev pub Taken : K → Tree K → Tree K → Run (K × ℕ × Tree K) → Type ℓ
  Taken k l r m =
      (s : K) × (sh : ℕ) × (t : Tree K) × (m ≡ ok (s, sh, t))
      × IsAvl t
      × (s ∷ keys t ≡ keys l ++ k ∷ keys r)
      × (max (height l) (height r) ≤ height t)
      × (height t ≤ 1 + max (height l) (height r))

  pub take_min_lem :
      (k : K) (l r : Tree K) (h : ℕ) → IsAvl (node k l r h) → Taken k l r (take_min k l r h)
  unfolding take_min
  take_min_lem k nil r h (a, b, c, d, e) = (k, h, r, refl, e, refl, omega arith, omega arith)
  take_min_lem k (node lk ll lr lh) r h (a, b, c, d, e) =
      let (s, sh, t, run, avl, same, low, high) = take_min_lem lk ll lr lh d in
      let (u, run', avl', same', low', high', exact) =
        balance-Balanced k t r h avl e (omega arith) (omega arith) in
      (
        s,
        sh,
        u,
        rw (run, run') refl,
        avl',
        ap (λ xs. s ∷ xs) same' ∙ ap (λ xs. xs ++ k ∷ keys r) same,
        omega arith,
        omega arith,
      )

  -- The children of a deleted node, joined.
  pub unlink_lem :
      (k : K) (l r : Tree K) (h : ℕ)
      → IsAvl (node k l r h)
      → (t : Tree K) × (unlink l r ≡ ok t)
        × IsAvl t
        × (keys t ≡ keys l ++ keys r)
        × (max (height l) (height r) ≤ height t)
        × (height t ≤ 1 + max (height l) (height r))
  unfolding unlink
  unlink_lem k nil r h (a, b, c, d, e) = (r, refl, e, refl, omega arith, omega arith)
  unlink_lem k (node lk ll lr lh) nil h (a, b, c, d, e) = (
    node lk ll lr lh,
    refl,
    d,
    sym (append-nil (keys (node lk ll lr lh))),
    omega arith,
    omega arith,
  )
  unlink_lem k (node lk ll lr lh) (node rk rl rr rh) h (a, b, c, d, e) =
      let (s, sh, t, run, avl, same, low, high) = take_min_lem rk rl rr rh e in
      let (u, run', avl', same', low', high', exact) =
        balance-Balanced s (node lk ll lr lh) t sh d avl (omega arith) (omega arith) in
      (
        u,
        rw (run, run') refl,
        avl',
        same' ∙ ap (λ xs. keys (node lk ll lr lh) ++ xs) same,
        omega arith,
        omega arith,
      )
