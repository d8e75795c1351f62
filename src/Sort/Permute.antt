-- ===== src/Sort/Permute.antt =====
-- src/qsort.c: the exchange of two elements is a permutation.
use mathlib.Core.List.{Perm}
use mathlib.Core.List.Perm
use libcs.Prelude.{
  get_elem?-lt, ℕ, zero, suc, ◌≡◌, ◌≢◌, ◌<◌, refl, arith, ap, ◌∙◌, sym, subst, Bool-cases, inl, inr,
  some, List, [], ◌∷◌, ok, ◌==◌, length, length-set, get_elem?, set,
}
use libcs.Sort.{swap}

module _ {ℓ} {A : Type ℓ} where
  pub some_value : {a b : A} → some a ≡ some b → a ≡ b
  some_value h = cc

  exchange :
      (a b : A) (ys : List A) (j : ℕ) → get_elem? ys j ≡ some b → Perm (a ∷ ys) (b ∷ set ys j a)
  exchange a b [] j h = absurd (cc)
  exchange a b (y ∷ ys) zero h =
      subst (λ b. Perm (a ∷ y ∷ ys) (b ∷ a ∷ ys)) (some_value h) (Perm.swap y a ys)
  exchange a b (y ∷ ys) (suc j) h =
      Perm.trans (Perm.swap y a ys)
        (Perm.trans (Perm.cons y (exchange a b ys j h)) (Perm.swap b y (set ys j a)))

  set-Perm :
      (xs : List A) (i j : ℕ) (a b : A)
      → i ≢ j
      → get_elem? xs i ≡ some a
      → get_elem? xs j ≡ some b
      → Perm xs (set (set xs i b) j a)
  set-Perm [] i j a b n h k = absurd (cc)
  set-Perm (x ∷ xs) zero zero a b n h k = absurd (n refl)
  set-Perm (x ∷ xs) zero (suc j) a b n h k =
      subst (λ x. Perm (x ∷ xs) (b ∷ set xs j a)) (sym (some_value h)) (exchange a b xs j k)
  set-Perm (x ∷ xs) (suc i) zero a b n h k =
      subst (λ x. Perm (x ∷ xs) (a ∷ set xs i b)) (sym (some_value k)) (exchange b a xs i h)
  set-Perm (x ∷ xs) (suc i) (suc j) a b n h k =
      Perm.cons x (set-Perm xs i j a b (λ e. n (ap suc e)) h k)

  -- The same elements in the same number of places.
  abbrev pub Permutes : List A → List A → Type ℓ
  Permutes xs ys = Perm xs ys × (length ys ≡ length xs)

  pub swap-Permutes :
      (xs : List A) (i j : ℕ)
      → i < length xs
      → j < length xs
      → (ys : List A) × (swap i j xs ≡ ok ys) × Permutes xs ys
  unfolding swap
  swap-Permutes xs i j h k = elim (Bool-cases (i == j)) [
    | inl same ↦ (xs, rw same refl, (Perm.refl xs, refl))
    | inr differ ↦
        let (a, ea) = get_elem?-lt xs i h in
        let (b, eb) = get_elem?-lt xs j k in
        (
          set (set xs i b) j a,
          rw (differ, ea, eb) refl,
          (
            set-Perm xs i j a b (ground arith) ea eb,
            length-set (set xs i b) j a ∙ length-set xs i b,
          ),
        )
  ]
