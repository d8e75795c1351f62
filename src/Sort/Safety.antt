-- ===== src/Sort/Safety.antt =====
-- src/qsort.c: termination and memory safety of the sort, whatever the comparison function.
pub mod Heap
pub mod Quick
use mathlib.Core.List.Perm
use libcs.Prelude.{
  get_elem?-lt, ℕ, zero, suc, ◌+◌, ◌-◌, ◌≡◌, ◌<◌, ◌≤◌, refl, arith, ap, ◌∙◌, Bool-cases, inl, inr,
  some, List, [], ◌∷◌, Run, ok, fault, ◌>>=◌, ltb, if◌then◌else◌, length, get_elem?,
}
use libcs.Prelude.Int.{ℤ, pos, ltb_ℤ}
use libcs.Sort.{swap, compare_at, sink, insert_from, insertion}
use libcs.Sort.Permute.{Permutes, swap-Permutes}

module _ {ℓ} {A : Type ℓ} where
  -- The code returns, in bounds, with a permutation of `xs`.
  abbrev pub Rearranges : List A → Run (List A) → Type ℓ
  Rearranges xs m = (ys : List A) × (m ≡ ok ys) × Permutes xs ys

  pub Permutes-trans : (xs ys zs : List A) → Permutes xs ys → Permutes ys zs → Permutes xs zs
  Permutes-trans xs ys zs (p, e) (q, f) = (Perm.trans p q, f ∙ e)

  pub same-Rearranges : (xs : List A) → Rearranges xs (ok xs)
  same-Rearranges xs = (xs, refl, (Perm.refl xs, refl))

  pub bind-Rearranges :
      {xs : List A} {m : Run (List A)} {f : List A → Run (List A)}
      → Rearranges xs m
      → ((ys : List A) → length ys ≡ length xs → Rearranges ys (f ys))
      → Rearranges xs (m >>= f)
  bind-Rearranges {xs = xs} {f = f} (ys, e, p) k =
      let (zs, e', q) = k ys p.1 in (zs, rw (e, e') refl, Permutes-trans xs ys zs p q)

  pub swap-Rearranges :
      (xs : List A) (i j : ℕ) → i < length xs → j < length xs → Rearranges xs (swap i j xs)
  swap-Rearranges xs i j h k = swap-Permutes xs i j h k

module _ {ℓ} {A : Type ℓ} (cmp : A → A → ℤ) where
  pub compare_at_lem :
      (xs : List A) (i j : ℕ)
      → i < length xs
      → j < length xs
      → (d : ℤ) × (compare_at cmp i j xs ≡ ok d)
  unfolding compare_at
  compare_at_lem xs i j h k =
      let (a, ea) = get_elem?-lt xs i h in
      let (b, eb) = get_elem?-lt xs j k in (cmp a b, rw (ea, eb) refl)

  sink-Rearranges :
      (base j : ℕ) (xs : List A) → base + j < length xs → Rearranges xs (sink cmp base j xs)
  unfolding sink
  sink-Rearranges base zero xs h = same-Rearranges xs
  sink-Rearranges base (suc j) xs h =
      let (d, e) = compare_at_lem xs (base + j) (base + suc j) (omega arith) h in
      elim (Bool-cases (ltb_ℤ (pos 0) d)) [
        | inl greater ↦
            rw (e, greater)
              (bind-Rearranges (swap-Rearranges xs (base + j) (base + suc j) (omega arith) h)
                (λ ys same. sink-Rearranges base j ys (omega arith)))
        | inr fine ↦ rw (e, fine) (same-Rearranges xs)
      ]

  insert_from-Rearranges :
      (base i k : ℕ) (xs : List A)
      → base + (i + k) ≤ length xs
      → Rearranges xs (insert_from cmp base i k xs)
  unfolding insert_from
  insert_from-Rearranges base i zero xs h = same-Rearranges xs
  insert_from-Rearranges base i (suc k) xs h =
      bind-Rearranges (sink-Rearranges base i xs (omega arith))
        (λ ys same. insert_from-Rearranges base (suc i) k ys (omega arith))

  pub insertion-Rearranges :
      (base n : ℕ) (xs : List A) → base + n ≤ length xs → Rearranges xs (insertion cmp base n xs)
  unfolding insertion insert_from
  insertion-Rearranges base zero xs h = same-Rearranges xs
  insertion-Rearranges base (suc n) xs h =
      insert_from-Rearranges base 1 (suc n - 1) xs (omega arith)
