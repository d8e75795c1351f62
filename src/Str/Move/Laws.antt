-- ===== src/Str/Move/Laws.antt =====
-- src/string.c: what memmove moves.
use libcs.Prelude.{
  get_elem?-lt, ℕ, zero, suc, ◌+◌, ◌-◌, ◌≡◌, ◌<◌, ◌≤◌, refl, arith, ap, sym, ◌∙◌, inl, inr, ◌⊎◌,
  some, List, [], ◌∷◌, Run, ok, length, length-set, get_elem?, set, get_elem?-set_self,
  get_elem?-set_ne,
}
use native.Mathlib.Decide.{dec_lt}
use libcs.Str.Move.{load, write, copy}

-- The `n` bytes at `d` are those that were at `s`, and all others are as they were.
pub record Moved (d s n : ℕ) (m m' : List ℕ) : Type 0 where
  pub same_length : length m' ≡ length m
  pub inside : (j : ℕ) → j < n → get_elem? m' (d + j) ≡ get_elem? m (s + j)
  pub outside : (i : ℕ) → (i < d) ⊎ (d + n ≤ i) → get_elem? m' i ≡ get_elem? m i

load_lem :
    (s k : ℕ) (m : List ℕ)
    → s + k ≤ length m
    → (bs : List ℕ) × (load s k m ≡ ok bs)
      × (length bs ≡ k)
      × ((j : ℕ) → j < k → get_elem? bs j ≡ get_elem? m (s + j))
unfolding load
load_lem s zero m h = ([], refl, refl, λ j k. absurd (omega arith))
load_lem s (suc k) m h =
    let (b, e) = get_elem?-lt m s (omega arith) in
    let (bs, e', size, same) = load_lem (suc s) k m (omega arith) in
    (b ∷ bs, rw (e, e') refl, omega arith, values b bs e same)
  where
    values :
        (b : ℕ) (bs : List ℕ)
        → get_elem? m s ≡ some b
        → ((j : ℕ) → j < k → get_elem? bs j ≡ get_elem? m (suc s + j))
        → (j : ℕ) → j < suc k
        → get_elem? (b ∷ bs) j ≡ get_elem? m (s + j)
    values b bs e same zero l = sym e ∙ ap (get_elem? m) (omega arith)
    values b bs e same (suc j) l = same j (omega arith) ∙ ap (get_elem? m) (omega arith)

write_lem :
    (d : ℕ) (bs m : List ℕ)
    → d + length bs ≤ length m
    → (m' : List ℕ) × (write d bs m ≡ ok m')
      × (length m' ≡ length m)
      × ((j : ℕ) → j < length bs → get_elem? m' (d + j) ≡ get_elem? bs j)
      × ((i : ℕ) → (i < d) ⊎ (d + length bs ≤ i) → get_elem? m' i ≡ get_elem? m i)
unfolding write
write_lem d [] m h = (m, refl, refl, (λ j k. absurd (omega arith)), λ i k. refl)
write_lem d (b ∷ bs) m h =
    let (x, e) = get_elem?-lt m d (omega arith) in
    let (m', e', size, inside, outside) =
      write_lem (suc d) bs (set m d b) (omega (arith, length-set m d b)) in
    (m', rw (e, e') refl, size ∙ length-set m d b, first m' inside outside, rest m' outside)
  where
    first :
        (m' : List ℕ)
        → ((j : ℕ) → j < length bs → get_elem? m' (suc d + j) ≡ get_elem? bs j)
        → ((i : ℕ)
            → (i < suc d) ⊎ (suc d + length bs ≤ i)
            → get_elem? m' i ≡ get_elem? (set m d b) i)
        → (j : ℕ) → j < suc (length bs)
        → get_elem? m' (d + j) ≡ get_elem? (b ∷ bs) j
    first m' inside outside zero k =
        ap (get_elem? m') (omega arith)
        ∙ outside d (inl (omega arith))
        ∙ get_elem?-set_self m d b (omega arith)
    first m' inside outside (suc j) k = ap (get_elem? m') (omega arith) ∙ inside j (omega arith)

    rest :
        (m' : List ℕ)
        → ((i : ℕ)
            → (i < suc d) ⊎ (suc d + length bs ≤ i)
            → get_elem? m' i ≡ get_elem? (set m d b) i)
        → (i : ℕ) → (i < d) ⊎ (d + suc (length bs) ≤ i)
        → get_elem? m' i ≡ get_elem? m i
    rest m' outside i (inl k) = outside i (inl (omega arith)) ∙ get_elem?-set_ne m b (omega arith)
    rest m' outside i (inr k) = outside i (inr (omega arith)) ∙ get_elem?-set_ne m b (omega arith)

pub copy-Moved :
    (d s k : ℕ) (m : List ℕ)
    → d + k ≤ length m
    → s + k ≤ length m
    → (m' : List ℕ) × (copy d s k m ≡ ok m') × Moved d s k m m'
unfolding copy
copy-Moved d s k m h l =
    let (bs, e, size, values) = load_lem s k m l in
    let (m', e', same, inside, outside) = write_lem d bs m (omega arith) in
    (
      m',
      rw (e, e') refl,
      record {
        same_length = same;
        inside = λ j small. inside j (omega arith) ∙ values j small;
        outside = λ i away. outside i (elim away as (λ _. (i < d) ⊎ (d + length bs ≤ i)) [
          | inl x ↦ inl x
          | inr x ↦ inr (omega arith)
        ]);
      },
    )

abbrev pub Moves : ℕ → ℕ → ℕ → List ℕ → Run (List ℕ) → Type 0
Moves d s n m run = (m' : List ℕ) × (run ≡ ok m') × Moved d s n m m'

pub Moved-zero : (d s : ℕ) (m : List ℕ) → Moved d s 0 m m
Moved-zero d s m = record {
  same_length = refl;
  inside = λ j k. absurd (omega arith);
  outside = λ i k. refl;
}

-- The upper part first, to higher places; the lowest byte first, to lower places or far ones.
pub upper_first :
    (d s n k : ℕ) (m m1 m2 : List ℕ)
    → s ≤ d
    → Moved (d + n) (s + n) k m m1
    → Moved d s n m1 m2
    → Moved d s (n + k) m m2
upper_first d s n k m m1 m2 h a b = record {
  same_length = b.same_length ∙ a.same_length;
  inside = λ j small. elim (dec_lt j n) [
    | yes low ↦ b.inside j low ∙ a.outside (s + j) (inl (omega arith))
    | no high ↦
        b.outside (d + j) (inr (omega arith))
        ∙ ap (get_elem? m1) (omega arith)
        ∙ a.inside (j - n) (omega arith)
        ∙ ap (get_elem? m) (omega arith)
  ];
  outside = λ i away. b.outside i (outer i away) ∙ a.outside i (far i away);
}
  where
    outer : (i : ℕ) → (i < d) ⊎ (d + (n + k) ≤ i) → (i < d) ⊎ (d + n ≤ i)
    outer i (inl x) = inl x
    outer i (inr x) = inr (omega arith)

    far : (i : ℕ) → (i < d) ⊎ (d + (n + k) ≤ i) → (i < d + n) ⊎ (d + n + k ≤ i)
    far i (inl x) = inl (omega arith)
    far i (inr x) = inr (omega arith)

pub lowest_first :
    (d s n : ℕ) (m m1 m2 : List ℕ)
    → (d ≤ s) ⊎ (s + suc n ≤ d)
    → Moved d s 1 m m1
    → Moved (suc d) (suc s) n m1 m2
    → Moved d s (suc n) m m2
lowest_first d s n m m1 m2 h a b = record {
  same_length = b.same_length ∙ a.same_length;
  inside = moved;
  outside = λ i away. b.outside i (outer i away) ∙ a.outside i (near i away);
}
  where
    outer : (i : ℕ) → (i < d) ⊎ (d + suc n ≤ i) → (i < suc d) ⊎ (suc d + n ≤ i)
    outer i (inl x) = inl (omega arith)
    outer i (inr x) = inr (omega arith)

    near : (i : ℕ) → (i < d) ⊎ (d + suc n ≤ i) → (i < d) ⊎ (d + 1 ≤ i)
    near i (inl x) = inl x
    near i (inr x) = inr (omega arith)

    clear : (j : ℕ) → j < n → (d ≤ s) ⊎ (s + suc n ≤ d) → (suc s + j < d) ⊎ (d + 1 ≤ suc s + j)
    clear j k (inl x) = inr (omega arith)
    clear j k (inr x) = inl (omega arith)

    moved : (j : ℕ) → j < suc n → get_elem? m2 (d + j) ≡ get_elem? m (s + j)
    moved zero k = b.outside (d + 0) (inl (omega arith)) ∙ a.inside 0 (omega arith)
    moved (suc j) k =
        ap (get_elem? m2) (omega arith)
        ∙ b.inside j (omega arith)
        ∙ a.outside (suc s + j) (clear j (omega arith) h)
        ∙ ap (get_elem? m) (omega arith)
