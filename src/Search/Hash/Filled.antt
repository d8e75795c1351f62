-- ===== src/Search/Hash/Filled.antt =====
-- src/search.c: probing ends, since it visits every slot and some are free.
use libcs.Prelude.{
  ℕ, zero, suc, ◌+◌, ◌%◌, ◌^◌, ◌<◌, ◌≤◌, ◌≡◌, ◌≢◌, refl, arith, ap, ◌∙◌, sym, ap₂, Option, none,
  some, List, [], ◌∷◌, get_or, set, length, Bool-cases, Option-cases, inl, inr,
}
use libcs.Prelude.Text.{eqb_list}
use libcs.Search.Hash.{Entry, lost, probe}
use libcs.Search.Hash.Triangular.{nth, nth-zero, nth-suc, nth-ne}

-- How many slots have an entry.
unfoldable pub occupied : List (Option Entry) → ℕ
occupied [] = 0
occupied (none ∷ e) = occupied e
occupied (some x ∷ e) = suc (occupied e)

pub occupied-set :
    (e : List (Option Entry)) (i : ℕ) (x : Entry)
    → i < length e
    → get_or e i none ≡ none
    → occupied (set e i (some x)) ≡ suc (occupied e)
unfolding occupied
occupied-set [] i x h f = absurd (omega arith)
occupied-set (none ∷ e) zero x h f = refl
occupied-set (some y ∷ e) zero x h f = absurd (cc)
occupied-set (none ∷ e) (suc i) x h f = occupied-set e i x (omega arith) f
occupied-set (some y ∷ e) (suc i) x h f = ap suc (occupied-set e i x (omega arith) f)

occupied-clear :
    (e : List (Option Entry)) (i : ℕ) (x : Entry)
    → get_or e i none ≡ some x
    → suc (occupied (set e i none)) ≡ occupied e
unfolding occupied
occupied-clear [] i x f = absurd (cc)
occupied-clear (none ∷ e) zero x f = absurd (cc)
occupied-clear (some y ∷ e) zero x f = refl
occupied-clear (none ∷ e) (suc i) x f = occupied-clear e i x f
occupied-clear (some y ∷ e) (suc i) x f = ap suc (occupied-clear e i x f)

pub get_or-set_ne :
    (e : List (Option Entry)) (i j : ℕ) (o : Option Entry)
    → i ≢ j
    → get_or (set e i o) j none ≡ get_or e j none
get_or-set_ne [] i j o h = refl
get_or-set_ne (x ∷ e) zero zero o h = absurd (h refl)
get_or-set_ne (x ∷ e) zero (suc j) o h = refl
get_or-set_ne (x ∷ e) (suc i) zero o h = refl
get_or-set_ne (x ∷ e) (suc i) (suc j) o h = get_or-set_ne e i j o (λ q. h (ap suc q))

-- The first `n` slots probed, all of them different and with an entry, are cleared in a copy of the table.
abbrev Cleared : List (Option Entry) → (k h n : ℕ) → Type 0
Cleared e k h n =
    (copy : List (Option Entry)) × (occupied copy + n ≡ occupied e)
    × ((j : ℕ) → ((i : ℕ) → i < n → nth (2 ^ k) h i ≢ j) → get_or copy j none ≡ get_or e j none)

cleared :
    (e : List (Option Entry)) (k h n : ℕ)
    → n ≤ 2 ^ k
    → ((i : ℕ) → i < n → (x : Entry) × (get_or e (nth (2 ^ k) h i) none ≡ some x))
    → Cleared e k h n
cleared e k h zero le all = (e, omega arith, λ j other. refl)
cleared e k h (suc n) le all =
    let (copy, sum, same) = cleared e k h n (omega arith) (λ i l. all i (omega arith)) in
    let (x, there) = all n (omega arith) in
    let slot = nth (2 ^ k) h n in
    let still : get_or copy slot none ≡ some x =
      same slot (λ i l q. nth-ne k h i n l (omega arith) q) ∙ there in
    (
      set copy slot none,
      omega (arith, sum, occupied-clear copy slot x still),
      λ j other.
          get_or-set_ne copy slot j none (other n (omega arith))
          ∙ same j (λ i l q. other i (omega arith) q),
    )

-- Probing that has not ended has found an entry in every slot.
lost_step :
    (rounds : ℕ) (e : List (Option Entry)) (mask k : ℕ) (key : List ℕ) (h n : ℕ)
    → mask + 1 ≡ 2 ^ k
    → probe (suc rounds) e mask key (nth (2 ^ k) h n) (suc n) ≡ lost
    → ((x : Entry) × (get_or e (nth (2 ^ k) h n) none ≡ some x))
      × (probe rounds e mask key (nth (2 ^ k) h (suc n)) (suc (suc n)) ≡ lost)
unfolding probe
lost_step rounds e mask k key h n size l = elim (Option-cases (get_or e (nth (2 ^ k) h n) none)) [
  | inl empty ↦ absurd (ground arith)
  | inr (x, there) ↦ elim (Bool-cases (eqb_list x.key key)) [
    | inl same ↦ absurd (ground arith)
    | inr other ↦ ((x, there), moved (ground arith))
  ]
]
  where
    moved :
        probe rounds e mask key ((nth (2 ^ k) h n + suc n) % (mask + 1)) (suc n + 1) ≡ lost
        → probe rounds e mask key (nth (2 ^ k) h (suc n)) (suc (suc n)) ≡ lost
    moved raw =
        let next : (nth (2 ^ k) h n + suc n) % (mask + 1) ≡ nth (2 ^ k) h (suc n) =
          ap (λ (m : ℕ). (nth (2 ^ k) h n + suc n) % m) size ∙ nth-suc (2 ^ k) h n in
        let step : suc n + 1 ≡ suc (suc n) = omega arith in
        ap₂ (probe rounds e mask key) (sym next) (sym step) ∙ raw

lost_all :
    (rounds : ℕ) (e : List (Option Entry)) (mask k : ℕ) (key : List ℕ) (h n : ℕ)
    → mask + 1 ≡ 2 ^ k
    → probe rounds e mask key (nth (2 ^ k) h n) (suc n) ≡ lost
    → (i : ℕ) → i < rounds
    → (x : Entry) × (get_or e (nth (2 ^ k) h (n + i)) none ≡ some x)
lost_all zero e mask k key h n size l i less = absurd (omega arith)
lost_all (suc rounds) e mask k key h n size l zero less =
    let (x, there) = (lost_step rounds e mask k key h n size l).0 in
    let same : n + 0 ≡ n = omega arith in
    (x, ap (λ (m : ℕ). get_or e (nth (2 ^ k) h m) none) same ∙ there)
lost_all (suc rounds) e mask k key h n size l (suc i) less =
    let l' = (lost_step rounds e mask k key h n size l).1 in
    let (x, there) = lost_all rounds e mask k key h (suc n) size l' i (omega arith) in
    let same : n + suc i ≡ suc n + i = omega arith in
    (x, ap (λ (m : ℕ). get_or e (nth (2 ^ k) h m) none) same ∙ there)

pub probe-ne-lost :
    (e : List (Option Entry)) (mask k : ℕ) (key : List ℕ) (h : ℕ)
    → mask + 1 ≡ 2 ^ k
    → occupied e < mask + 1
    → probe (mask + 1) e mask key (h % (mask + 1)) 1 ≢ lost
probe-ne-lost e mask k key h size room l =
    let start : h % (mask + 1) ≡ nth (2 ^ k) h 0 = first in
    let l' : probe (mask + 1) e mask key (nth (2 ^ k) h 0) 1 ≡ lost =
      ap (λ (i : ℕ). probe (mask + 1) e mask key i 1) (sym start) ∙ l in
    let full = λ (i : ℕ) (less : i < 2 ^ k). found l' i less in
    let (copy, sum, same) = cleared e k h (2 ^ k) (omega arith) full in omega (arith, sum, size)
  where
    first : h % (mask + 1) ≡ nth (2 ^ k) h 0
    first = nth-zero (mask + 1) h ∙ ap (λ (m : ℕ). nth m h 0) size

    found :
        probe (mask + 1) e mask key (nth (2 ^ k) h 0) 1 ≡ lost
        → (i : ℕ) → i < 2 ^ k
        → (x : Entry) × (get_or e (nth (2 ^ k) h i) none ≡ some x)
    found l' i less =
        let (x, there) = lost_all (mask + 1) e mask k key h 0 size l' i (omega (arith, size)) in
        let same : 0 + i ≡ i = omega arith in
        (x, ap (λ (m : ℕ). get_or e (nth (2 ^ k) h m) none) (sym same) ∙ there)
