-- ===== src/Env/Names.antt =====
-- src/env.c: names and the entries that have them.
use libcs.Prelude.{
  ℕ, ◌≡◌, ◌≢◌, ◌≤◌, refl, arith, true, false, none, some, List, [], ◌∷◌, ◌++◌, ◌==◌, length, inl,
  inr, Bool-cases, Option-cases,
}
use libcs.Prelude.Text.{eqb_list}
use libcs.Env.{name_part, bad_name, value_of}

-- The name has no '=' in it.
abbrev pub NoEquals : List ℕ → Type 0
NoEquals [] = Unit {0}
NoEquals (x ∷ s) = (x ≢ b'=') × NoEquals s

name_part-le : (s : List ℕ) → length (name_part s) ≤ length s
unfolding name_part
name_part-le [] = omega arith
name_part-le (x ∷ s) = ground (arith, name_part-le s)

whole_name : (s : List ℕ) → length s ≤ length (name_part s) → NoEquals s
unfolding name_part
whole_name [] h = tt
whole_name (x ∷ s) h = elim (Bool-cases (x == b'=')) [
  | inl e ↦ absurd (ground arith)
  | inr e ↦ (ground arith, whole_name s (ground arith))
]

pub name_part-NoEquals : (s : List ℕ) → NoEquals (name_part s)
unfolding name_part
name_part-NoEquals [] = tt
name_part-NoEquals (x ∷ s) = ground (arith, name_part-NoEquals s)

name_part_whole : (s : List ℕ) → NoEquals s → name_part s ≡ s
unfolding name_part
name_part_whole [] h = refl
name_part_whole (x ∷ s) h = ground (arith, name_part_whole s h.1)

pub good_name : (name : List ℕ) → bad_name name ≡ false → NoEquals name
unfolding bad_name
good_name name h = whole_name name (ground arith)

-- An entry has one name.
one_name :
    (m n t u v : List ℕ)
    → NoEquals m
    → NoEquals n
    → value_of m t ≡ some u
    → value_of n t ≡ some v
    → eqb_list m n ≡ true
unfolding value_of
one_name [] [] t u v h k e f = refl
one_name [] (y ∷ n) [] u v h k e f = absurd (cc)
one_name [] (y ∷ n) (z ∷ t) u v h k e f = ground arith
one_name (x ∷ m) [] [] u v h k e f = absurd (cc)
one_name (x ∷ m) [] (z ∷ t) u v h k e f = ground arith
one_name (x ∷ m) (y ∷ n) [] u v h k e f = absurd (cc)
one_name (x ∷ m) (y ∷ n) (z ∷ t) u v h k e f = ground (arith, one_name m n t u v h.1 k.1)

pub eqb_list_sound : (m n : List ℕ) → eqb_list m n ≡ true → m ≡ n
eqb_list_sound [] [] h = refl
eqb_list_sound [] (y ∷ n) h = absurd (cc)
eqb_list_sound (x ∷ m) [] h = absurd (cc)
eqb_list_sound (x ∷ m) (y ∷ n) h = ground (arith, eqb_list_sound m n)

pub value_of-entry : (name value : List ℕ) → value_of name (name ++ b'=' ∷ value) ≡ some value
unfolding value_of
value_of-entry [] value = refl
value_of-entry (x ∷ name) value = ground (arith, value_of-entry name value)

-- No entry has both names.
abbrev pub Apart : List ℕ → List ℕ → Type 0
Apart m name = (t v : List ℕ) → value_of name t ≡ some v → value_of m t ≡ none

pub names-Apart : (m n : List ℕ) → NoEquals m → NoEquals n → eqb_list m n ≡ false → Apart m n
names-Apart m n h k differ t v e = elim (Option-cases (value_of m t)) [
  | inl none_left ↦ none_left
  | inr (u, f) ↦ absurd (cc (one_name m n t u v h k f e, differ))
]

pub value_of_bare : (s : List ℕ) → value_of s s ≡ none
unfolding value_of
value_of_bare [] = refl
value_of_bare (x ∷ s) = ground (arith, value_of_bare s)

pub value_of-name_part :
    (s : List ℕ)
    → length (name_part s) ≢ length s
    → (v : List ℕ) × (value_of (name_part s) s ≡ some v)
unfolding value_of name_part
value_of-name_part [] h = absurd (h refl)
value_of-name_part (x ∷ s) h = elim (Bool-cases (x == b'=')) [
  | inl e ↦ (s, ground arith)
  | inr e ↦ let (v, p) = value_of-name_part s (λ q. h (ground arith)) in (v, ground arith)
]

pub bare_name : (s : List ℕ) → length (name_part s) ≡ length s → name_part s ≡ s
bare_name s h = name_part_whole s (whole_name s (omega arith))

pub not_bad : (t : List ℕ) → bad_name (name_part t) ≡ (length (name_part t) == 0)
unfolding bad_name
not_bad t = rw (name_part_whole (name_part t) (name_part-NoEquals t)) (ground arith)
