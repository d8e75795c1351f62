-- ===== src/Env/Counts.antt =====
-- src/env.c: how often an address stands among the owned strings, the freed ones and the entries.
use libcs.Prelude.{
  ℕ, ◌+◌, ◌≡◌, refl, arith, Bool, true, Option, none, some, List, [], ◌∷◌, ◌++◌, ltb, ◌==◌,
  if◌then◌else◌, Bool-cases, Option-cases, inl, inr, ◌&&◌,
}
use libcs.Env.{
  Entry, Env, entries, value_of, is_some, is_owned, last_first, disown, release, replace,
  append_entry, env_put,
}

unfoldable pub count : ℕ → List ℕ → ℕ
count b [] = 0
count b (x ∷ xs) = (if x == b then 1 else 0) + count b xs

-- How often the address `b` stands among the entries.
unfoldable pub uses : ℕ → List Entry → ℕ
uses b [] = 0
uses b (e ∷ es) = (if e.address == b then 1 else 0) + uses b es

pub count-append : (b : ℕ) (xs ys : List ℕ) → count b (xs ++ ys) ≡ count b xs + count b ys
unfolding count
count-append b [] ys = omega arith
count-append b (x ∷ xs) ys = ground (arith, count-append b xs ys)

uses-append : (b : ℕ) (xs ys : List Entry) → uses b (xs ++ ys) ≡ uses b xs + uses b ys
unfolding uses
uses-append b [] ys = omega arith
uses-append b (x ∷ xs) ys = ground (arith, uses-append b xs ys)

count-last_first : (b : ℕ) (xs : List ℕ) → count b (last_first xs) ≡ count b xs
unfolding count last_first
count-last_first b [] = refl
count-last_first b (x ∷ xs) = ground (arith, count-last_first b xs)

is_owned-count : (a : ℕ) (xs : List ℕ) → is_owned a xs ≡ ltb 0 (count a xs)
unfolding count is_owned
is_owned-count a [] = refl
is_owned-count a (x ∷ xs) = ground (arith, is_owned-count a xs)

count-disown :
    (a b : ℕ) (xs : List ℕ)
    → is_owned a xs ≡ true
    → count b (disown a xs) + (if a == b then 1 else 0) ≡ count b xs
unfolding count is_owned disown
count-disown a b [] h = absurd (cc)
count-disown a b (x ∷ xs) h = ground (arith, count-disown a b xs, count-last_first b xs)

-- One string moves from the owned to the freed ones, if it is owned.
pub release-counts :
    (a b : ℕ) (env : Env)
    → (count b (release a env).owned + (if (a == b) && ltb 0 (count b env.owned) then 1 else 0)
        ≡ count b env.owned)
      × (count b (release a env).freed
          ≡ count b env.freed + (if (a == b) && ltb 0 (count b env.owned) then 1 else 0))
unfolding release count
release-counts a b env = elim (Bool-cases (is_owned a env.owned)) [
  | inl h ↦ (
    ground (arith, count-disown a b env.owned h, is_owned-count a env.owned),
    ground (arith, is_owned-count a env.owned),
  )
  | inr h ↦ (ground (arith, is_owned-count a env.owned), ground (arith, is_owned-count a env.owned))
]

replace-uses :
    (name : List ℕ) (s : Entry) (b : ℕ) (es : List Entry) (old : Entry) (rest : List Entry)
    → replace name s es ≡ some (old, rest)
    → uses b rest + (if old.address == b then 1 else 0)
      ≡ uses b es + (if s.address == b then 1 else 0)
unfolding replace uses
replace-uses name s b [] old rest r = absurd (cc)
replace-uses name s b (x ∷ es) old rest r = elim (Bool-cases (is_some (value_of name x.text))) [
  | inl h ↦ ground arith
  | inr h ↦ elim (Option-cases (replace name s es)) [
    | inl p ↦ absurd (ground arith)
    | inr ((o, es'), p) ↦ ground (arith, replace-uses name s b es o es' p)
  ]
]

abbrev pub stands_at : Option Entry → ℕ → ℕ
stands_at none b = 0
stands_at (some e) b = if e.address == b then 1 else 0

pub env_put-counts :
    (room : Bool) (name : List ℕ) (s : Entry) (b : ℕ) (env : Env) (old : Option Entry) (env' : Env)
    → env_put room name s true env ≡ some (old, env')
    → (env'.owned ≡ env.owned)
      × (env'.freed ≡ env.freed)
      × (uses b (entries env'.environ) + stands_at old b
          ≡ uses b (entries env.environ) + (if s.address == b then 1 else 0))
unfolding env_put append_entry uses
env_put-counts room name s b env old env' r =
    elim (Option-cases (replace name s (entries env.environ))) [
      | inl p ↦
          (ground arith, ground arith, ground (arith, uses-append b (entries env.environ) (s ∷ [])))
      | inr ((o, es), p) ↦ (
        ground arith,
        ground arith,
        ground (arith, replace-uses name s b (entries env.environ) o es p),
      )
    ]
