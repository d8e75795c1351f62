-- ===== src/Env/Releases.antt =====
-- src/env.c: what runs of releases do to the counts at an address.
use libcs.Prelude.{
  ℕ, ◌+◌, ◌≡◌, ◌≤◌, ◌<◌, refl, arith, Bool, List, [], ◌∷◌, ltb, ◌==◌, if◌then◌else◌, Bool-cases,
  inl, inr, ◌⊎◌, ◌&&◌,
}
use libcs.Env.{Entry, Env, entries, value_of, is_some, release, drop_named, release_all}
use libcs.Env.Counts.{count, uses, release-counts}

-- At the address `b`: it is owned or freed at most once and not both, no entry points to it if it is
-- freed, and at most one does if it is owned.
abbrev pub Counted : (owned freed used : ℕ) → Type 0
Counted o f e = (o + f ≤ 1) × (0 < e → f ≡ 0) × (0 < o → e ≤ 1)

abbrev pub IsSoundAt : ℕ → Env → Type 0
IsSoundAt b env = Counted (count b env.owned) (count b env.freed) (uses b (entries env.environ))

-- What a run of releases does to the counts at `b`: nothing, or the string is freed and an entry is gone.
abbrev pub Moved : (o f e o' f' e' : ℕ) → Type 0
Moved o f e o' f' e' =
    ((o' ≡ o) × (f' ≡ f) × (e' ≤ e)) ⊎ ((o' + 1 ≡ o) × (f' ≡ f + 1) × (e' + 1 ≤ e))

pub Moved-Counted : (o f e o' f' e' : ℕ) → Moved o f e o' f' e' → Counted o f e → Counted o' f' e'
Moved-Counted o f e o' f' e' (inl m) c = ground arith
Moved-Counted o f e o' f' e' (inr m) c = ground arith

Moved-keep : (o f e o' f' e' k : ℕ) → Moved o f e o' f' e' → Moved o f (k + e) o' f' (k + e')
Moved-keep o f e o' f' e' k (inl m) = inl (ground arith)
Moved-keep o f e o' f' e' k (inr m) = inr (ground arith)

-- The first of the entries is released.
module _ (same : Bool) (o f e o1 f1 : ℕ) (c : Counted o f ((if same then 1 else 0) + e))
    (less : o1 + (if same && ltb 0 o then 1 else 0) ≡ o)
    (more : f1 ≡ f + (if same && ltb 0 o then 1 else 0)) where
  released-Counted : Counted o1 f1 e
  released-Counted = ground arith

  Moved-release :
      (o' f' e' : ℕ) → Moved o1 f1 e o' f' e' → Moved o f ((if same then 1 else 0) + e) o' f' e'
  Moved-release o' f' e' (inl m) = elim (Bool-cases (same && ltb 0 o)) [
    | inl h ↦ inr (ground arith)
    | inr h ↦ inl (ground arith)
  ]
  Moved-release o' f' e' (inr m) = inr (ground arith)

pub drop_named-Moved :
    (name : List ℕ) (b : ℕ) (es : List Entry) (env : Env)
    → Counted (count b env.owned) (count b env.freed) (uses b es)
    → Moved
        (count b env.owned)
        (count b env.freed)
        (uses b es)
        (count b (drop_named name es env).1.owned)
        (count b (drop_named name es env).1.freed)
        (uses b (drop_named name es env).0)
unfolding drop_named uses
drop_named-Moved name b [] env c = inl (refl, refl, omega arith)
drop_named-Moved name b (x ∷ es) env c = elim (Bool-cases (is_some (value_of name x.text))) [
  | inl h ↦
      let counts = release-counts x.address b env in
      rw h (
        Moved-release (x.address == b) (count b env.owned) (count b env.freed) (uses b es)
          (count b (release x.address env).owned) (count b (release x.address env).freed) c counts.0
          counts.1 _ _ _
          (drop_named-Moved name b es (release x.address env) (
            released-Counted (x.address == b) (count b env.owned) (count b env.freed) (uses b es)
              (count b (release x.address env).owned) (count b (release x.address env).freed) c
              counts.0 counts.1)))
  | inr h ↦ rw h (
      Moved-keep _ _ _ _ _ _ (if x.address == b then 1 else 0)
        (drop_named-Moved name b es env (ground arith)))
]

pub release_all-Moved :
    (b : ℕ) (es : List Entry) (env : Env)
    → Counted (count b env.owned) (count b env.freed) (uses b es)
    → Moved
        (count b env.owned)
        (count b env.freed)
        (uses b es)
        (count b (release_all es env).owned)
        (count b (release_all es env).freed)
        0
unfolding release_all uses
release_all-Moved b [] env c = inl (refl, refl, omega arith)
release_all-Moved b (x ∷ es) env c =
    let counts = release-counts x.address b env in
    Moved-release (x.address == b) (count b env.owned) (count b env.freed) (uses b es)
      (count b (release x.address env).owned) (count b (release x.address env).freed) c counts.0
      counts.1 _ _ _
      (release_all-Moved b es (release x.address env) (
        released-Counted (x.address == b) (count b env.owned) (count b env.freed) (uses b es)
          (count b (release x.address env).owned) (count b (release x.address env).freed) c counts.0
          counts.1))
