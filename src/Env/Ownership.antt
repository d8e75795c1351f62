-- ===== src/Env/Ownership.antt =====
-- src/env.c: the strings that `setenv` allocates are freed once, and only when no entry points to them.
use libcs.Prelude.{
  ℕ, ◌+◌, ◌*◌, ◌≡◌, refl, arith, Bool, true, false, Option, none, some, List, [], ◌∷◌, ◌++◌, ◌==◌,
  if◌then◌else◌, Bool-cases, subst, Option-cases, inl, inr, length,
}
use libcs.Env.{
  Entry, Env, entries, name_part, release, env_put, release_old, put_owned, put_new, setenv,
  unsetenv, putenv, clearenv,
}
use libcs.Env.Counts.{count, count-append, uses, release-counts, stands_at, env_put-counts}
use libcs.Env.Releases.{Counted, IsSoundAt, Moved-Counted, drop_named-Moved, release_all-Moved}

-- A string that no count at `b` knows, if it is at `b`.
abbrev NewAt : ℕ → ℕ → Env → Type 0
NewAt a b env =
    a ≡ b → (count b env.owned ≡ 0) × (count b env.freed ≡ 0) × (uses b (entries env.environ) ≡ 0)

-- An entry that is not owned or freed may come in for another, which is released.
release_old-IsSoundAt :
    (old : Option Entry) (b : ℕ) (env : Env)
    → Counted
        (count b env.owned)
        (count b env.freed)
        (uses b (entries env.environ) + stands_at old b)
    → IsSoundAt b (release_old old env)
unfolding release
release_old-IsSoundAt none b env c = ground arith
release_old-IsSoundAt (some x) b env c =
    let counts = release-counts x.address b env in
    ground (arith, counts.0, counts.1, environ x.address)
  where
    environ : (a : ℕ) → (release a env).environ ≡ env.environ
    environ a = ground arith

put_owned-IsSoundAt :
    (a : ℕ) (room : Bool) (name value : List ℕ) (b : ℕ) (env : Env)
    → NewAt a b env
    → IsSoundAt b env
    → IsSoundAt b (put_owned a room name value env).1
unfolding put_owned count
put_owned-IsSoundAt a room name value b env new c =
    let s : Entry = record { address = a; text = name ++ b'=' ∷ value } in
    elim (Option-cases (env_put room name s true env)) [
      | inl p ↦ ground (arith, new)
      | inr ((old, done), p) ↦
          let after = env_put-counts room name s b env old done p in
          let grown = count-append b done.owned (a ∷ []) in
          let put : Env = record done { owned = done.owned ++ a ∷ [] } in
          let fine =
            release_old-IsSoundAt old b put (counted old done after.0 after.1 after.2 grown) in
          ground (arith, fine)
    ]
  where
    counted :
        (old : Option Entry) (done : Env)
        → done.owned ≡ env.owned
        → done.freed ≡ env.freed
        → uses b (entries done.environ) + stands_at old b
          ≡ uses b (entries env.environ) + (if a == b then 1 else 0)
        → count b (done.owned ++ a ∷ []) ≡ count b done.owned + count b (a ∷ [])
        → Counted
            (count b (done.owned ++ a ∷ []))
            (count b done.freed)
            (uses b (entries done.environ) + stands_at old b)
    counted old done o f e grown = elim (Bool-cases (a == b)) [
      | inl same ↦ let none_before = new (ground arith) in ground arith
      | inr differ ↦ ground arith
    ]

put_new-IsSoundAt :
    (a : ℕ) (owned_room room : Bool) (name value : List ℕ) (b : ℕ) (env : Env)
    → NewAt a b env
    → IsSoundAt b env
    → IsSoundAt b (put_new a owned_room room name value env).1
unfolding put_new count
put_new-IsSoundAt a owned_room room name value b env new c =
    elim (Bool-cases (length env.owned == env.owned_cap)) [
      | inl full ↦ elim (Bool-cases owned_room) [
        | inl grown ↦
            let cap = if env.owned_cap == 0 then 16 else env.owned_cap * 2 in
            ground (
              arith,
              put_owned-IsSoundAt a room name value b (record env { owned_cap = cap }) new c,
            )
        | inr failed ↦ ground (arith, new)
      ]
      | inr free ↦ ground (arith, put_owned-IsSoundAt a room name value b env new c)
    ]

setenv-IsSoundAt :
    (new : Option ℕ) (owned_room room : Bool) (name value : List ℕ) (overwrite : Bool) (b : ℕ)
    (env : Env)
    → ((a : ℕ) → new ≡ some a → NewAt a b env)
    → IsSoundAt b env
    → IsSoundAt b (setenv new owned_room room name value overwrite env).1
unfolding setenv
setenv-IsSoundAt none owned_room room name value overwrite b env new c = ground arith
setenv-IsSoundAt (some a) owned_room room name value overwrite b env new c =
    ground (arith, put_new-IsSoundAt a owned_room room name value b env (new a refl) c)

unsetenv-IsSoundAt :
    (name : List ℕ) (b : ℕ) (env : Env) → IsSoundAt b env → IsSoundAt b (unsetenv name env).1
unfolding unsetenv
unsetenv-IsSoundAt name b env c = elim (Option-cases env.environ) [
  | inl none_there ↦ ground arith
  | inr (es, there) ↦
      let c' : Counted (count b env.owned) (count b env.freed) (uses b es) = ground arith in
      let kept = Moved-Counted _ _ _ _ _ _ (drop_named-Moved name b es env c') c' in ground arith
]

-- A string that the program owns, if it is at `b`.
abbrev ForeignAt : ℕ → ℕ → Env → Type 0
ForeignAt a b env = a ≡ b → (count b env.owned ≡ 0) × (count b env.freed ≡ 0)

putenv-IsSoundAt :
    (room : Bool) (s : Entry) (b : ℕ) (env : Env)
    → ForeignAt s.address b env
    → IsSoundAt b env
    → IsSoundAt b (putenv room s env).1
unfolding putenv
putenv-IsSoundAt room s b env foreign c =
    elim (Option-cases (env_put room (name_part s.text) s true env)) [
      | inl p ↦ ground (arith, unsetenv-IsSoundAt s.text b env c)
      | inr ((old, done), p) ↦
          let after = env_put-counts room (name_part s.text) s b env old done p in
          let fine = release_old-IsSoundAt old b done (counted old done after.0 after.1 after.2) in
          ground (arith, fine, unsetenv-IsSoundAt s.text b env c)
    ]
  where
    counted :
        (old : Option Entry) (done : Env)
        → done.owned ≡ env.owned
        → done.freed ≡ env.freed
        → uses b (entries done.environ) + stands_at old b
          ≡ uses b (entries env.environ) + (if s.address == b then 1 else 0)
        → Counted
            (count b done.owned)
            (count b done.freed)
            (uses b (entries done.environ) + stands_at old b)
    counted old done o f e = elim (Bool-cases (s.address == b)) [
      | inl same ↦ let theirs = foreign (ground arith) in ground arith
      | inr differ ↦ ground arith
    ]

clearenv-IsSoundAt : (b : ℕ) (env : Env) → IsSoundAt b env → IsSoundAt b (clearenv env).1
unfolding clearenv uses
clearenv-IsSoundAt b env c =
    Moved-Counted _ _ _ _ _ 0 (release_all-Moved b (entries env.environ) env c) c

-- The calls that change the environment, with the outcomes of the allocations that they make.
pub data Call : Type 0 where
  set_call : Option ℕ → Bool → Bool → List ℕ → List ℕ → Bool → Call
  unset_call : List ℕ → Call
  put_call : Bool → Entry → Call
  clear_call : Call

abbrev pub perform : Call → Env → Env
perform (set_call new owned_room room name value overwrite) env =
    (setenv new owned_room room name value overwrite env).1
perform (unset_call name) env = (unsetenv name env).1
perform (put_call room s) env = (putenv room s env).1
perform clear_call env = (clearenv env).1

-- `malloc` gives a string that is nowhere yet, and `putenv` is given one that `setenv` has not allocated.
abbrev pub Allowed : Call → Env → Type 0
Allowed (set_call none owned_room room name value overwrite) env = Unit {0}
Allowed (set_call (some a) owned_room room name value overwrite) env =
    (count a env.owned ≡ 0) × (count a env.freed ≡ 0) × (uses a (entries env.environ) ≡ 0)
Allowed (unset_call name) env = Unit {0}
Allowed (put_call room s) env = (count s.address env.owned ≡ 0) × (count s.address env.freed ≡ 0)
Allowed clear_call env = Unit {0}

-- The states that calls lead to from the environment that the program is started with.
pub data Reachable (start : Option (List Entry)) : Env → Type 0 where
  started : Reachable start (record {
    environ = start;
    allocated = false;
    env_cap = 0;
    owned = [];
    owned_cap = 0;
    freed = [];
  })
  called :
      (call : Call) (env : Env)
      → Reachable start env
      → Allowed call env
      → Reachable start (perform call env)

perform-IsSoundAt :
    (call : Call) (b : ℕ) (env : Env)
    → Allowed call env
    → IsSoundAt b env
    → IsSoundAt b (perform call env)
perform-IsSoundAt (set_call none owned_room room name value overwrite) b env allowed c =
    setenv-IsSoundAt none owned_room room name value overwrite b env (λ a e. absurd (cc)) c
perform-IsSoundAt (set_call (some a) owned_room room name value overwrite) b env allowed c =
    setenv-IsSoundAt (some a) owned_room room name value overwrite b env
      (λ a' e same.
        let eq : a ≡ b = cc in
        subst
          (λ x.
            (count x env.owned ≡ 0) × (count x env.freed ≡ 0) × (uses x (entries env.environ) ≡ 0))
          eq allowed)
      c
perform-IsSoundAt (unset_call name) b env allowed c = unsetenv-IsSoundAt name b env c
perform-IsSoundAt (put_call room s) b env allowed c =
    putenv-IsSoundAt room s b env
      (λ same. subst (λ x. (count x env.owned ≡ 0) × (count x env.freed ≡ 0)) same allowed) c
perform-IsSoundAt clear_call b env allowed c = clearenv-IsSoundAt b env c

-- In every state that any sequence of calls reaches, for every address: the string there is owned or has
-- been freed at most once, and not both; if it has been freed, no entry of the environment points to it; and
-- if it is owned, at most one entry does. `malloc` gives new addresses, and `putenv` is not given a string
-- that `setenv` has allocated.
pub Reachable-IsSoundAt :
    (start : Option (List Entry)) (env : Env) (b : ℕ) → Reachable start env → IsSoundAt b env
unfolding count
Reachable-IsSoundAt start env b started = ground arith
Reachable-IsSoundAt start env b (called call before r allowed) =
    perform-IsSoundAt call b before allowed (Reachable-IsSoundAt start before b r)
