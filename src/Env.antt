-- ===== src/Env.antt =====
-- src/env.c: the environment. A string is its bytes before the null byte, with an address that tells
-- allocations apart. `environ` is the array that `__environ` points to, up to the null pointer; nothing but
-- this file assigns `__environ`, so that it is `env_alloc` if that is not null. Each allocation's outcome is
-- an argument.
pub mod Names
pub mod Lookup
pub mod Counts
pub mod Releases
pub mod Ownership
mod Examples
use libcs.Prelude.{
  ℕ, ◌+◌, ◌*◌, zero, suc, Bool, true, false, not, ◌&&◌, ◌||◌, Option, none, some, List, [], ◌∷◌,
  ◌++◌, ltb, ◌==◌, if◌then◌else◌, length, take, drop,
}

pub record Entry : Type 0 where
  pub address : ℕ
  pub text : List ℕ

pub record Env : Type 0 where
  pub environ : Option (List Entry)
  -- `env_alloc` is not null.
  pub allocated : Bool
  pub env_cap : ℕ
  pub owned : List ℕ
  pub owned_cap : ℕ
  -- The strings that have been passed to `free`.
  pub freed : List ℕ

-- What a function returns: 0, or -1 with errno set, or -1 from a failed allocation.
pub data Status : Type 0 where
  success : Status
  einval : Status
  enomem : Status

abbrev pub entries : Option (List Entry) → List Entry
entries none = []
entries (some es) = es

-- `name_len(s)`, as what stands before the '=' or the end.
unfoldable pub name_part : List ℕ → List ℕ
name_part [] = []
name_part (x ∷ s) = if x == b'=' then [] else x ∷ name_part s

-- `!l || name[l]`.
unfoldable pub bad_name : List ℕ → Bool
bad_name name = (length (name_part name) == 0) || ltb (length (name_part name)) (length name)

-- `!strncmp(name, *e, l) && (*e)[l] == '='`, and what follows the '='.
unfoldable pub value_of : List ℕ → List ℕ → Option (List ℕ)
value_of [] [] = none
value_of [] (y ∷ e) = if y == b'=' then some e else none
value_of (x ∷ name) [] = none
value_of (x ∷ name) (y ∷ e) = if x == y then value_of name e else none

abbrev pub is_some {ℓ} : {A : Type ℓ} → Option A → Bool
is_some none = false
is_some (some a) = true

-- The loop of `getenv`.
unfoldable pub find_value : List ℕ → List Entry → Option (List ℕ)
find_value name [] = none
find_value name (e ∷ es) = elim (value_of name e.text) [
  | some v ↦ some v
  | none ↦ find_value name es
]

-- `getenv(name)`, and `secure_getenv(name)` where `secure` is that field of `__libc`.
unfoldable pub getenv : List ℕ → Env → Option (List ℕ)
getenv name env = if bad_name name then none else find_value name (entries env.environ)

unfoldable pub secure_getenv : Bool → List ℕ → Env → Option (List ℕ)
secure_getenv secure name env = if secure then none else getenv name env

-- `is_owned(s, 0)`.
unfoldable pub is_owned : ℕ → List ℕ → Bool
is_owned a [] = false
is_owned a (x ∷ owned) = (x == a) || is_owned a owned

-- The last element is moved to the front of the list.
unfoldable pub last_first : List ℕ → List ℕ
last_first [] = []
last_first (x ∷ xs) = elim (last_first xs) [ [] ↦ x ∷ [] | z ∷ ys ↦ z ∷ x ∷ ys ]

-- `owned[i] = owned[--owned_n]` at the first place of `a`.
unfoldable pub disown : ℕ → List ℕ → List ℕ
disown a [] = []
disown a (x ∷ owned) = if x == a then last_first owned else x ∷ disown a owned

-- `release(s)`.
unfoldable pub release : ℕ → Env → Env
release a env =
    if is_owned a env.owned
    then record env { owned = disown a env.owned; freed = a ∷ env.freed }
    else env

-- The loop of `env_put`: the entry replaced, if there is one, and the entries.
unfoldable pub replace : List ℕ → Entry → List Entry → Option (Entry × List Entry)
replace name s [] = none
replace name s (e ∷ es) =
    if is_some (value_of name e.text)
    then some (e, s ∷ es)
    else elim (replace name s es) [ none ↦ none | some (old, rest) ↦ some (old, e ∷ rest) ]

-- `__environ != env_alloc`.
abbrev pub is_foreign : Env → Bool
is_foreign env = not env.allocated && is_some env.environ

-- The end of `env_put`: `s` behind the entries, if need be in a larger array; `room` tells whether
-- `reallocarray` succeeds.
unfoldable pub append_entry : (room : Bool) → Entry → Env → Option Env
append_entry room s env =
    let n = length (entries env.environ) in
    let environ = some (entries env.environ ++ s ∷ []) in
    if is_foreign env || ltb env.env_cap (n + 2)
    then (if room
        then some (record env {
          environ = environ;
          allocated = true;
          env_cap = if ltb 16 (n + 2) then (n + 2) * 2 else 16;
        })
        else none)
    else some (record env { environ = environ })

-- `env_put(s, l, overwrite, &old)`; `none` is -1, and the first component is `old`.
unfoldable pub env_put :
    (room : Bool) → List ℕ → Entry → (overwrite : Bool) → Env → Option (Option Entry × Env)
env_put room name s overwrite env = elim (replace name s (entries env.environ)) [
  | some (old, es) ↦
      some (if overwrite then (some old, record env { environ = some es }) else (none, env))
  | none ↦ elim (append_entry room s env) [ none ↦ none | some env' ↦ some (none, env') ]
]

abbrev pub release_old : Option Entry → Env → Env
release_old none env = env
release_old (some e) env = release e.address env

-- `setenv` from the call of `env_put` on, with the string at the address `a`.
unfoldable pub put_owned : ℕ → (room : Bool) → List ℕ → List ℕ → Env → Status × Env
put_owned a room name value env =
    elim (env_put room name (record { address = a; text = name ++ b'=' ∷ value }) true env) [
      | none ↦ (enomem, record env { freed = a ∷ env.freed })
      | some (old, done) ↦ (success, release_old old (record done { owned = done.owned ++ a ∷ [] }))
    ]

-- `setenv` from `malloc` on, which gives the address `a`.
unfoldable pub put_new : ℕ → (owned_room room : Bool) → List ℕ → List ℕ → Env → Status × Env
put_new a owned_room room name value env =
    if length env.owned == env.owned_cap
    then (if owned_room
        then put_owned a room name value
            (record env { owned_cap = if env.owned_cap == 0 then 16 else env.owned_cap * 2 })
        else (enomem, record env { freed = a ∷ env.freed }))
    else put_owned a room name value env

-- `setenv(name, value, overwrite)`; `new` is the result of `malloc`.
unfoldable pub setenv :
    (new : Option ℕ)
    → (owned_room room : Bool) → (name value : List ℕ) → (overwrite : Bool) → Env
    → Status × Env
setenv new owned_room room name value overwrite env =
    if bad_name name
    then (einval, env)
    else (if not overwrite && is_some (getenv name env)
        then (success, env)
        else elim new [ none ↦ (enomem, env) | some a ↦ put_new a owned_room room name value env ])

-- The loop of `unsetenv`: the entries kept, and the state with the others released.
unfoldable pub drop_named : List ℕ → List Entry → Env → List Entry × Env
drop_named name [] env = ([], env)
drop_named name (e ∷ es) env =
    let (kept, env') =
      drop_named name es (if is_some (value_of name e.text) then release e.address env else env) in
    (if is_some (value_of name e.text) then kept else e ∷ kept, env')

-- `unsetenv(name)`.
unfoldable pub unsetenv : List ℕ → Env → Status × Env
unsetenv name env = if bad_name name then (einval, env) else elim env.environ [
  | none ↦ (success, env)
  | some es ↦
      let (kept, env') = drop_named name es env in (success, record env' { environ = some kept })
]

-- `putenv(s)`.
unfoldable pub putenv : (room : Bool) → Entry → Env → Status × Env
putenv room s env =
    let name = name_part s.text in
    if length name == length s.text
    then unsetenv s.text env
    else (if length name == 0 then (einval, env) else elim (env_put room name s true env) [
      | none ↦ (enomem, env)
      | some (old, env') ↦ (success, release_old old env')
    ])

-- The loop of `clearenv`.
unfoldable pub release_all : List Entry → Env → Env
release_all [] env = env
release_all (e ∷ es) env = release_all es (release e.address env)

-- `clearenv()`.
unfoldable pub clearenv : Env → Status × Env
clearenv env = (
  success,
  record (release_all (entries env.environ) env) { environ = none; allocated = false; env_cap = 0 },
)
