-- ===== src/Env/Lookup.antt =====
-- src/env.c: what `getenv` finds after a change.
use libcs.Prelude.{
  ℕ, ◌*◌, ◌≡◌, refl, arith, Bool, true, false, not, ◌&&◌, ◌||◌, Option, none, some, List, [], ◌∷◌,
  ◌++◌, ◌==◌, if◌then◌else◌, length, inl, inr, Bool-cases, Option-cases,
}
use libcs.Prelude.Text.{eqb_list}
use libcs.Env.{
  Entry, Env, Status, success, einval, enomem, entries, name_part, bad_name, value_of, is_some,
  find_value, getenv, release, replace, append_entry, env_put, release_old, put_owned, put_new,
  setenv, drop_named, unsetenv, putenv,
}
use libcs.Env.Names.{
  NoEquals, Apart, name_part-NoEquals, good_name, eqb_list_sound, value_of-entry, names-Apart,
  value_of_bare, value_of-name_part, bare_name, not_bad,
}

module _ (name : List ℕ) (s : Entry) (v : List ℕ) (e : value_of name s.text ≡ some v) where
  find_value-replace_self :
      (es : List Entry) (old : Entry) (rest : List Entry)
      → replace name s es ≡ some (old, rest)
      → find_value name rest ≡ some v
  unfolding find_value replace
  find_value-replace_self [] old rest r = absurd (cc)
  find_value-replace_self (x ∷ es) old rest r = elim (Option-cases (value_of name x.text)) [
    | inl free ↦ elim (Option-cases (replace name s es)) [
      | inl p ↦ absurd (ground arith)
      | inr ((o, es'), p) ↦ ground (arith, find_value-replace_self es o es' p)
    ]
    | inr (u, taken) ↦ ground arith
  ]

  find_value-append_self :
      (es : List Entry) → replace name s es ≡ none → find_value name (es ++ s ∷ []) ≡ some v
  unfolding find_value replace
  find_value-append_self [] r = ground (arith, e)
  find_value-append_self (x ∷ es) r = elim (Option-cases (value_of name x.text)) [
    | inl free ↦ elim (Option-cases (replace name s es)) [
      | inl p ↦ ground (arith, find_value-append_self es p)
      | inr ((o, es'), p) ↦ absurd (ground arith)
    ]
    | inr (u, taken) ↦ absurd (ground arith)
  ]

  module _ (m : List ℕ) (apart : Apart m name) where
    find_value-replace_other :
        (es : List Entry) (old : Entry) (rest : List Entry)
        → replace name s es ≡ some (old, rest)
        → find_value m rest ≡ find_value m es
    unfolding find_value replace
    find_value-replace_other [] old rest r = absurd (cc)
    find_value-replace_other (x ∷ es) old rest r = elim (Option-cases (value_of name x.text)) [
      | inl free ↦ elim (Option-cases (replace name s es)) [
        | inl p ↦ absurd (ground arith)
        | inr ((o, es'), p) ↦ ground (arith, find_value-replace_other es o es' p)
      ]
      | inr (u, taken) ↦ ground (arith, apart x.text u taken, apart s.text v e)
    ]

    find_value-append_other : (es : List Entry) → find_value m (es ++ s ∷ []) ≡ find_value m es
    unfolding find_value
    find_value-append_other [] = ground (arith, apart s.text v e)
    find_value-append_other (x ∷ es) = ground (arith, find_value-append_other es)

find_value-drop_self :
    (name : List ℕ) (es : List Entry) (env : Env)
    → find_value name (drop_named name es env).0 ≡ none
unfolding find_value drop_named
find_value-drop_self name [] env = refl
find_value-drop_self name (x ∷ es) env = elim (Option-cases (value_of name x.text)) [
  | inl free ↦ rw (free, find_value, free) (find_value-drop_self name es env)
  | inr (u, taken) ↦ rw taken (find_value-drop_self name es (release x.address env))
]

find_value-drop_other :
    (name m : List ℕ)
    → Apart m name
    → (es : List Entry) (env : Env) → find_value m (drop_named name es env).0 ≡ find_value m es
unfolding find_value drop_named
find_value-drop_other name m apart [] env = refl
find_value-drop_other name m apart (x ∷ es) env = elim (Option-cases (value_of name x.text)) [
  | inl free ↦ ground (arith, find_value-drop_other name m apart es env)
  | inr (u, taken) ↦
      ground
        (arith, apart x.text u taken, find_value-drop_other name m apart es (release x.address env))
]

release-environ : (a : ℕ) (env : Env) → (release a env).environ ≡ env.environ
unfolding release
release-environ a env = ground arith

-- The entries after `env_put`.
put-lookup :
    (room : Bool) (m name v : List ℕ) (s : Entry) (env : Env) (old : Option Entry) (env' : Env)
    → NoEquals m
    → NoEquals name
    → value_of name s.text ≡ some v
    → env_put room name s true env ≡ some (old, env')
    → find_value m (entries env'.environ)
      ≡ (if eqb_list m name then some v else find_value m (entries env.environ))
unfolding env_put append_entry
put-lookup room m name v s env old env' h k e r = elim (Bool-cases (eqb_list m name)) [
  | inl same ↦ elim (Option-cases (replace name s (entries env.environ))) [
    | inl p ↦ ground (
      arith,
      eqb_list_sound m name same,
      find_value-append_self name s v e (entries env.environ) p,
    )
    | inr ((o, es), p) ↦ ground (
      arith,
      eqb_list_sound m name same,
      find_value-replace_self name s v e (entries env.environ) o es p,
    )
  ]
  | inr differ ↦ elim (Option-cases (replace name s (entries env.environ))) [
    | inl p ↦ ground (
      arith,
      find_value-append_other name s v e m (names-Apart m name h k differ) (entries env.environ),
    )
    | inr ((o, es), p) ↦ ground (
      arith,
      find_value-replace_other name s v e m (names-Apart m name h k differ) (entries env.environ) o
          es p,
    )
  ]
]

release_old-environ : (old : Option Entry) (env : Env) → (release_old old env).environ ≡ env.environ
release_old-environ none env = refl
release_old-environ (some e) env = release-environ e.address env

abbrev pub succeeds : Status → Bool
succeeds success = true
succeeds einval = false
succeeds enomem = false

put_owned-lookup :
    (m : List ℕ) (a : ℕ) (room : Bool) (name value : List ℕ) (env : Env)
    → NoEquals m
    → NoEquals name
    → find_value m (entries (put_owned a room name value env).1.environ) ≡ (
        if succeeds (put_owned a room name value env).0 && eqb_list m name
        then some value
        else find_value m (entries env.environ))
unfolding put_owned
put_owned-lookup m a room name value env h k =
    let s : Entry = record { address = a; text = name ++ b'=' ∷ value } in
    elim (Option-cases (env_put room name s true env)) [
      | inl p ↦ ground arith
      | inr ((old, done), p) ↦ ground (
        arith,
        release_old-environ old (record done { owned = done.owned ++ a ∷ [] }),
        put-lookup room m name value s env old done h k (value_of-entry name value) p,
      )
    ]

put_new-lookup :
    (m : List ℕ) (a : ℕ) (owned_room room : Bool) (name value : List ℕ) (env : Env)
    → NoEquals m
    → NoEquals name
    → find_value m (entries (put_new a owned_room room name value env).1.environ) ≡ (
        if succeeds (put_new a owned_room room name value env).0 && eqb_list m name
        then some value
        else find_value m (entries env.environ))
unfolding put_new
put_new-lookup m a owned_room room name value env h k = ground (
  arith,
  put_owned-lookup m a room name value env h k,
  put_owned-lookup m a room name value
      (record env { owned_cap = if env.owned_cap == 0 then 16 else env.owned_cap * 2 }) h k,
)

-- `getenv` of any name `m` after `setenv`: the new value, if `m` is the name that was set, unless the call
-- failed or `overwrite` is false and the name had a value; otherwise what it was before the call.
pub getenv-setenv :
    (m : List ℕ) (new : Option ℕ) (owned_room room : Bool) (name value : List ℕ) (overwrite : Bool)
    (env : Env)
    → getenv m (setenv new owned_room room name value overwrite env).1 ≡ (
        if succeeds (setenv new owned_room room name value overwrite env).0
          && eqb_list m name
          && (overwrite || not (is_some (getenv name env)))
        then some value
        else getenv m env)
unfolding getenv setenv
getenv-setenv m new owned_room room name value overwrite env = elim (Bool-cases (bad_name m)) [
  | inl bad ↦ elim (Bool-cases (eqb_list m name)) [
    | inl same ↦ ground (arith, eqb_list_sound m name same)
    | inr differ ↦ ground arith
  ]
  | inr good ↦ elim (Bool-cases (bad_name name)) [
    | inl bad ↦ ground arith
    | inr fine ↦ elim (Option-cases new) [
      | inl failed ↦ ground arith
      | inr (a, given) ↦ ground (
        arith,
        eqb_list_sound m name,
        put_new-lookup m a owned_room room name value env (good_name m good) (good_name name fine),
      )
    ]
  ]
]

-- `getenv` of any name `m` after `unsetenv`: nothing, if `m` is the name that was removed; otherwise what it
-- was before the call.
pub getenv-unsetenv :
    (m name : List ℕ) (env : Env)
    → getenv m (unsetenv name env).1 ≡ (if eqb_list m name then none else getenv m env)
unfolding getenv unsetenv find_value
getenv-unsetenv m name env = elim (Bool-cases (bad_name m)) [
  | inl bad ↦ elim (Bool-cases (eqb_list m name)) [
    | inl same ↦ ground arith
    | inr differ ↦ ground arith
  ]
  | inr good ↦ elim (Bool-cases (eqb_list m name)) [
    | inl same ↦
        ground
          (arith, eqb_list_sound m name same, find_value-drop_self name (entries env.environ) env)
    | inr differ ↦ elim (Bool-cases (bad_name name)) [
      | inl bad ↦ ground arith
      | inr fine ↦ ground (
        arith,
        find_value-drop_other name m
            (names-Apart m name (good_name m good) (good_name name fine) differ)
            (entries env.environ) env,
      )
    ]
  ]
]

remove_bare :
    (m t : List ℕ) (env : Env)
    → getenv m (unsetenv t env).1
      ≡ (if succeeds (unsetenv t env).0 && eqb_list m t then value_of m t else getenv m env)
unfolding getenv unsetenv
remove_bare m t env = elim (Bool-cases (eqb_list m t)) [
  | inl same ↦ ground (arith, getenv-unsetenv m t env, eqb_list_sound m t same, value_of_bare t)
  | inr differ ↦ ground (arith, getenv-unsetenv m t env)
]

-- `getenv` of any name `m` after `putenv(s)`: if the call succeeded and `m` is the name in `s`, what follows
-- the '=' in `s`, and nothing if `s` has no '='; otherwise what it was before the call.
pub getenv-putenv :
    (m : List ℕ) (room : Bool) (s : Entry) (env : Env)
    → getenv m (putenv room s env).1 ≡ (
        if succeeds (putenv room s env).0 && eqb_list m (name_part s.text)
        then value_of m s.text
        else getenv m env)
unfolding getenv putenv
getenv-putenv m room s env = elim (Bool-cases (length (name_part s.text) == length s.text)) [
  | inl bare ↦ let whole = bare_name s.text (ground arith) in removed whole bare
  | inr full ↦
      let (v, named) = value_of-name_part s.text (ground arith) in
      elim (Bool-cases (bad_name m)) [
        | inl bad ↦ elim (Bool-cases (eqb_list m (name_part s.text))) [
          | inl same ↦ ground (arith, eqb_list_sound m (name_part s.text) same, good s.text)
          | inr differ ↦ ground arith
        ]
        | inr fine ↦ elim (Option-cases (env_put room (name_part s.text) s true env)) [
          | inl p ↦ ground arith
          | inr ((old, done), p) ↦ ground (
            arith,
            release_old-environ old done,
            eqb_list_sound m (name_part s.text),
            put-lookup room m (name_part s.text) v s env old done (good_name m fine)
                (name_part-NoEquals s.text) named p,
          )
        ]
      ]
]
  where
    removed :
        name_part s.text ≡ s.text
        → (length (name_part s.text) == length s.text) ≡ true
        → getenv m (putenv room s env).1 ≡ (
            if succeeds (putenv room s env).0 && eqb_list m (name_part s.text)
            then value_of m s.text
            else getenv m env)
    removed whole bare = rw (bare, whole) (remove_bare m s.text env)

    good : (t : List ℕ) → bad_name (name_part t) ≡ (length (name_part t) == 0)
    good t = not_bad t
