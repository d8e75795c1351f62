-- ===== src/Env/Examples.antt =====
-- src/env.c: runs of the environment, and the theorems at them.
use libcs.Prelude.{ℕ, ◌≡◌, refl, true, false, Option, none, some, List, [], ◌∷◌}
use libcs.Prelude.Text.{codes}
use libcs.Env.{
  Entry, Env, name_part, bad_name, value_of, find_value, getenv, is_owned, last_first, disown,
  release, replace, append_entry, env_put, put_owned, put_new, setenv, drop_named, unsetenv, putenv,
  release_all, clearenv, einval,
}
use libcs.Env.Lookup.{getenv-setenv, getenv-unsetenv, getenv-putenv}
use libcs.Env.Counts.{count, uses}
use libcs.Env.Releases.{IsSoundAt}
use libcs.Env.Ownership.{started, called, set_call, unset_call, perform, Reachable-IsSoundAt}

-- What the runs below compute with.
program : Unit {0}
unfolding name_part bad_name value_of find_value getenv is_owned last_first disown release replace
    append_entry env_put put_owned put_new setenv drop_named unsetenv putenv release_all clearenv
program = tt

abbrev inherited : Option (List Entry)
inherited =
    some
      (record { address = 1; text = codes "A=1" } ∷ record { address = 2; text = codes "B=2" } ∷ [])

abbrev first : Env
first = record {
  environ = inherited;
  allocated = false;
  env_cap = 0;
  owned = [];
  owned_cap = 0;
  freed = [];
}

abbrev set_b : Env
set_b = (setenv (some 7) true true (codes "B") (codes "x=y") true first).1

abbrev set_b_again : Env
set_b_again = (setenv (some 8) true true (codes "B") (codes "z") true set_b).1

overwritten : getenv (codes "B") set_b ≡ some (codes "x=y")
unfolding program
overwritten = refl

old_string_freed : set_b_again.freed ≡ 7 ∷ []
unfolding program
old_string_freed = refl

refused : (setenv (some 7) true true (codes "B=") (codes "z") true first).0 ≡ einval
unfolding program
refused = refl

removed : getenv (codes "B") (unsetenv (codes "B") set_b).1 ≡ none
unfolding program
removed = refl

put :
    getenv (codes "C") (putenv true (record { address = 9; text = codes "C=d" }) set_b).1
    ≡ some (codes "d")
unfolding program
put = refl

getenv-setenv_example : getenv (codes "A") set_b ≡ getenv (codes "A") first
unfolding program
getenv-setenv_example =
    getenv-setenv (codes "A") (some 7) true true (codes "B") (codes "x=y") true first

getenv-unsetenv_example : getenv (codes "B") (unsetenv (codes "B") set_b).1 ≡ none
unfolding program
getenv-unsetenv_example = getenv-unsetenv (codes "B") (codes "B") set_b

getenv-putenv_example :
    getenv (codes "C") (putenv true (record { address = 9; text = codes "C=d" }) set_b).1
    ≡ some (codes "d")
unfolding program
getenv-putenv_example =
    getenv-putenv (codes "C") true (record { address = 9; text = codes "C=d" }) set_b

abbrev set_x : List ℕ
set_x = codes "X"

Reachable-IsSoundAt_example :
    IsSoundAt 7
      (perform (unset_call set_x) (perform (set_call (some 7) true true set_x [] true) first))
unfolding program count uses
Reachable-IsSoundAt_example =
    Reachable-IsSoundAt inherited
      (perform (unset_call set_x) (perform (set_call (some 7) true true set_x [] true) first)) 7
      (called (unset_call set_x) (perform (set_call (some 7) true true set_x [] true) first)
        (called (set_call (some 7) true true set_x [] true) first started (refl, refl, refl)) tt)
