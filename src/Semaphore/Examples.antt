-- ===== src/Semaphore/Examples.antt =====
-- src/semaphore.c: an interleaving of two threads, and each theorem at a state.
use libcs.Prelude.{◌≡◌, refl, true, false, none, some, [], ◌∷◌}
use libcs.Prelude.Int.{pos, ◌+ℤ◌, ◌-ℤ◌}
use libcs.Semaphore.{
  Sem, sem_init, sem_getvalue, go_round, trywait, idle, try_cas, waited, enter, act, System, start,
  go, Reachable, begin, further,
}
use libcs.Semaphore.Invariant.{IsSound, Reachable-IsSound}

-- What the runs below compute with.
program : Unit {0}
unfolding sem_init sem_getvalue enter act ◌+ℤ◌ ◌-ℤ◌
program = tt

abbrev one : Sem
one = record { value = pos 1; waiters = 0; is_private = true }

one_lem : sem_init false 1 ≡ some one
unfolding program
one_lem = refl

too_many : sem_init false (2147483648) ≡ none
unfolding program
too_many = refl

at_start : sem_getvalue one ≡ pos 1
unfolding program
at_start = refl

-- Two threads read the value 1; one of them takes the unit and returns 0, and the other reads the value 0.
abbrev contended : System
contended = record {
  sem = record { value = pos 0; waiters = 0; is_private = true };
  threads = idle ∷ try_cas (pos 0) ∷ [];
  taken = 1;
  given = 0;
}

contended-Reachable : Reachable 2 one contended
unfolding program
contended-Reachable =
    further
      (further
        (further (further (further begin (start 0 trywait refl)) (start 1 trywait refl))
          (go 0 (try_cas (pos 1)) go_round refl))
        (go 1 (try_cas (pos 1)) go_round refl))
      (go 0 waited go_round refl)

Reachable-IsSound_example : IsSound 1 contended
Reachable-IsSound_example = Reachable-IsSound false 1 2 one contended one_lem contended-Reachable
