-- ===== src/Semaphore/Alone.antt =====
-- src/semaphore.c: a call that no other thread interrupts.
use libcs.Prelude.{◌+◌, ◌≡◌, refl, arith, true, false, Option, if◌then◌else◌}
use libcs.Prelude.Int.{ℤ, pos, ◌+ℤ◌, ◌-ℤ◌, ltb_ℤ, eqb_ℤ}
use libcs.Semaphore.{
  Sem, sem_value_max, eagain, einval, eoverflow, FutexResult, trywait, clockwait, post, wait_futex,
  waited, failed, post_wake, enter, bad_nsec, Outcome, stays, with_value, with_waiters, act,
}

same_value : (v : ℤ) → eqb_ℤ v v ≡ true
same_value v = ground arith

-- What an uncontended call does first to the semaphore.
abbrev pub take_or : Sem → Outcome → Outcome
take_or s o =
    if ltb_ℤ (pos 0) s.value
    then record { sem = with_value s (s.value -ℤ pos 1); thread = waited }
    else o

-- Without another thread in between, the compare-and-exchange of each operation does not fail. On a
-- positive value `sem_trywait` and `sem_clockwait` succeed and leave one unit less. On a value that is
-- not positive `sem_trywait` fails with EAGAIN, and `sem_clockwait` fails with EINVAL if the deadline's
-- nanoseconds are out of range and otherwise registers as a waiter. `sem_post` fails with EOVERFLOW at
-- SEM_VALUE_MAX and otherwise adds one unit before it wakes a waiter. A clock that is not known fails
-- with EINVAL.
act-enter :
    (r : FutexResult) (s : Sem) (nsec : Option ℤ)
    → (act r s (enter trywait s) ≡ take_or s (stays s (failed eagain)))
      × (act r s (act r s (enter (clockwait true nsec) s)).thread
          ≡ take_or s (
              if bad_nsec nsec
              then stays s (failed einval)
              else stays (with_waiters s (s.waiters + 1)) (wait_futex nsec s.value)))
      × (act r s (enter post s) ≡ (
          if eqb_ℤ s.value sem_value_max
          then stays s (failed eoverflow)
          else record { sem = with_value s (s.value +ℤ pos 1); thread = post_wake }))
      × (enter (clockwait false nsec) s ≡ failed einval)
unfolding act enter
act-enter r s nsec =
    (rw (same_value s.value) refl, rw (same_value s.value) refl, rw (same_value s.value) refl, refl)
