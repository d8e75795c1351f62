-- ===== src/Semaphore/Invariant.antt =====
-- src/semaphore.c: what holds in every reachable state.
use libcs.Prelude.{
  ℕ, zero, suc, ◌+◌, ◌≡◌, ◌≤◌, refl, arith, ap, sym, Bool, true, false, none, some, List, [], ◌∷◌,
  Bool-cases, inl, inr, get_elem?, set, replicate,
}
use libcs.Prelude.Int.{ℤ, pos, negsuc, ◌+ℤ◌, ◌-ℤ◌, ◌≤ℤ◌, ltb_ℤ, eqb_ℤ, int_laws, pos_part, neg_part}
use libcs.Semaphore.{
  Sem, sem_init, sem_value_max, eagain, einval, eoverflow, FutexResult, go_round, timed_out,
  interrupted, Call, trywait, clockwait, post, Thread, idle, try_cas, wait_load, wait_test,
  wait_futex, wait_leave, post_cas, post_wake, waited, posted, failed, enter, bad_nsec, Outcome,
  stays, act, System, returns_wait, returns_post, after, start, go, Reachable, begin, further,
}

-- Whether a thread is between the two updates of the number of waiters.
abbrev pub waits : Thread → ℕ
waits idle = 0
waits (try_cas v) = 0
waits (wait_load nsec) = 0
waits (wait_test nsec v) = 0
waits (wait_futex nsec v) = 1
waits (wait_leave nsec r) = 1
waits (post_cas v) = 0
waits post_wake = 0
waits waited = 0
waits posted = 0
waits (failed e) = 0

-- Whether a thread is in a post that has added its unit and not yet returned.
abbrev pub posts : Thread → ℕ
posts idle = 0
posts (try_cas v) = 0
posts (wait_load nsec) = 0
posts (wait_test nsec v) = 0
posts (wait_futex nsec v) = 0
posts (wait_leave nsec r) = 0
posts (post_cas v) = 0
posts post_wake = 1
posts waited = 0
posts posted = 1
posts (failed e) = 0

-- The threads that a test by `weight` counts.
abbrev pub total : (weight : Thread → ℕ) → List Thread → ℕ
total weight [] = 0
total weight (t ∷ ts) = weight t + total weight ts

module _ (weight : Thread → ℕ) where
  total-set :
      (ts : List Thread) (i : ℕ) (t u : Thread)
      → get_elem? ts i ≡ some t
      → total weight (set ts i u) + weight t ≡ total weight ts + weight u
  total-set [] i t u h = absurd (cc)
  total-set (x ∷ ts) zero t u h =
      let same : weight x ≡ weight t =
        ap (λ o. elim o as (λ _. ℕ) [ none ↦ weight x | some y ↦ weight y ]) h in
      omega arith
  total-set (x ∷ ts) (suc i) t u h = omega (arith, total-set ts i t u h)

  weight-le :
      (ts : List Thread) (i : ℕ) (t : Thread) → get_elem? ts i ≡ some t → weight t ≤ total weight ts
  weight-le [] i t h = absurd (cc)
  weight-le (x ∷ ts) zero t h =
      let same : weight x ≡ weight t =
        ap (λ o. elim o as (λ _. ℕ) [ none ↦ weight x | some y ↦ weight y ]) h in
      omega arith
  weight-le (x ∷ ts) (suc i) t h = omega (arith, weight-le ts i t h)

abbrev pub InRange : ℤ → Type 0
InRange v = (pos 0 ≤ℤ v) × (v ≤ℤ sem_value_max)

-- A step balances: units taken and given, by returns and by the threads about to return, against the value, and its thread against the waiters.
abbrev Balances : Sem → Thread → Outcome → Type 0
Balances s t o =
    InRange o.sem.value
    × (o.sem.value +ℤ pos (returns_wait o.thread + posts t)
        ≡ s.value +ℤ pos (returns_post t + posts o.thread))
    × (o.sem.waiters + waits t ≡ s.waiters + waits o.thread)

stays-Balances :
    (s : Sem) (t u : Thread)
    → InRange s.value
    → waits t ≡ waits u
    → returns_wait u + posts t ≡ returns_post t + posts u
    → Balances s t (stays s u)
stays-Balances s t u h e k = (h, ap (λ n. s.value +ℤ pos n) k, omega (arith, e))

take_one :
    (v w : ℤ)
    → ltb_ℤ (pos 0) v ≡ true
    → eqb_ℤ w v ≡ true
    → InRange w
    → InRange (v -ℤ pos 1) × (v -ℤ pos 1 +ℤ pos 1 ≡ w +ℤ pos 0)
unfolding ◌+ℤ◌ ◌-ℤ◌
take_one (pos a) (pos b) h k l = ground arith
take_one (pos a) (negsuc b) h k l = ground arith
take_one (negsuc a) w h k l = ground arith

give_one :
    (v w : ℤ)
    → eqb_ℤ v sem_value_max ≡ false
    → eqb_ℤ w v ≡ true
    → InRange w
    → InRange (v +ℤ pos 1) × (v +ℤ pos 1 +ℤ pos 0 ≡ w +ℤ pos 1)
unfolding ◌+ℤ◌ ◌-ℤ◌
give_one (pos a) (pos b) h k l = ground arith
give_one (pos a) (negsuc b) h k l = ground arith
give_one (negsuc a) (pos b) h k l = ground arith
give_one (negsuc a) (negsuc b) h k l = ground arith

act-Balances :
    (r : FutexResult) (s : Sem) (t : Thread)
    → InRange s.value
    → waits t ≤ s.waiters
    → Balances s t (act r s t)
unfolding act
act-Balances r s idle h w = stays-Balances s idle idle h refl refl
act-Balances r s (try_cas v) h w = elim (Bool-cases (ltb_ℤ (pos 0) v)) [
  | inr empty ↦ rw empty (stays-Balances s (try_cas v) (failed eagain) h refl refl)
  | inl some_left ↦ elim (Bool-cases (eqb_ℤ s.value v)) [
    | inl same ↦
        rw (some_left, same) (let (a, b) = take_one v s.value some_left same h in (a, b, refl))
    | inr changed ↦
        rw (some_left, changed) (stays-Balances s (try_cas v) (try_cas s.value) h refl refl)
  ]
]
act-Balances r s (wait_load nsec) h w =
    stays-Balances s (wait_load nsec) (wait_test nsec s.value) h refl refl
act-Balances r s (wait_test nsec v) h w = elim (Bool-cases (ltb_ℤ (pos 0) v)) [
  | inr empty ↦ elim (Bool-cases (bad_nsec nsec)) [
    | inl bad ↦ rw (empty, bad) (stays-Balances s (wait_test nsec v) (failed einval) h refl refl)
    | inr good ↦ rw (empty, good) (h, refl, omega arith)
  ]
  | inl some_left ↦ elim (Bool-cases (eqb_ℤ s.value v)) [
    | inl same ↦
        rw (some_left, same) (let (a, b) = take_one v s.value some_left same h in (a, b, refl))
    | inr changed ↦
        rw (some_left, changed) (stays-Balances s (wait_test nsec v) (wait_load nsec) h refl refl)
  ]
]
act-Balances r s (wait_futex nsec v) h w =
    stays-Balances s (wait_futex nsec v) (wait_leave nsec r) h refl refl
act-Balances r s (wait_leave nsec go_round) h w = (h, refl, omega arith)
act-Balances r s (wait_leave nsec timed_out) h w = (h, refl, omega arith)
act-Balances r s (wait_leave nsec interrupted) h w = (h, refl, omega arith)
act-Balances r s (post_cas v) h w = elim (Bool-cases (eqb_ℤ v sem_value_max)) [
  | inl full ↦ rw full (stays-Balances s (post_cas v) (failed eoverflow) h refl refl)
  | inr room ↦ elim (Bool-cases (eqb_ℤ s.value v)) [
    | inl same ↦ rw (room, same) (let (a, b) = give_one v s.value room same h in (a, b, refl))
    | inr changed ↦
        rw (room, changed) (stays-Balances s (post_cas v) (post_cas s.value) h refl refl)
  ]
]
act-Balances r s post_wake h w = stays-Balances s post_wake posted h refl refl
act-Balances r s waited h w = stays-Balances s waited idle h refl refl
act-Balances r s posted h w = stays-Balances s posted idle h refl refl
act-Balances r s (failed e) h w = stays-Balances s (failed e) idle h refl refl

enter-starts :
    (c : Call) (s : Sem)
    → (waits (enter c s) ≡ 0) × (returns_wait (enter c s) ≡ 0) × (posts (enter c s) ≡ 0)
unfolding enter
enter-starts trywait s = (refl, refl, refl)
enter-starts (clockwait true nsec) s = (refl, refl, refl)
enter-starts (clockwait false nsec) s = (refl, refl, refl)
enter-starts post s = (refl, refl, refl)

-- The value is in range; it makes up, with the waits that have returned 0 or are about to, the first value and the
-- posts that have returned 0 or have added their unit; and the number of waiters is that of the threads about to
-- sleep, asleep or just woken.
abbrev pub IsSound : ℕ → System → Type 0
IsSound value s =
    InRange s.sem.value
    × (s.sem.value +ℤ pos (s.taken + total returns_wait s.threads)
        ≡ pos value +ℤ pos (s.given + total posts s.threads))
    × (s.sem.waiters ≡ total waits s.threads)

none_count : (weight : Thread → ℕ) (n : ℕ) → weight idle ≡ 0 → total weight (replicate n idle) ≡ 0
none_count weight zero h = refl
none_count weight (suc n) h = omega (arith, none_count weight n h, h)

after-IsSound :
    (value : ℕ) (s : System) (i : ℕ) (t : Thread) (o : Outcome)
    → get_elem? s.threads i ≡ some t
    → IsSound value s
    → Balances s.sem t o
    → IsSound value (after s i t o)
after-IsSound value s i t o h (range, units, waiters) (range2, balance, shift) = (
  range2,
  chain s.sem.value o.sem.value (s.taken + total returns_wait s.threads)
      (s.given + total posts s.threads) (returns_wait o.thread) (posts t) (returns_post t)
      (posts o.thread) _ _ units balance
      (omega (arith, total-set returns_wait s.threads i t o.thread h))
      (omega (arith, total-set posts s.threads i t o.thread h)),
  omega (arith, total-set waits s.threads i t o.thread h),
)
  where
    chain :
        (v w : ℤ) (t g u p r q t' g' : ℕ)
        → v +ℤ pos t ≡ pos value +ℤ pos g
        → w +ℤ pos (u + p) ≡ v +ℤ pos (r + q)
        → t' ≡ t + u
        → g' + p ≡ g + r + q
        → w +ℤ pos t' ≡ pos value +ℤ pos g'
    chain v w t g u p r q t' g' h k a b =
        omega (int_laws, ap pos_part h, ap neg_part h, ap pos_part k, ap neg_part k, a, b)

-- In every state that any number of threads reach by any interleaving of their atomic steps, from a
-- semaphore that `sem_init` has set up: the value is from 0 to SEM_VALUE_MAX; the value, the waits that have
-- returned 0 and those that are about to add up to the first value, the posts that have returned 0 and those that
-- have added their unit, so that no two waits return with the same unit and none is lost; and the number of waiters
-- is exact, so that it never falls below 0.
pub Reachable-IsSound :
    (pshared : Bool) (value n : ℕ) (initial : Sem) (s : System)
    → sem_init pshared value ≡ some initial
    → Reachable n initial s
    → IsSound value s
unfolding sem_init
Reachable-IsSound pshared value n initial s h begin =
    elim (Bool-cases (ltb_ℤ sem_value_max (pos value))) [
      | inl big ↦ absurd (let g = rw big at h in cc)
      | inr fits ↦
          let g = rw fits at h in
          let same = ap (λ o. elim o as (λ _. Sem) [ none ↦ initial | some x ↦ x ]) g in
          rw (sym same) (
            (omega arith, ground arith),
            rw (none_count returns_wait n refl, none_count posts n refl) refl,
            sym (none_count waits n refl),
          )
    ]
Reachable-IsSound pshared value n initial s h (further r (start {s = from} i c at)) =
    let sound = Reachable-IsSound pshared value n initial from h r in
    after-IsSound value from i idle (stays from.sem (enter c from.sem)) at sound (
      let (a, b, d) = enter-starts c from.sem in
      stays-Balances from.sem idle (enter c from.sem) sound.0 (sym a) (omega (arith, b, d)))
Reachable-IsSound pshared value n initial s h (further r (go {s = from} i t f at)) =
    let sound = Reachable-IsSound pshared value n initial from h r in
    after-IsSound value from i t (act f from.sem t) at sound
      (act-Balances f from.sem t sound.0 (omega (arith, weight-le waits from.threads i t at)))
