-- ===== src/Semaphore.antt =====
-- src/semaphore.c: unnamed semaphores, as threads that take one atomic step at a time. Each access to the
-- semaphore's words is a step of its own, so other threads act between any two of them. The kernel's
-- futex call is a step whose result the environment chooses; cancellation points are left out.
pub mod Invariant
pub mod Alone
mod Examples
use libcs.Prelude.{
  ℕ, zero, suc, ◌+◌, ◌-◌, ◌^◌, ◌≡◌, Bool, true, false, not, ◌||◌, Option, none, some, List, [], ◌∷◌,
  ltb, leb, ◌==◌, if◌then◌else◌, get_elem?, set, replicate,
}
use libcs.Prelude.Int.{ℤ, pos, negsuc, ◌+ℤ◌, ◌-ℤ◌, ltb_ℤ, eqb_ℤ}

abbrev pub sem_value_max : ℤ
sem_value_max = pos (2 ^ 31 - 1)

-- `sem_t`: `__val[0]`, `__val[1]` and `__val[2]`.
pub record Sem : Type 0 where
  pub value : ℤ
  pub waiters : ℕ
  pub is_private : Bool

-- `sem_init(s, pshared, value)`; `none` is the return -1 with EINVAL.
unfoldable pub sem_init : Bool → ℕ → Option Sem
sem_init pshared value =
    if ltb_ℤ sem_value_max (pos value)
    then none
    else some (record { value = pos value; waiters = 0; is_private = not pshared })

-- `sem_getvalue(s, &v)`.
unfoldable pub sem_getvalue : Sem → ℤ
sem_getvalue s = if ltb_ℤ s.value (pos 0) then pos 0 else s.value

pub data Errno : Type 0 where
  eagain : Errno
  einval : Errno
  eoverflow : Errno
  etimedout : Errno
  eintr : Errno

-- What `__futex_timedwait` returns: 0 or -EAGAIN, for which the loop goes round, or one of two errors.
pub data FutexResult : Type 0 where
  go_round : FutexResult
  timed_out : FutexResult
  interrupted : FutexResult

pub data Call : Type 0 where
  trywait : Call
  -- `sem_clockwait`: whether the clock is a known one, and `abs->tv_nsec` unless `abs` is null.
  clockwait : Bool → Option ℤ → Call
  post : Call

-- Where a thread stands, with the local `v` that it has read.
pub data Thread : Type 0 where
  idle : Thread
  -- Before the compare-and-exchange of `sem_trywait`.
  try_cas : ℤ → Thread
  -- In the loop of `sem_clockwait`: before the load, after it, before the futex call, after it.
  wait_load : Option ℤ → Thread
  wait_test : Option ℤ → ℤ → Thread
  wait_futex : Option ℤ → ℤ → Thread
  wait_leave : Option ℤ → FutexResult → Thread
  -- Before the compare-and-exchange of `sem_post`, and before its wake.
  post_cas : ℤ → Thread
  post_wake : Thread
  -- Before the return of 0, from a wait and from `sem_post`, and before the return of -1.
  waited : Thread
  posted : Thread
  failed : Errno → Thread

-- The start of a call, up to and including its first load.
unfoldable pub enter : Call → Sem → Thread
enter trywait s = try_cas s.value
enter (clockwait known nsec) s = if known then wait_load nsec else failed einval
enter post s = post_cas s.value

abbrev pub bad_nsec : Option ℤ → Bool
bad_nsec none = false
bad_nsec (some nsec) = ltb_ℤ nsec (pos 0) || not (ltb_ℤ nsec (pos 1000000000))

pub record Outcome : Type 0 where
  pub sem : Sem
  pub thread : Thread

abbrev pub stays : Sem → Thread → Outcome
stays s t = record { sem = s; thread = t }

abbrev pub with_value : Sem → ℤ → Sem
with_value s v = record { value = v; waiters = s.waiters; is_private = s.is_private }

abbrev pub with_waiters : Sem → ℕ → Sem
with_waiters s n = record { value = s.value; waiters = n; is_private = s.is_private }

-- One atomic step of a thread; `r` is what the futex call returns if the step is that call. A
-- compare-and-exchange that fails reloads `v`.
unfoldable pub act : FutexResult → Sem → Thread → Outcome
act r s idle = stays s idle
act r s (try_cas v) =
    if ltb_ℤ (pos 0) v
    then (if eqb_ℤ s.value v
        then record { sem = with_value s (v -ℤ pos 1); thread = waited }
        else stays s (try_cas s.value))
    else stays s (failed eagain)
act r s (wait_load nsec) = stays s (wait_test nsec s.value)
act r s (wait_test nsec v) =
    if ltb_ℤ (pos 0) v
    then (if eqb_ℤ s.value v
        then record { sem = with_value s (v -ℤ pos 1); thread = waited }
        else stays s (wait_load nsec))
    else (if bad_nsec nsec
        then stays s (failed einval)
        else stays (with_waiters s (s.waiters + 1)) (wait_futex nsec v))
act r s (wait_futex nsec v) = stays s (wait_leave nsec r)
act r s (wait_leave nsec go_round) = stays (with_waiters s (s.waiters - 1)) (wait_load nsec)
act r s (wait_leave nsec timed_out) = stays (with_waiters s (s.waiters - 1)) (failed etimedout)
act r s (wait_leave nsec interrupted) = stays (with_waiters s (s.waiters - 1)) (failed eintr)
act r s (post_cas v) =
    if eqb_ℤ v sem_value_max
    then stays s (failed eoverflow)
    else (if eqb_ℤ s.value v
        then record { sem = with_value s (v +ℤ pos 1); thread = post_wake }
        else stays s (post_cas s.value))
act r s post_wake = stays s posted
act r s waited = stays s idle
act r s posted = stays s idle
act r s (failed e) = stays s idle

-- A semaphore and the threads that use it, with the number of waits and of posts that have returned 0 so far.
pub record System : Type 0 where
  pub sem : Sem
  pub threads : List Thread
  pub taken : ℕ
  pub given : ℕ

-- Whether the next step of a thread is the return of 0 from a wait, and from a post.
abbrev pub returns_wait : Thread → ℕ
returns_wait idle = 0
returns_wait (try_cas v) = 0
returns_wait (wait_load nsec) = 0
returns_wait (wait_test nsec v) = 0
returns_wait (wait_futex nsec v) = 0
returns_wait (wait_leave nsec r) = 0
returns_wait (post_cas v) = 0
returns_wait post_wake = 0
returns_wait waited = 1
returns_wait posted = 0
returns_wait (failed e) = 0

abbrev pub returns_post : Thread → ℕ
returns_post idle = 0
returns_post (try_cas v) = 0
returns_post (wait_load nsec) = 0
returns_post (wait_test nsec v) = 0
returns_post (wait_futex nsec v) = 0
returns_post (wait_leave nsec r) = 0
returns_post (post_cas v) = 0
returns_post post_wake = 0
returns_post waited = 0
returns_post posted = 1
returns_post (failed e) = 0

-- The system after a step of thread `i`, which stood at `t`.
abbrev pub after : System → ℕ → Thread → Outcome → System
after s i t o = record {
  sem = o.sem;
  threads = set s.threads i o.thread;
  taken = s.taken + returns_wait t;
  given = s.given + returns_post t;
}

-- A thread starts a call, or goes on with the one it is in.
pub data Step : System → System → Type 0 where
  start :
      {s : System} (i : ℕ) (c : Call)
      → get_elem? s.threads i ≡ some idle
      → Step s (after s i idle (stays s.sem (enter c s.sem)))
  go :
      {s : System} (i : ℕ) (t : Thread) (r : FutexResult)
      → get_elem? s.threads i ≡ some t
      → Step s (after s i t (act r s.sem t))

-- The systems that `n` threads reach with a semaphore that `sem_init` has set up.
pub data Reachable (n : ℕ) (initial : Sem) : System → Type 0 where
  begin :
      Reachable n initial
        (record { sem = initial; threads = replicate n idle; taken = 0; given = 0 })
  further : {s t : System} → Reachable n initial s → Step s t → Reachable n initial t
