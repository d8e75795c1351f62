-- ===== src/Str/Copy.antt =====
-- src/string.c: the copying string functions on disjoint buffers, and their fortified variants. The
-- results are the destination buffer and, where the code returns a pointer into it, that offset.
pub mod Laws
pub mod Append
pub mod Fortify
use libcs.Prelude.{
  ℕ, zero, suc, ◌+◌, ◌-◌, ◌≡◌, refl, arith, Bool, true, false, ◌||◌, List, [], ◌∷◌, Run, ok, fault,
  ◌>>=◌, ltb, ◌==◌, if◌then◌else◌,
}
use libcs.Str.Mem.{at, memcpy, memset, store, nul_index, strnlen}

unfoldable pub mempcpy : List ℕ → List ℕ → ℕ → Run (List ℕ × ℕ)
mempcpy d s n = do r ← memcpy d s n; ok (r, n)

unfoldable pub stpcpy : List ℕ → List ℕ → Run (List ℕ × ℕ)
stpcpy d s = do n ← nul_index s; r ← memcpy d s (n + 1); ok (r, n)

unfoldable pub strcpy : List ℕ → List ℕ → Run (List ℕ)
strcpy d s = do r ← stpcpy d s; ok r.0

unfoldable pub stpncpy : List ℕ → List ℕ → ℕ → Run (List ℕ × ℕ)
stpncpy d s n = do
  l ← strnlen s n
  d1 ← memcpy d s l
  d2 ← at l (λ e. memset e 0 (n - l)) d1
  ok (d2, l)

unfoldable pub strncpy : List ℕ → List ℕ → ℕ → Run (List ℕ)
strncpy d s n = do r ← stpncpy d s n; ok r.0

unfoldable pub strcat : List ℕ → List ℕ → Run (List ℕ)
strcat d s = do n ← nul_index d; at n (λ e. strcpy e s) d

unfoldable pub strncat : List ℕ → List ℕ → ℕ → Run (List ℕ)
strncat d s n = do
  a ← nul_index d
  l ← strnlen s n
  d1 ← at a (λ e. memcpy e s l) d
  at (a + l) (store 0) d1

unfoldable pub strlcpy : List ℕ → List ℕ → ℕ → Run (List ℕ × ℕ)
strlcpy d s n = do
  l ← nul_index s
  (if n == 0
      then ok (d, l)
      else (let c = if ltb l (n - 1) then l else n - 1 in
          do d1 ← memcpy d s c; d2 ← at c (store 0) d1; ok (d2, l)))

-- `at_with k f d`: a call at `d + k` that also returns a number.
unfoldable pub at_with : ℕ → (List ℕ → Run (List ℕ × ℕ)) → List ℕ → Run (List ℕ × ℕ)
at_with zero f d = f d
at_with (suc k) f [] = fault
at_with (suc k) f (x ∷ d) = do r ← at_with k f d; ok (x ∷ r.0, r.1)

unfoldable pub strlcat : List ℕ → List ℕ → ℕ → Run (List ℕ × ℕ)
strlcat d s n = do
  l ← strnlen d n
  (if l == n
      then (do m ← nul_index s; ok (d, l + m))
      else (do r ← at_with l (λ e. strlcpy e s (n - l)) d; ok (r.0, l + r.1)))

-- A fortified call ends in `__chk_fail`, which aborts the program, or runs.
pub data Checked {ℓ} (A : Type ℓ) : Type ℓ where
  aborts : Checked A
  runs : Run A → Checked A

-- A `Checked` that begins with a read.
unfoldable pub read {ℓ κ} : {A : Type ℓ} {B : Type κ} → Run A → (A → Checked B) → Checked B
read (ok a) f = f a
read fault f = runs fault

unfoldable pub memcpy_chk : List ℕ → List ℕ → ℕ → ℕ → Checked (List ℕ)
memcpy_chk d s n dl = if ltb dl n then aborts else runs (memcpy d s n)

unfoldable pub memset_chk : List ℕ → ℕ → ℕ → ℕ → Checked (List ℕ)
memset_chk d c n dl = if ltb dl n then aborts else runs (memset d c n)

unfoldable pub mempcpy_chk : List ℕ → List ℕ → ℕ → ℕ → Checked (List ℕ × ℕ)
mempcpy_chk d s n dl = if ltb dl n then aborts else runs (mempcpy d s n)

unfoldable pub strcpy_chk : List ℕ → List ℕ → ℕ → Checked (List ℕ)
strcpy_chk d s dl =
    read (nul_index s) λ l. let n = l + 1 in if ltb dl n then aborts else runs (memcpy d s n)

unfoldable pub stpcpy_chk : List ℕ → List ℕ → ℕ → Checked (List ℕ × ℕ)
stpcpy_chk d s dl =
    read (nul_index s)
      λ n. if ltb dl (n + 1) then aborts else runs (do r ← memcpy d s (n + 1); ok (r, n))

unfoldable pub strncpy_chk : List ℕ → List ℕ → ℕ → ℕ → Checked (List ℕ)
strncpy_chk d s n dl = if ltb dl n then aborts else runs (strncpy d s n)

unfoldable pub stpncpy_chk : List ℕ → List ℕ → ℕ → ℕ → Checked (List ℕ × ℕ)
stpncpy_chk d s n dl = if ltb dl n then aborts else runs (stpncpy d s n)

unfoldable pub strcat_chk : List ℕ → List ℕ → ℕ → Checked (List ℕ)
strcat_chk d s dl = read (strnlen d dl) λ a.
    read (nul_index s) λ b.
      if (a == dl) || ltb dl (a + b + 1) then aborts else runs (at a (λ e. memcpy e s (b + 1)) d)

unfoldable pub strncat_chk : List ℕ → List ℕ → ℕ → ℕ → Checked (List ℕ)
strncat_chk d s n dl = read (strnlen d dl) λ a. read (strnlen s n) λ b.
    if (a == dl) || ltb dl (a + b + 1)
    then aborts
    else runs (do d1 ← at a (λ e. memcpy e s b) d; at (a + b) (store 0) d1)

unfoldable pub strlcpy_chk : List ℕ → List ℕ → ℕ → ℕ → Checked (List ℕ × ℕ)
strlcpy_chk d s n dl = if ltb dl n then aborts else runs (strlcpy d s n)

unfoldable pub strlcat_chk : List ℕ → List ℕ → ℕ → ℕ → Checked (List ℕ × ℕ)
strlcat_chk d s n dl = if ltb dl n then aborts else runs (strlcat d s n)
