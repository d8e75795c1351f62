-- ===== src/Str/Search.antt =====
-- src/string.c: comparison of bytes and the search for a string in another.
pub mod Places
pub mod Laws
mod Examples
use libcs.Prelude.{
  ℕ, zero, suc, ◌+◌, ◌-◌, Bool, Option, none, some, List, [], ◌∷◌, Run, ok, fault, ◌>>=◌, ltb, ◌==◌,
  if◌then◌else◌, drop,
}
use libcs.Prelude.Int.{ℤ, pos, sub_ℕ, eqb_ℤ}
use libcs.Str.Mem.{find, nul_index}

-- `memcmp(a, b, n)`.
unfoldable pub memcmp : List ℕ → List ℕ → ℕ → Run ℤ
memcmp a b zero = ok (pos 0)
memcmp [] b (suc n) = fault
memcmp (x ∷ a) [] (suc n) = fault
memcmp (x ∷ a) (y ∷ b) (suc n) = let rest = memcmp a b n in if x == y then rest else ok (sub_ℕ x y)

-- An offset from a place `j` bytes on.
abbrev pub shift : ℕ → Option ℕ → Option ℕ
shift j none = none
shift j (some i) = some (i + j)

-- The loop of `memmem` from `h`, with `end - h` places left; `x` is the needle's first byte. A round
-- leaves at least one place less, so `places` rounds are enough.
unfoldable pub memmem_loop : (rounds : ℕ) → (places : ℕ) → List ℕ → ℕ → List ℕ → ℕ → Run (Option ℕ)
memmem_loop zero places h x needle l = ok none
memmem_loop (suc rounds) zero h x needle l = ok none
memmem_loop (suc rounds) (suc places) h x needle l = find x (suc places) h >>= λ p. elim p [
  | none ↦ ok none
  | some j ↦ memcmp (drop j h) needle l >>= λ d.
      if eqb_ℤ d (pos 0)
      then ok (some j)
      else (memmem_loop rounds (suc places - suc j) (drop (suc j) h) x needle l >>= λ o.
          ok (shift (suc j) o))
]

-- `memmem(h, k, n, l)`, as an offset.
unfoldable pub memmem : List ℕ → ℕ → List ℕ → ℕ → Run (Option ℕ)
memmem h k needle zero = ok (some 0)
memmem h k [] (suc l) = if ltb k (suc l) then ok none else fault
memmem h k (x ∷ needle) (suc l) =
    if ltb k (suc l)
    then ok none
    else memmem_loop (k - suc l + 1) (k - suc l + 1) h x (x ∷ needle) (suc l)

-- `strstr(h, n)`, with `strlen` as its scan by bytes.
unfoldable pub strstr : List ℕ → List ℕ → Run (Option ℕ)
strstr h n =
    nul_index n >>= λ l. if l == 0 then ok (some 0) else (nul_index h >>= λ k. memmem h k n l)
