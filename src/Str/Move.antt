-- ===== src/Str/Move.antt =====
-- src/string.c: memmove, where the two places lie in one memory. The memory is the list of its bytes, and
-- `d` and `s` are offsets into it.
pub mod Laws
pub mod Loops
mod Examples
use libcs.Prelude.{
  ℕ, zero, suc, ◌+◌, ◌-◌, ◌%◌, ◌^◌, Bool, not, ◌&&◌, List, [], ◌∷◌, Run, ok, fault, ◌>>=◌,
  from_option, ltb, leb, ◌==◌, if◌then◌else◌, get_elem?, set,
}

-- The `k` bytes at `s`, and a store of bytes at `d`.
unfoldable pub load : ℕ → ℕ → List ℕ → Run (List ℕ)
load s zero m = ok []
load s (suc k) m = from_option (get_elem? m s) >>= λ b. load (suc s) k m >>= λ bs. ok (b ∷ bs)

unfoldable pub write : ℕ → List ℕ → List ℕ → Run (List ℕ)
write d [] m = ok m
write d (b ∷ bs) m = from_option (get_elem? m d) >>= λ _. write (suc d) bs (set m d b)

-- `k` bytes are loaded before any of them is stored: a byte, or a word.
unfoldable pub copy : ℕ → ℕ → ℕ → List ℕ → Run (List ℕ)
copy d s k m = load s k m >>= λ bs. write d bs m

-- `memcpy` inside one memory: `rep movsb` copies byte after byte, upwards.
unfoldable pub copy_up : ℕ → ℕ → ℕ → List ℕ → Run (List ℕ)
copy_up d s zero m = ok m
copy_up d s (suc n) m = copy d s 1 m >>= λ m1. copy_up (suc d) (suc s) n m1

-- `while (n--) *--dd = *--ss;`, where `dd` and `ss` are `d + n` and `s + n`.
unfoldable pub down_bytes : ℕ → ℕ → ℕ → List ℕ → Run (List ℕ)
down_bytes d s zero m = ok m
down_bytes d s (suc n) m = copy (d + n) (s + n) 1 m >>= λ m1. down_bytes d s n m1

-- The loop over words, and what follows it, with a bound on the rounds.
unfoldable pub down_words : ℕ → ℕ → ℕ → ℕ → List ℕ → Run (List ℕ)
down_words zero d s n m = fault
down_words (suc rounds) d s n m =
    if leb 8 n
    then (copy (d + (n - 8)) (s + (n - 8)) 8 m >>= λ m1. down_words rounds d s (n - 8) m1)
    else down_bytes d s n m

-- The loop up to a word boundary, and what follows it; the memory starts at the address `a`.
unfoldable pub down : ℕ → ℕ → ℕ → ℕ → List ℕ → Run (List ℕ)
down a d s zero m = down_words 1 d s 0 m
down a d s (suc n) m =
    if leb 8 (suc n) && not ((a + d + suc n) % 8 == 0)
    then (copy (d + n) (s + n) 1 m >>= λ m1. down a d s n m1)
    else down_words (suc (suc n)) d s (suc n) m

-- `memmove(d, s, n)`; the difference of the addresses wraps around.
unfoldable pub memmove : ℕ → ℕ → ℕ → ℕ → List ℕ → Run (List ℕ)
memmove a d s n m = if leb n ((d + (2 ^ 64 - s)) % 2 ^ 64) then copy_up d s n m else down a d s n m
