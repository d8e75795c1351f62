-- ===== src/Str/Span.antt =====
-- src/string.c: spans of bytes in a set, the functions that cut a string at separators, and searches for one
-- byte. The bits of `byteset` are a list of 256: bit `b % 64` of word `b / 64` is the one at `b`.
pub mod Laws
mod Examples
use libcs.Prelude.{
  ℕ, zero, suc, ◌+◌, ◌-◌, ◌%◌, Bool, true, false, not, ◌&&◌, ◌||◌, Option, none, some, List, [],
  ◌∷◌, Run, ok, fault, ◌>>=◌, ◌==◌, if◌then◌else◌, get_or, set, replicate, drop,
}
use libcs.Str.Mem.{nul_index, index_or, further, at, store, keep}
use libcs.Str.Word.{find_or_end}

-- `*s`.
abbrev pub deref : List ℕ → Run ℕ
deref [] = fault
deref (x ∷ s) = ok x

-- `s + n`, within the buffer or one past its end.
unfoldable pub at_offset : ℕ → List ℕ → Run (List ℕ)
at_offset zero s = ok s
at_offset (suc n) [] = fault
at_offset (suc n) (x ∷ s) = at_offset n s

-- The loop that enters the bytes of `c` into the set.
unfoldable pub fill : List ℕ → List Bool → Run (List Bool)
fill [] bits = fault
fill (x ∷ c) bits = let rest = fill c (set bits x true) in if x == 0 then ok bits else rest

abbrev pub one_more : Run ℕ → Run ℕ
one_more m = m >>= λ n. ok (suc n)

-- The loop of `strspn` for one byte.
unfoldable pub span_byte : ℕ → List ℕ → Run ℕ
span_byte x [] = fault
span_byte x (y ∷ s) = let rest = one_more (span_byte x s) in if y == x then rest else ok 0

-- The loop of `strspn`, and of `strcspn`, over a set: while the bit of the byte is `b`.
unfoldable pub span_set : Bool → List Bool → List ℕ → Run ℕ
span_set b bits [] = fault
span_set b bits (y ∷ s) =
    let rest = one_more (span_set b bits s) in
    if y == 0
    then ok 0
    else (if get_or bits y false then (if b then rest else ok 0) else (if b then ok 0 else rest))

abbrev pub no_bits : List Bool
no_bits = replicate 256 false

-- `strspn(s, c)`.
unfoldable pub strspn : List ℕ → List ℕ → Run ℕ
strspn s [] = fault
strspn s (x ∷ []) = if x == 0 then ok 0 else fault
strspn s (x ∷ y ∷ c) =
    if x == 0
    then ok 0
    else (if y == 0
        then span_byte x s
        else (fill (x ∷ y ∷ c) no_bits >>= λ bits. span_set true bits s))

-- `strcspn(s, c)`, with `strchrnul` as its scan by bytes.
unfoldable pub strcspn : List ℕ → List ℕ → Run ℕ
strcspn s [] = fault
strcspn s (x ∷ []) = if x == 0 then find_or_end x s else fault
strcspn s (x ∷ y ∷ c) =
    if (x == 0) || (y == 0)
    then find_or_end x s
    else (fill (x ∷ y ∷ c) no_bits >>= λ bits. span_set false bits s)

-- `strpbrk(s, b)`, as an offset.
unfoldable pub strpbrk : List ℕ → List ℕ → Run (Option ℕ)
strpbrk s b = strcspn s b >>= λ n.
    at_offset n s >>= λ t. deref t >>= λ c. ok (if c == 0 then none else some n)

-- `strchr(s, c)`, as an offset.
unfoldable pub strchr : List ℕ → ℕ → Run (Option ℕ)
strchr s c = find_or_end (c % 256) s >>= λ n.
    at_offset n s >>= λ t. deref t >>= λ b. ok (if b == c % 256 then some n else none)

-- `memrchr(m, c, n)`, as an offset.
unfoldable pub memrchr : List ℕ → ℕ → ℕ → Run (Option ℕ)
memrchr s c zero = ok none
memrchr s c (suc n) =
    let rest = memrchr s c n in
    at_offset n s >>= λ t. deref t >>= λ b. if b == c % 256 then ok (some n) else rest

-- `strrchr(s, c)`.
unfoldable pub strrchr : List ℕ → ℕ → Run (Option ℕ)
strrchr s c = nul_index s >>= λ n. memrchr s c (n + 1)

-- `memccpy(d, s, c, n)`: the destination, and the offset behind the copy of `c`.
unfoldable pub memccpy : List ℕ → List ℕ → ℕ → ℕ → Run (List ℕ × Option ℕ)
memccpy d s c zero = ok (d, none)
memccpy [] s c (suc n) = fault
memccpy (x ∷ d) [] c (suc n) = fault
memccpy (x ∷ d) (y ∷ s) c (suc n) =
    let rest = memccpy d s c n >>= λ (e, p). ok (y ∷ e, further p) in
    if y == c % 256 then ok (y ∷ d, some 1) else rest

-- `strtok_r(s, sep, &p)` in the buffer `s0`, by offsets: the token, the new `p`, and the buffer.
unfoldable pub cut_token : List ℕ → ℕ → List ℕ → Run (Option ℕ × Option ℕ × List ℕ)
cut_token s0 s sep = at_offset s s0 >>= λ t. strspn t sep >>= λ skipped.
    at_offset skipped t >>= λ token. deref token >>= λ c.
    if c == 0
    then ok (none, none, s0)
    else (strcspn token sep >>= λ n. at_offset n token >>= λ end. deref end >>= λ e.
        if e == 0
        then ok (some (s + skipped), none, s0)
        else (at (s + skipped + n) (store 0) s0 >>= λ s1.
            ok (some (s + skipped), some (s + skipped + n + 1), s1)))

unfoldable pub strtok_r : List ℕ → Option ℕ → List ℕ → Option ℕ → Run (Option ℕ × Option ℕ × List ℕ)
strtok_r s0 (some s) sep p = cut_token s0 s sep
strtok_r s0 none sep none = ok (none, none, s0)
strtok_r s0 none sep (some p) = cut_token s0 p sep

-- `strsep(&str, sep)`: the field, the new `*str`, and the buffer.
unfoldable pub strsep : List ℕ → Option ℕ → List ℕ → Run (Option ℕ × Option ℕ × List ℕ)
strsep s0 none sep = ok (none, none, s0)
strsep s0 (some s) sep = at_offset s s0 >>= λ field. strcspn field sep >>= λ n.
    at_offset n field >>= λ end. deref end >>= λ e.
    if e == 0
    then ok (some s, none, s0)
    else (at (s + n) (store 0) s0 >>= λ s1. ok (some s, some (s + n + 1), s1))
