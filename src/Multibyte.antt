-- ===== src/Multibyte.antt =====
-- src/multibyte.c: UTF-8 conversion. Bytes and code points are native numbers; `x << 6`, `x & 0x3f`
-- and `a | b` of values with no common bit are written `* 2 ^ 6`, `% 2 ^ 6` and `+`. A byte
-- pointer is the list of bytes from it to the end of its buffer, and a read past that is a fault.
-- The static `internal` state is whatever state the caller passes.
pub mod Decode
pub mod Restart
pub mod Strings
mod Examples
use libcs.Prelude.{
  ℕ, zero, suc, ◌+◌, ◌-◌, ◌*◌, ◌/◌, ◌%◌, ◌^◌, Bool, true, false, not, ◌&&◌, ◌||◌, Option, none,
  some, List, [], ◌∷◌, ◌++◌, Run, ok, fault, ◌>>=◌, ltb, leb, ◌==◌, if◌then◌else◌, length,
}

-- `mbstate_t`: the code point so far, and the bytes still needed with the lead byte above them.
pub record MbState : Type 0 where
  pub st : ℕ
  pub n : ℕ

abbrev pub initial : MbState
initial = record { st = 0; n = 0 }

-- `second_ok`: the bounds of the second byte, by the lead byte.
unfoldable pub second_ok : ℕ → ℕ → Bool
second_ok lead b =
    if lead == 0xe0
    then leb 0xa0 b && leb b 0xbf
    else if lead == 0xed
    then leb 0x80 b && leb b 0x9f
    else if lead == 0xf0
    then leb 0x90 b && leb b 0xbf
    else if lead == 0xf4
    then leb 0x80 b && leb b 0x8f
    else leb 0x80 b && leb b 0xbf

-- The `size_t` that `mbrtowc` returns; `ilseq` is the return (size_t)-1 with EILSEQ in errno.
pub data MbCount : Type 0 where
  count : ℕ → MbCount
  ilseq incomplete : MbCount

-- What a call leaves behind: its return, the code point that it stores if `wc` is not null, and
-- the state.
pub record MbResult : Type 0 where
  pub ret : MbCount
  pub wc : Option ℕ
  pub state : MbState

abbrev pub failed : MbResult
failed = record { ret = ilseq; wc = none; state = initial }

-- `lead ? !second_ok(lead, b) : (b & 0xc0) != 0x80`.
unfoldable pub rejects : ℕ → ℕ → Bool
rejects lead b = if lead == 0 then not (b / 2 ^ 6 == 2) else not (second_ok lead b)

-- The `while (need)` loop: `left` is `n - i`, and `s` starts at byte `i`.
unfoldable pub continue : ℕ → ℕ → List ℕ → ℕ → ℕ → ℕ → Run MbResult
continue zero left s i c lead = ok (record { ret = count i; wc = some c; state = initial })
continue (suc need) zero s i c lead =
    ok (record {
      ret = incomplete;
      wc = none;
      state = record { st = c; n = suc need + lead * 2 ^ 8 };
    })
continue (suc need) (suc left) [] i c lead = fault
continue (suc need) (suc left) (b ∷ s) i c lead =
    let rest = continue need left s (i + 1) (c * 2 ^ 6 % 2 ^ 32 + b % 2 ^ 6) 0 in
    if rejects lead b then ok failed else rest

-- The first byte of a character, at `i = 0` with no sequence pending.
unfoldable pub lead_byte : ℕ → ℕ → List ℕ → MbState → Run MbResult
lead_byte b left s st =
    if ltb b 0x80
    then ok (record { ret = count (if b == 0 then 0 else 1); wc = some b; state = st })
    else if leb 0xc2 b && leb b 0xdf
    then continue 1 left s 1 (b % 2 ^ 5) b
    else if leb 0xe0 b && leb b 0xef
    then continue 2 left s 1 (b % 2 ^ 4) b
    else if leb 0xf0 b && leb b 0xf4
    then continue 3 left s 1 (b % 2 ^ 3) b
    else ok failed

-- `mbrtowc(wc, src, n, st)`; `none` is a null `src`.
unfoldable pub mbrtowc : Option (List ℕ) → ℕ → MbState → Run MbResult
mbrtowc none n st =
    ok (record { ret = if st.n == 0 then count 0 else ilseq; wc = none; state = initial })
mbrtowc (some s) zero st = ok (record { ret = incomplete; wc = none; state = st })
mbrtowc (some s) (suc left) st =
    if st.n % 2 ^ 3 == 0
    then (elim s [ [] ↦ fault | b ∷ rest ↦ lead_byte b left rest st ])
    else continue (st.n % 2 ^ 3) (suc left) s 0 st.st (st.n / 2 ^ 8)

-- `mbsinit(st)`, for a state that is not null.
unfoldable pub mbsinit : MbState → Bool
mbsinit st = st.n == 0

-- `wcrtomb(s, wc, st)` for a buffer that is not null: the bytes stored, `none` for (size_t)-1 with
-- EILSEQ. `c` is the wide character as an `unsigned`.
unfoldable pub wcrtomb : ℕ → Option (List ℕ)
wcrtomb c =
    if ltb c 0x80
    then some (c ∷ [])
    else if ltb c 0x800
    then some ((0xc0 + c / 2 ^ 6) ∷ (0x80 + c % 2 ^ 6) ∷ [])
    else if ltb c 0x1_0000
    then (if ltb ((c + 2 ^ 32 - 0xd800) % 2 ^ 32) 0x800
        then none
        else some ((0xe0 + c / 2 ^ 12) ∷ (0x80 + c / 2 ^ 6 % 2 ^ 6) ∷ (0x80 + c % 2 ^ 6) ∷ []))
    else if ltb c 0x11_0000
    then some (
        (0xf0 + c / 2 ^ 18)
        ∷ (0x80 + c / 2 ^ 12 % 2 ^ 6)
        ∷ (0x80 + c / 2 ^ 6 % 2 ^ 6)
        ∷ (0x80 + c % 2 ^ 6)
        ∷ [])
    else none

-- `mbtowc(wc, s, n)`: `none` is the return -1.
unfoldable pub mbtowc : Option (List ℕ) → ℕ → Run (Option ℕ × Option ℕ)
mbtowc none n = ok (some 0, none)
mbtowc (some s) n = do
  r ← mbrtowc (some s) n initial
  ok (elim r.ret [ count k ↦ (some k, r.wc) | ilseq ↦ (none, none) | incomplete ↦ (none, none) ])

-- `mblen(s, n)`.
unfoldable pub mblen : Option (List ℕ) → ℕ → Run (Option ℕ)
mblen s n = do r ← mbtowc s n; ok r.0
