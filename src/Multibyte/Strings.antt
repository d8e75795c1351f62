-- ===== src/Multibyte/Strings.antt =====
-- src/multibyte.c: the string conversions `mbsrtowcs`, `wcsrtombs`, `mbstowcs` and `wcstombs`.
-- Counts are below the size of an address space, so that no `size_t` sum wraps.
pub mod Bounds
pub mod RoundTrip
pub mod Safety
use mathlib.Core.Option
use libcs.Prelude.{
  ℕ, zero, suc, ◌+◌, ◌-◌, ◌*◌, Bool, true, false, ◌&&◌, Option, none, some, List, [], ◌∷◌, ◌++◌,
  Run, ok, fault, ◌>>=◌, ltb, ◌==◌, if◌then◌else◌, length, drop,
}
use libcs.Multibyte.{
  MbState, initial, MbCount, count, ilseq, incomplete, MbResult, mbrtowc, wcrtomb,
}

-- What is stored through `src`: nothing, a null pointer, or the source pointer moved on.
pub data SrcPtr : Type 0 where
  kept null : SrcPtr
  moved : ℕ → SrcPtr

-- A conversion's return (`none` is (size_t)-1 with EILSEQ), what it has stored, in order from the
-- start of the destination, the update of `*src`, and the conversion state.
pub record Conversion : Type 0 where
  pub ret : Option ℕ
  pub stored : List ℕ
  pub src : SrcPtr
  pub state : MbState

abbrev pub prepend : List ℕ → Run Conversion → Run Conversion
prepend xs m = m >>= λ r. ok (record r { stored = xs ++ r.stored })

-- The loop body of `mbsrtowcs` after its call of `mbrtowc`, whose result is `r`; `next` is the rest
-- of the loop, from the number of bytes used and the state. `to` says that `ws` is not null, and the
-- pointer `s` is `off` bytes into `*src`.
unfoldable pub mbs_round : Bool → ℕ → ℕ → (ℕ → MbState → Run Conversion) → MbResult → Run Conversion
mbs_round to off cnt next r =
    let c = Option.get_or r.wc 0 in
    let stop = if to then moved off else kept in
    elim r.ret [
      | ilseq ↦ ok (record { ret = none; stored = []; src = stop; state = r.state })
      | incomplete ↦ ok (record { ret = none; stored = []; src = stop; state = r.state })
      | count k ↦
          let rest = next k r.state in
          if c == 0
          then ok (record {
            ret = some cnt;
            stored = if to then c ∷ [] else [];
            src = if to then null else kept;
            state = r.state;
          })
          else prepend (if to then c ∷ [] else []) rest
    ]

-- The loop of `mbsrtowcs`, with `left` for `n - cnt`, and `s` starting at the pointer of that name. The
-- last argument is the fuel.
unfoldable pub mbs_loop : Bool → ℕ → List ℕ → ℕ → ℕ → MbState → ℕ → Run Conversion
mbs_loop to left s off cnt st zero = fault
mbs_loop to left s off cnt st (suc fuel) =
    if to && (left == 0)
    then ok (record { ret = some cnt; stored = []; src = moved off; state = st })
    else (mbrtowc (some s) 4 st
        >>= mbs_round to off cnt
            (λ k st'. mbs_loop to (left - 1) (drop k s) (off + k) (cnt + 1) st' fuel))

-- `mbsrtowcs(ws, &s, n, st)`. Each round but the last consumes a byte, so a round for each byte of the
-- source is fuel enough.
unfoldable pub mbsrtowcs : Bool → List ℕ → ℕ → MbState → Run Conversion
mbsrtowcs to s n st = mbs_loop to n s 0 0 st (suc (length s))

-- `mbstowcs(ws, s, n)`.
unfoldable pub mbstowcs : Bool → List ℕ → ℕ → Run Conversion
mbstowcs to s n = mbsrtowcs to s n initial

-- The loop of `wcsrtombs`. `to` says that `s` is not null; `ws` starts at the pointer `w`, `off`
-- characters into `*src`.
unfoldable pub wcs_loop : MbState → Bool → ℕ → List ℕ → ℕ → ℕ → Run Conversion
wcs_loop st to n [] off cnt = fault
wcs_loop st to n (c ∷ ws) off cnt = elim (wcrtomb c) [
  | none ↦ ok (record { ret = none; stored = []; src = if to then moved off else kept; state = st })
  | some buf ↦
      let rest = wcs_loop st to n ws (off + 1) (cnt + length buf) in
      if to && ltb n (cnt + length buf)
      then ok (record { ret = some cnt; stored = []; src = moved off; state = st })
      else if c == 0
      then ok (record {
        ret = some cnt;
        stored = if to then 0 ∷ [] else [];
        src = if to then null else kept;
        state = st;
      })
      else prepend (if to then buf else []) rest
]

-- `wcsrtombs(s, &ws, n, st)`, which leaves the state alone. (`wcstombs` passes a null state.)
unfoldable pub wcsrtombs : Bool → List ℕ → ℕ → MbState → Run Conversion
wcsrtombs to ws n st = wcs_loop st to n ws 0 0

-- `wcstombs(s, ws, n)`.
unfoldable pub wcstombs : Bool → List ℕ → ℕ → Run Conversion
wcstombs to ws n = wcsrtombs to ws n initial
