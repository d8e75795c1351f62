-- ===== src/Uchar.antt =====
-- src/uchar.c: UTF-16, UTF-32 and UTF-8 units over the conversions of src/multibyte.c. A flag in the state's
-- `n` is a bit of it; `a | b` of values with no common bit is `a + b`. The static `internal` states are
-- whatever states the caller passes, and what is stored through `c` or `s` is part of the result.
pub mod Utf16
pub mod Utf8
mod Examples
use libcs.Prelude.{
  ℕ, zero, suc, ◌+◌, ◌-◌, ◌*◌, ◌/◌, ◌%◌, ◌^◌, Bool, not, ◌&&◌, ◌||◌, Option, none, some, List, [],
  ◌∷◌, ◌++◌, Run, ok, fault, ◌>>=◌, ltb, leb, ◌==◌, if◌then◌else◌, length, take,
}
use libcs.Multibyte.{
  MbState, initial, MbCount, count, ilseq, incomplete, MbResult, mbrtowc, wcrtomb,
}

-- The `size_t` returned: that of `mbrtowc`, or (size_t)-3.
pub data UcharRet : Type 0 where
  counted : MbCount → UcharRet
  again : UcharRet

pub record UcharResult : Type 0 where
  pub ret : UcharRet
  pub unit : Option ℕ
  pub state : MbState

-- `st->__n & 1 << k`.
abbrev pub flag : ℕ → MbState → Bool
flag k st = st.n / 2 ^ k % 2 == 1

-- `mbrtoc32(c, s, n, st)`; a null `s` is `none`.
unfoldable pub mbrtoc32 : Option (List ℕ) → ℕ → MbState → Run MbResult
mbrtoc32 none n st = mbrtowc (some (0 ∷ [])) 1 st >>= λ r. ok (record r { wc = none })
mbrtoc32 (some s) n st = mbrtowc (some s) n st

-- `c32rtomb(s, c, st)`: the bytes stored, or `none` for EILSEQ.
unfoldable pub c32rtomb : ℕ → Option (List ℕ)
c32rtomb c = if ltb 0x10_ffff c || (leb 0xd800 c && leb c 0xdfff) then none else wcrtomb c

-- `mbrtoc16` once `mbrtowc` has given the character `wc`.
unfoldable pub split16 : MbCount → ℕ → MbState → UcharResult
split16 ret wc st =
    if leb 0x1_0000 wc
    then record {
      ret = counted ret;
      unit = some ((0xd800 + (wc - 0x1_0000) / 2 ^ 10) % 2 ^ 16);
      state = record { st = 0xdc00 + (wc - 0x1_0000) % 2 ^ 10; n = 2 ^ 31 };
    }
    else record { ret = counted ret; unit = some (wc % 2 ^ 16); state = st }

-- What follows a call of `mbrtowc`: `f` if it has given a character.
abbrev pub converted : (MbCount → ℕ → MbState → Run UcharResult) → MbResult → Run UcharResult
converted f r = elim r.wc [
  | none ↦ ok (record { ret = counted r.ret; unit = none; state = r.state })
  | some wc ↦ f r.ret wc r.state
]

abbrev pub without_unit : UcharResult → UcharResult
without_unit r = record r { unit = none }

-- `mbrtoc16(c, s, n, st)`.
unfoldable pub mbrtoc16 : Option (List ℕ) → ℕ → MbState → Run UcharResult
mbrtoc16 s n st =
    if flag 31 st
    then ok (record { ret = again; unit = some (st.st % 2 ^ 16); state = initial })
    else elim s [
      | none ↦
          (mbrtowc (some (0 ∷ [])) 1 st >>= converted (λ ret wc st. ok (split16 ret wc st)))
          >>= λ r. ok (without_unit r)
      | some s ↦ mbrtowc (some s) n st >>= converted (λ ret wc st. ok (split16 ret wc st))
    ]

-- `c16rtomb(s, c, st)`: the bytes stored, `none` for EILSEQ, and the state. A null `s` is as `c` = 0.
unfoldable pub c16rtomb : ℕ → MbState → Option (List ℕ) × MbState
c16rtomb c st =
    if flag 30 st
    then (if ltb c 0xdc00 || ltb 0xdfff c then (none, initial) else (
      wcrtomb ((0x1_0000 + (st.st + (2 ^ 32 - 0xd800)) % 2 ^ 32 * 2 ^ 10 + (c - 0xdc00)) % 2 ^ 32),
      initial,
    ))
    else (if leb 0xd800 c && leb c 0xdbff
        then (some [], record { st = c; n = 2 ^ 30 })
        else (if leb 0xdc00 c && leb c 0xdfff then (none, st) else (wcrtomb c, st)))

-- The bytes of `__st`, the first one lowest.
unfoldable pub pack : List ℕ → ℕ
pack [] = 0
pack (b ∷ bs) = pack bs * 2 ^ 8 + b

unfoldable pub unpack : ℕ → ℕ → List ℕ
unpack zero st = []
unpack (suc k) st = st % 2 ^ 8 ∷ unpack k (st / 2 ^ 8)

-- `mbrtoc8` once `mbrtowc` has given the character `wc`, which `wcrtomb` encodes.
unfoldable pub split8 : MbCount → ℕ → MbState → Run UcharResult
split8 ret wc st = elim (wcrtomb wc) [
  | none ↦ fault
  | some [] ↦ fault
  | some (b ∷ []) ↦ ok (record { ret = counted ret; unit = some b; state = st })
  | some (b ∷ b' ∷ bs) ↦ ok (record {
    ret = counted ret;
    unit = some b;
    state = record { st = pack (b' ∷ bs); n = 2 ^ 29 + length (b' ∷ bs) };
  })
]

-- `mbrtoc8` with bytes still to be returned, `k` of them; `--k` wraps around.
unfoldable pub next8 : ℕ → ℕ → UcharResult
next8 zero st = record {
  ret = again;
  unit = some (st % 2 ^ 8);
  state = record { st = st / 2 ^ 8; n = 2 ^ 32 - 1 };
}
next8 (suc zero) st = record { ret = again; unit = some (st % 2 ^ 8); state = initial }
next8 (suc (suc k)) st = record {
  ret = again;
  unit = some (st % 2 ^ 8);
  state = record { st = st / 2 ^ 8; n = 2 ^ 29 + suc k };
}

-- `mbrtoc8(c, s, n, st)`.
unfoldable pub mbrtoc8 : Option (List ℕ) → ℕ → MbState → Run UcharResult
mbrtoc8 s n st = if flag 29 st then ok (next8 (st.n % 4) st.st) else elim s [
  | none ↦ (mbrtowc (some (0 ∷ [])) 1 st >>= converted split8) >>= λ r. ok (without_unit r)
  | some s ↦ mbrtowc (some s) n st >>= converted split8
]

-- `c8rtomb(0, c, st)`: `true` for 1, `false` for EILSEQ, and the state.
unfoldable pub c8reset : MbState → Bool × MbState
c8reset st = (not (flag 28 st), initial)

-- `c8rtomb` for the first byte of a character.
unfoldable pub c8first : ℕ → MbState → Option (List ℕ) × MbState
c8first c st =
    if ltb c 0x80
    then (some (c ∷ []), st)
    else (if ltb c 0xc2 || ltb 0xf4 c
        then (none, st)
        else (some [], record { st = c; n = 2 ^ 28 + 1 }))

-- `need`, by the first byte.
unfoldable pub needed : List ℕ → ℕ
needed [] = 4
needed (b ∷ bs) = if ltb b 0xe0 then 2 else (if ltb b 0xf0 then 3 else 4)

-- `c8rtomb` for the bytes `b` so far, which may begin a character: they are kept or stored.
unfoldable pub c8keep : ℕ → List ℕ → ℕ → MbState → Option (List ℕ) × MbState
c8keep have b c st =
    if ltb (have + 1) (needed b)
    then (some [], record { st = st.st + c * 2 ^ (8 * have); n = 2 ^ 28 + (have + 1) })
    else (some (take (needed b) b), initial)

-- `c8rtomb` for the bytes `b` so far, the last one new, and the state before it.
unfoldable pub c8more : ℕ → List ℕ → ℕ → MbState → Run (Option (List ℕ) × MbState)
c8more have b c st = mbrtowc (some b) (have + 1) initial >>= λ r. ok (elim r.ret [
  | ilseq ↦ (none, initial)
  | incomplete ↦ c8keep have b c st
  | count i ↦ c8keep have b c st
])

-- `c8rtomb(s, c, st)` where `s` is not null: the bytes stored, `none` for EILSEQ, and the state.
unfoldable pub c8rtomb : ℕ → MbState → Run (Option (List ℕ) × MbState)
c8rtomb c st =
    let have = if flag 28 st then st.n % 4 else 0 in
    if have == 0 then ok (c8first c st) else c8more have (unpack have st.st ++ c ∷ []) c st
