-- ===== src/Uchar/Utf16.antt =====
-- src/uchar.c: a character in UTF-16 units, one call for each.
use libcs.Prelude.{
  ℕ, zero, suc, ◌+◌, ◌-◌, ◌*◌, ◌/◌, ◌%◌, ◌^◌, ◌≤◌, ◌<◌, ◌≡◌, arith, Option, none, some, List, [],
  ◌∷◌, ◌++◌, Run, ok, fault, ◌>>=◌, ltb, leb, ◌==◌, if◌then◌else◌, length, Bool-cases, inl, inr,
  append-nil,
}
use libcs.Multibyte.{MbState, initial, wcrtomb}
use libcs.Multibyte.Decode.{mbrtowc-wcrtomb}
use libcs.Uchar.{split16, mbrtoc16, c16rtomb}

-- The units that calls of `mbrtoc16` on the same bytes store, up to the first that leaves nothing pending.
unfoldable pub drain16 : ℕ → List ℕ → ℕ → MbState → Run (List ℕ)
drain16 zero s n st = fault
drain16 (suc calls) s n st = mbrtoc16 (some s) n st >>= λ r. elim r.unit [
  | none ↦ fault
  | some u ↦
      if r.state.n == 0 then ok (u ∷ []) else (drain16 calls s n r.state >>= λ us. ok (u ∷ us))
]

-- The bytes that calls of `c16rtomb` on the units store, and the state that they leave.
unfoldable pub feed16 : List ℕ → MbState → Option (List ℕ × MbState)
feed16 [] st = some ([], st)
feed16 (u ∷ us) st =
    let (stored, st') = c16rtomb u st in
    elim stored [
      | none ↦ none
      | some bytes ↦ elim (feed16 us st') [
        | none ↦ none
        | some (more, st'') ↦ some (bytes ++ more, st'')
      ]
    ]

-- The units of a character as UTF-16 defines them.
abbrev pub units16 : ℕ → List ℕ
units16 c =
    if ltb c 0x1_0000
    then c ∷ []
    else (0xd800 + (c - 0x1_0000) / 2 ^ 10) ∷ (0xdc00 + (c - 0x1_0000) % 2 ^ 10) ∷ []

wcrtomb-lt : (c : ℕ) (bytes : List ℕ) → wcrtomb c ≡ some bytes → c < 0x11_0000
unfolding wcrtomb
wcrtomb-lt c bytes e = ground arith

no_surrogate : (c : ℕ) (bytes : List ℕ) → wcrtomb c ≡ some bytes → 0xd800 ≤ c → c < 0xe000 → ⊥
unfolding wcrtomb
no_surrogate c bytes e h k = ground arith

module _ (c n : ℕ) (bytes rest : List ℕ) (e : wcrtomb c ≡ some bytes)
    (room : length bytes ≤ n) where
  drain16-units16 : drain16 2 (bytes ++ rest) n initial ≡ ok (units16 c)
  unfolding drain16 mbrtoc16 split16
  drain16-units16 = elim (Bool-cases (leb 0x1_0000 c)) [
    | inl h ↦ ground (arith, mbrtowc-wcrtomb c n bytes rest e room, wcrtomb-lt c bytes e)
    | inr h ↦ ground (arith, mbrtowc-wcrtomb c n bytes rest e room)
  ]

feed16-units16 :
    (c : ℕ) (bytes : List ℕ)
    → wcrtomb c ≡ some bytes
    → feed16 (units16 c) initial ≡ some (bytes, initial)
unfolding feed16 c16rtomb
feed16-units16 c bytes e = elim (Bool-cases (ltb c 0x1_0000)) [
  | inl h ↦ ground (arith, no_surrogate c bytes e, append-nil bytes)
  | inr h ↦
      let top = wcrtomb-lt c bytes e in
      let whole : (0x1_0000
              + (0xd800 + (c - 0x1_0000) / 2 ^ 10 + (2 ^ 32 - 0xd800)) % 2 ^ 32 * 2 ^ 10
              + (0xdc00 + (c - 0x1_0000) % 2 ^ 10 - 0xdc00))
            % 2 ^ 32
          ≡ c =
        ground arith in
      ground (arith, append-nil bytes, whole)
]

-- The units that `mbrtoc16` gives, one call after another, for the bytes of a character are those of UTF-16,
-- whatever follows the bytes; and `c16rtomb` turns these units, one call after another, back into the bytes.
pub mbrtoc16-c16rtomb :
    (c n : ℕ) (bytes rest : List ℕ)
    → wcrtomb c ≡ some bytes
    → length bytes ≤ n
    → (drain16 2 (bytes ++ rest) n initial ≡ ok (units16 c))
      × (feed16 (units16 c) initial ≡ some (bytes, initial))
mbrtoc16-c16rtomb c n bytes rest e room =
    (drain16-units16 c n bytes rest e room, feed16-units16 c bytes e)
