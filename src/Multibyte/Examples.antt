-- ===== src/Multibyte/Examples.antt =====
-- src/multibyte.c: runs on small inputs, and each theorem at an input.
use libcs.Prelude.{ℕ, ◌≡◌, refl, ◌≢◌, ◌↔◌, arith, true, false, none, some, List, [], ◌∷◌, ok}
use libcs.Multibyte.{
  initial, incomplete, MbResult, failed, second_ok, rejects, continue, lead_byte, mbrtowc, wcrtomb,
  mbtowc, mblen, mbsinit,
}
use libcs.Multibyte.Decode.{
  decoded, Encodes, IsScalar, mbrtowc-wcrtomb, mbrtowc-Encodes, wcrtomb-IsScalar,
}
use libcs.Multibyte.Restart.{rebase, mbrtowc-append}
use libcs.Multibyte.Strings.{
  Conversion, kept, null, moved, mbs_round, mbs_loop, mbsrtowcs, mbstowcs, wcs_loop, wcsrtombs,
  wcstombs,
}
use libcs.Multibyte.Strings.RoundTrip.{mbsrtowcs-wcsrtombs}
use libcs.Multibyte.Strings.Safety.{StoresWithin, mbsrtowcs-StoresWithin}

-- What the runs below compute with.
program : Unit {0}
unfolding second_ok rejects continue lead_byte mbrtowc wcrtomb mbtowc mblen mbsinit mbs_round
    mbs_loop mbsrtowcs mbstowcs wcs_loop wcsrtombs wcstombs
program = tt

-- U+20AC.
abbrev euro : List ℕ
euro = 0xe2 ∷ 0x82 ∷ 0xac ∷ []

euro_bytes : wcrtomb 0x20ac ≡ some euro
unfolding program
euro_bytes = refl

overlong : mbrtowc (some (0xc0 ∷ 0x80 ∷ [])) 2 initial ≡ ok failed
unfolding program
overlong = refl

surrogate : mblen (some (0xed ∷ 0xa0 ∷ 0x80 ∷ [])) 3 ≡ ok none
unfolding program
surrogate = refl

reset_pending : mbrtowc none 0 (record { st = 2; n = 0xe202 }) ≡ ok failed
unfolding program
reset_pending = refl

-- The first byte of the euro sign leaves two to come.
abbrev first : MbResult
first = record { ret = incomplete; wc = none; state = record { st = 2; n = 0xe202 } }

first_byte : mbrtowc (some (0xe2 ∷ [])) 1 initial ≡ ok first
unfolding program
first_byte = refl

pending_is_not_initial : mbsinit first.state ≡ false
unfolding program
pending_is_not_initial = refl

-- "aé" to bytes.
abbrev wide : List ℕ
wide = 0x61 ∷ 0xe9 ∷ []

abbrev narrow : Conversion
narrow = record { ret = some 3; stored = 0x61 ∷ 0xc3 ∷ 0xa9 ∷ 0 ∷ []; src = null; state = initial }

wide_bytes : wcsrtombs true (0x61 ∷ 0xe9 ∷ 0 ∷ []) 8 initial ≡ ok narrow
unfolding program
wide_bytes = refl

no_room :
    wcstombs true (0x61 ∷ 0xe9 ∷ 0 ∷ []) 2
    ≡ ok (record { ret = some 1; stored = 0x61 ∷ []; src = moved 1; state = initial })
unfolding program
no_room = refl

abbrev counted : Conversion
counted = record { ret = some 3; stored = []; src = kept; state = initial }

wide_count : wcsrtombs false (0x61 ∷ 0xe9 ∷ 0 ∷ []) 0 initial ≡ ok counted
unfolding program
wide_count = refl

bad_bytes :
    mbstowcs true (0x61 ∷ 0xff ∷ 0 ∷ []) 5
    ≡ ok (record { ret = none; stored = 0x61 ∷ []; src = moved 1; state = initial })
unfolding program
bad_bytes = refl

mbrtowc-wcrtomb_example :
    mbrtowc (some (0xe2 ∷ 0x82 ∷ 0xac ∷ 0x21 ∷ [])) 4 initial ≡ ok (decoded 0x20ac euro)
mbrtowc-wcrtomb_example = mbrtowc-wcrtomb 0x20ac 4 euro (0x21 ∷ []) euro_bytes (omega arith)

euro-decoded : mbrtowc (some (0xe2 ∷ 0x82 ∷ 0xac ∷ [])) 3 initial ≡ ok (decoded 0x20ac euro)
unfolding program
euro-decoded = refl

mbrtowc-Encodes_example : Encodes euro (decoded 0x20ac euro)
mbrtowc-Encodes_example = mbrtowc-Encodes 3 euro {k = 3} euro-decoded refl

wcrtomb-IsScalar_example : (wcrtomb 0xd800 ≢ none) ↔ IsScalar 0xd800
wcrtomb-IsScalar_example = wcrtomb-IsScalar 0xd800 (omega arith)

mbrtowc-append_example :
    mbrtowc (some euro) 3 initial ≡ rebase 1 (mbrtowc (some (0x82 ∷ 0xac ∷ [])) 2 first.state)
mbrtowc-append_example =
    mbrtowc-append (0xe2 ∷ []) (0x82 ∷ 0xac ∷ []) 2 initial {r = first} (λ e. cc) first_byte refl

mbsrtowcs-wcsrtombs_example :
    mbsrtowcs true (0x61 ∷ 0xc3 ∷ 0xa9 ∷ 0 ∷ 0xff ∷ []) 5 initial
    ≡ ok (record { ret = some 2; stored = 0x61 ∷ 0xe9 ∷ 0 ∷ []; src = null; state = initial })
mbsrtowcs-wcsrtombs_example =
    mbsrtowcs-wcsrtombs wide [] (0xff ∷ []) 8 5 initial {r = narrow} (omega arith) wide_bytes refl
      (omega arith)

mbsrtowcs-StoresWithin_example :
    StoresWithin true 2 (mbsrtowcs true (0x61 ∷ 0xe2 ∷ 0 ∷ []) 2 initial)
mbsrtowcs-StoresWithin_example = mbsrtowcs-StoresWithin true (0x61 ∷ 0xe2 ∷ []) [] 2 initial
