-- ===== src/Uchar/Examples.antt =====
-- src/uchar.c: U+1F600 in units, and errors.
use libcs.Prelude.{ℕ, ◌+◌, ◌^◌, ◌≡◌, refl, arith, false, none, some, List, [], ◌∷◌, ◌++◌, ok}
use libcs.Multibyte.{initial, mbrtowc, lead_byte, continue, rejects, second_ok, wcrtomb}
use libcs.Uchar.{
  mbrtoc32, c32rtomb, split16, mbrtoc16, c16rtomb, pack, unpack, split8, next8, mbrtoc8, c8reset,
  c8first, needed, c8keep, c8more, c8rtomb,
}
use libcs.Uchar.Utf16.{drain16, feed16, units16, mbrtoc16-c16rtomb}
use libcs.Uchar.Utf8.{drain8, feed8, mbrtoc8-c8rtomb}

-- What the runs below compute with.
program : Unit {0}
unfolding second_ok rejects continue lead_byte mbrtowc wcrtomb mbrtoc32 c32rtomb split16 mbrtoc16
    c16rtomb pack unpack split8 next8 mbrtoc8 c8reset c8first needed c8keep c8more c8rtomb drain16
    feed16 drain8 feed8
program = tt

abbrev smiley : List ℕ
smiley = 0xf0 ∷ 0x9f ∷ 0x98 ∷ 0x80 ∷ []

pair : units16 0x1_f600 ≡ 0xd83d ∷ 0xde00 ∷ []
unfolding program
pair = refl

lone_low : (c16rtomb 0xde00 initial).0 ≡ none
unfolding program
lone_low = refl

wrong_partner : c16rtomb 0x41 (record { st = 0xd83d; n = 2 ^ 30 }) ≡ (none, initial)
unfolding program
wrong_partner = refl

surrogate : c32rtomb 0xd800 ≡ none
unfolding program
surrogate = refl

overlong : c8rtomb 0x80 (record { st = 0xe0; n = 2 ^ 28 + 1 }) ≡ ok (none, initial)
unfolding program
overlong = refl

reset_within : c8reset (record { st = 0xe0; n = 2 ^ 28 + 1 }) ≡ (false, initial)
unfolding program
reset_within = refl

mbrtoc16-c16rtomb_example :
    (drain16 2 (smiley ++ 0x41 ∷ []) 5 initial ≡ ok (0xd83d ∷ 0xde00 ∷ []))
    × (feed16 (0xd83d ∷ 0xde00 ∷ []) initial ≡ some (smiley, initial))
unfolding program
mbrtoc16-c16rtomb_example = mbrtoc16-c16rtomb 0x1_f600 5 smiley (0x41 ∷ []) refl (omega arith)

mbrtoc8-c8rtomb_example :
    (drain8 4 (smiley ++ 0x41 ∷ []) 5 initial ≡ ok smiley)
    × (feed8 smiley initial ≡ ok (smiley, initial))
unfolding program
mbrtoc8-c8rtomb_example = mbrtoc8-c8rtomb 0x1_f600 5 smiley (0x41 ∷ []) refl (omega arith)
