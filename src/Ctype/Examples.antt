-- ===== src/Ctype/Examples.antt =====
-- src/ctype.c: the theorems at characters.
use libcs.Prelude.{not, ◌++◌, [], ◌∷◌, ◌≡◌, refl, arith, inl, true, ltb, ◌&&◌}
use libcs.Ctype.{
  isalpha, isdigit, isalnum, isblank, iscntrl, isgraph, islower, isprint, ispunct, isspace, isupper,
  isxdigit, isascii, toascii, tolower, toupper,
}
use libcs.Ctype.Classes.{among, upper_letters, lower_letters, digits, marks, spaces, ctype-classes}
use libcs.Prelude.Text.{codes}

-- What the runs below compute with.
program : Unit {0}
unfolding isalpha isdigit isalnum isgraph ispunct isupper islower tolower toupper toascii
program = tt

at_sign : ispunct 64 ≡ true
unfolding program
at_sign = refl

low_bits : toascii 0xc1 ≡ 65
unfolding program
low_bits = refl

ctype-classes_example :
    (isupper 64 ≡ among upper_letters 64)
    × (islower 64 ≡ among lower_letters 64)
    × (isalpha 64 ≡ among (upper_letters ++ lower_letters) 64)
    × (isdigit 64 ≡ among digits 64)
    × (isxdigit 64 ≡ among (digits ++ codes "ABCDEFabcdef") 64)
    × (isalnum 64 ≡ among (upper_letters ++ (lower_letters ++ digits)) 64)
    × (ispunct 64 ≡ among marks 64)
    × (isspace 64 ≡ among spaces 64)
    × (isblank 64 ≡ among (32 ∷ 9 ∷ []) 64)
    × (isgraph 64 ≡ among (upper_letters ++ (lower_letters ++ (digits ++ marks))) 64)
    × (isprint 64 ≡ among (32 ∷ (upper_letters ++ (lower_letters ++ (digits ++ marks)))) 64)
    × (isascii 64 ≡ ltb 64 128)
    × (iscntrl 64
        ≡ ltb 64 128
          && not (among (32 ∷ (upper_letters ++ (lower_letters ++ (digits ++ marks)))) 64))
ctype-classes_example = ctype-classes 64 (inl (omega arith))
