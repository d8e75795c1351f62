-- ===== src/Options/Examples.antt =====
-- src/getopt.c: options behind operands. The two calls at the end read "-ab" behind an operand: as optind is set back
-- to the operand between them, the second takes its option letter from the operand.
use libcs.Prelude.{ℕ, ◌≡◌, refl, false, none, some, List, [], ◌∷◌}
use libcs.Prelude.Int.{pos, negsuc}
use libcs.Prelude.Text.{codes}
use libcs.Options.{
  Scan, restart, enter_word, past_sign, from_byte, find_option, next_place, take_argument,
  scan_option, getopt, question,
}
use libcs.Options.Long.{
  LongOption, LongResult, bare, before_equals, from_equals, agrees, note_match, find_long, has_byte,
  take_long, long_argument, long_match, is_long, short, long_core, shift_up, permute, permute_all,
  is_option, operands_before, settle, read_option, long_permute,
}

program : Unit {0}
unfolding restart enter_word past_sign from_byte find_option next_place take_argument scan_option
    getopt bare before_equals from_equals agrees note_match find_long has_byte take_long
    long_argument long_match is_long short long_core shift_up permute permute_all is_option
    operands_before settle read_option long_permute
program = tt

abbrev fresh : Scan
fresh = record { optind = 1; optpos = 0; optopt = pos 0; optarg = none }

abbrev level : LongOption
level = record { name = codes "level"; has_arg = 1; flag = 0; val = pos 108 }

abbrev words : List (List ℕ)
words = codes "prog" ∷ codes "file" ∷ codes "--lev" ∷ codes "9" ∷ codes "more" ∷ []

abbrev words_moved : List (List ℕ)
words_moved = codes "prog" ∷ codes "--lev" ∷ codes "9" ∷ codes "file" ∷ codes "more" ∷ []

abbrev level_read : LongResult
level_read = record {
  value = pos 108;
  scan = record { optind = 3; optpos = 0; optopt = pos 0; optarg = some (codes "9") };
  index = some 0;
  store = none;
}

level_lem :
    long_permute false words (codes "ab") (level ∷ []) false fresh ≡ some (level_read, words_moved)
unfolding program
level_lem = refl

at_end :
    getopt (codes "prog" ∷ codes "--" ∷ codes "x" ∷ []) (codes "ab") fresh
    ≡ some (negsuc 0, record { optind = 2; optpos = 0; optopt = pos 0; optarg = none })
unfolding program
at_end = refl

abbrev cluster : List (List ℕ)
cluster = codes "prog" ∷ codes "operand" ∷ codes "-ab" ∷ []

abbrev after_first : Scan
after_first = record { optind = 1; optpos = 2; optopt = pos 0; optarg = none }

first_call :
    long_permute false cluster (codes "ab") [] false fresh
    ≡ some (bare (pos 97, after_first), cluster)
unfolding program
first_call = refl

second_call :
    long_permute false cluster (codes "ab") [] false after_first
    ≡ some (
      bare (question, record { optind = 1; optpos = 3; optopt = pos 101; optarg = none }),
      cluster,
    )
unfolding program
second_call = refl
