-- ===== src/Pattern/Examples.antt =====
-- src/fnmatch.c: patterns and strings, and the bound on the rounds at one of them.
use libcs.Prelude.{◌↔◌, ◌≡◌, refl, arith, Bool, true, false, some}
use libcs.Prelude.Text.{codes}
use libcs.Ctype.{
  isalnum, isalpha, isblank, iscntrl, isdigit, isgraph, islower, isprint, ispunct, isspace, isupper,
  isxdigit, tolower, toupper,
}
use libcs.Pattern.Bracket.{
  Flags, fold, in_class, closing, collating, class_item, escaped, in_range, range_item,
  bracket_item, bracket_loop, bracket,
}
use libcs.Pattern.Fnmatch.{
  leading_dot, backtrack, skip_stars, match_literal, match_any, match_bracket, match_escape, hidden,
  round, run, fnmatch,
}
use libcs.Pattern.Bound.{fnmatch_ends}
use libcs.Pattern.Meaning.{Matches}
use libcs.Pattern.Correct.{fnmatch-Matches}

-- What the runs below compute with.
program : Unit {0}
unfolding isalnum isalpha isblank iscntrl isdigit isgraph islower isprint ispunct isspace isupper
    isxdigit tolower toupper fold in_class closing collating class_item escaped in_range range_item
    bracket_item bracket_loop bracket leading_dot backtrack skip_stars match_literal match_any
    match_bracket match_escape hidden round run fnmatch
program = tt

abbrev plain : Flags
plain = record {
  noescape = false;
  pathname = false;
  period = false;
  leading_dir = false;
  casefold = false;
}

abbrev path : Flags
path = record {
  noescape = false;
  pathname = true;
  period = true;
  leading_dir = true;
  casefold = true;
}

stars : fnmatch 100 (codes "*a*b") (codes "xaaybab") plain ≡ some true
unfolding program
stars = refl

no_match : fnmatch 100 (codes "*a*b") (codes "xaayba") plain ≡ some false
unfolding program
no_match = refl

class : fnmatch 100 (codes "[![:digit:]x-z]*[[.-.]]") (codes "ab-") plain ≡ some true
unfolding program
class = refl

unclosed_bracket : fnmatch 100 (codes "[a") (codes "[a") plain ≡ some true
unfolding program
unclosed_bracket = refl

folded : fnmatch 100 (codes "A[[:upper:]]?") (codes "abc/d") path ≡ some true
unfolding program
folded = refl

hidden_file : fnmatch 100 (codes "x/*") (codes "x/.a") path ≡ some false
unfolding program
hidden_file = refl

fnmatch_ends_example : (b : Bool) × (fnmatch 55 (codes "*a*b") (codes "xaaybab") plain ≡ some b)
fnmatch_ends_example = fnmatch_ends (codes "*a*b") (codes "xaaybab") plain 55 (omega arith)

fnmatch-Matches_example :
    (b : Bool) × (fnmatch 55 (codes "*a*b") (codes "xaaybab") plain ≡ some b)
    × ((b ≡ true) ↔ Matches plain (codes "*a*b") (codes "xaaybab"))
fnmatch-Matches_example =
    fnmatch-Matches plain (codes "*a*b") (codes "xaaybab") 55 (refl, refl, refl) (omega arith)
