-- ===== src/Str/Fold/Examples.antt =====
-- src/string.c: comparisons without regard to case, and of version numbers.
use libcs.Prelude.{◌≡◌, refl, some, [], ◌∷◌, ◌++◌, ok}
use libcs.Prelude.Int.{pos, negsuc}
use libcs.Prelude.Text.{codes}
use libcs.Ctype.{isdigit, isupper, tolower}
use libcs.Str.Mem.{nul_index}
use libcs.Str.Span.{at_offset}
use libcs.Str.Fold.{
  same_letter, strcasecmp, strncasecmp_loop, strncasecmp, strcasestr_loop, strcasestr, differ,
  longer_digits, strverscmp,
}

-- What the runs below compute with.
program : Unit {0}
unfolding isdigit isupper tolower nul_index at_offset same_letter strcasecmp strncasecmp_loop
    strncasecmp strcasestr_loop strcasestr differ longer_digits strverscmp
program = tt

folded : strcasecmp (codes "Abc" ++ 0 ∷ []) (codes "aBC" ++ 0 ∷ []) ≡ ok (pos 0)
unfolding program
folded = refl

found : strcasestr (codes "a FOO" ++ 0 ∷ []) (codes "fo" ++ 0 ∷ []) ≡ ok (some 2)
unfolding program
found = refl

versions : strverscmp (codes "v9" ++ 0 ∷ []) (codes "v10" ++ 0 ∷ []) ≡ ok (negsuc 0)
unfolding program
versions = refl

fractions : strverscmp (codes "v009" ++ 0 ∷ []) (codes "v01" ++ 0 ∷ []) ≡ ok (negsuc 0)
unfolding program
fractions = refl
