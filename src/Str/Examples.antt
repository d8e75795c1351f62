-- ===== src/Str/Examples.antt =====
-- src/string.c: runs on small inputs, and each theorem at an input.
use libcs.Prelude.{NoNul, ℕ, ◌≡◌, refl, arith, List, [], ◌∷◌, ok, fault}
use libcs.Str.Mem.{memcpy, memset, at, store, nul_index, find, strnlen}
use libcs.Str.Copy.{
  mempcpy, stpcpy, strcpy, stpncpy, strncpy, strcat, strncat, strlcpy, at_with, strlcat, aborts,
  read, memcpy_chk, memset_chk, mempcpy_chk, strcpy_chk, stpcpy_chk, strncpy_chk, stpncpy_chk,
  strcat_chk, strncat_chk, strlcpy_chk, strlcat_chk,
}
use libcs.Str.Copy.Laws.{stpcpy_lem}
use libcs.Str.Copy.Append.{strcat_lem, strlcat_lem}
use libcs.Str.Copy.Fortify.{IsSafe, strcpy_chk_lem, chk-IsSafe}
use libcs.Str.Word.{strlen, memchr}
use libcs.Str.Word.Laws.{strlen-nul_index, memchr-find}

-- What the runs below compute with.
program : Unit {0}
unfolding memcpy memset at store nul_index find strnlen mempcpy stpcpy strcpy stpncpy strncpy strcat
    strncat strlcpy at_with strlcat read memcpy_chk memset_chk mempcpy_chk strcpy_chk stpcpy_chk
    strncpy_chk stpncpy_chk strcat_chk strncat_chk strlcpy_chk strlcat_chk
program = tt

abbrev ab : List ℕ
ab = 97 ∷ 98 ∷ []

abbrev room : List ℕ
room = 1 ∷ 2 ∷ 3 ∷ 4 ∷ 5 ∷ []

truncates : strlcpy room (97 ∷ 98 ∷ 99 ∷ 0 ∷ []) 3 ≡ ok (97 ∷ 98 ∷ 0 ∷ 4 ∷ 5 ∷ [], 3)
unfolding program
truncates = refl

overruns : strcpy (1 ∷ 2 ∷ []) (97 ∷ 98 ∷ 0 ∷ []) ≡ fault
unfolding program
overruns = refl

checked : strcpy_chk (1 ∷ 2 ∷ []) (97 ∷ 98 ∷ 0 ∷ []) 2 ≡ aborts
unfolding program
checked = refl

ab-NoNul : NoNul ab
ab-NoNul = omega arith

stpcpy_lem_example : stpcpy room (97 ∷ 98 ∷ 0 ∷ 7 ∷ []) ≡ ok (97 ∷ 98 ∷ 0 ∷ 4 ∷ 5 ∷ [], 2)
stpcpy_lem_example = stpcpy_lem ab (7 ∷ []) room ab-NoNul (omega arith)

strcat_lem_example :
    strcat (99 ∷ 0 ∷ room) (97 ∷ 98 ∷ 0 ∷ []) ≡ ok (99 ∷ 97 ∷ 98 ∷ 0 ∷ 3 ∷ 4 ∷ 5 ∷ [])
strcat_lem_example = strcat_lem (99 ∷ []) room ab [] (omega arith) ab-NoNul (omega arith)

strlcat_lem_example :
    strlcat (99 ∷ 0 ∷ room) (97 ∷ 98 ∷ 0 ∷ []) 3 ≡ ok (99 ∷ 97 ∷ 0 ∷ 2 ∷ 3 ∷ 4 ∷ 5 ∷ [], 3)
strlcat_lem_example =
    strlcat_lem (99 ∷ []) room ab [] 3 (omega arith) ab-NoNul (omega arith) (omega arith)

strcpy_chk_lem_example : strcpy_chk (1 ∷ []) (97 ∷ 98 ∷ 0 ∷ []) 1 ≡ aborts
strcpy_chk_lem_example = strcpy_chk_lem ab [] (1 ∷ []) ab-NoNul

chk-IsSafe_example :
    IsSafe (strcpy_chk room (97 ∷ 98 ∷ 0 ∷ []) 5)
    × IsSafe (strcat_chk room (97 ∷ 98 ∷ 0 ∷ []) 5)
    × IsSafe (stpncpy_chk room (97 ∷ 98 ∷ 0 ∷ []) 9 5)
    × IsSafe (strlcpy_chk room (97 ∷ 98 ∷ 0 ∷ []) 9 5)
    × IsSafe (strlcat_chk room (97 ∷ 98 ∷ 0 ∷ []) 9 5)
chk-IsSafe_example = chk-IsSafe ab [] room 9 ab-NoNul

-- From address 6 two bytes remain before the word boundary.
abbrev memory : List ℕ
memory = 97 ∷ 98 ∷ 99 ∷ 100 ∷ 101 ∷ 102 ∷ 103 ∷ 104 ∷ 105 ∷ 0 ∷ []

strlen-nul_index_example : strlen 6 memory ≡ nul_index memory
strlen-nul_index_example = strlen-nul_index 6 memory (omega arith) refl

memchr-find_example : memchr 6 memory 0x164 9 ≡ find 100 9 memory
memchr-find_example = memchr-find 6 0x164 9 memory (omega arith) refl
