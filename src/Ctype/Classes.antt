-- ===== src/Ctype/Classes.antt =====
-- src/ctype.c: how the classes fit together.
use libcs.Prelude.{
  ℕ, ◌-◌, ◌^◌, ◌<◌, ◌≡◌, refl, ap, sym, ◌∙◌, ◌⊎◌, inl, inr, Bool, true, false, not, ◌&&◌, ◌||◌,
  List, [], ◌∷◌, ◌++◌, arith, ltb, ◌==◌, ==_iff, if◌then◌else◌,
}
use libcs.Prelude.Text.{codes}
use libcs.Prelude.Bits.{all_below, all_below-lt}
use libcs.Ctype.{
  isalpha, isdigit, isalnum, isblank, iscntrl, isgraph, islower, isprint, ispunct, isspace, isupper,
  isxdigit, isascii, tolower, toupper,
}

abbrev pub count : Bool → ℕ
count true = 1
count false = 0

-- An argument of the functions: an unsigned char or EOF.
abbrev pub IsArgument : ℕ → Type 0
IsArgument c = (c < 256) ⊎ (c ≡ 2 ^ 32 - 1)

-- Numbers by which two functions agree on every argument.
by_table :
    (f g : ℕ → ℕ)
    → all_below 256 (λ c. f c == g c) ≡ true
    → f (2 ^ 32 - 1) ≡ g (2 ^ 32 - 1)
    → (c : ℕ) → IsArgument c
    → f c ≡ g c
by_table f g table eof c (inl h) =
    (==_iff (f c) (g c)).0 (all_below-lt 256 (λ c. f c == g c) c table h)
by_table f g table eof c (inr e) = ap f e ∙ eof ∙ ap g (sym e)

count_inj : (a b : Bool) → count a ≡ count b → a ≡ b
count_inj true true h = refl
count_inj true false h = absurd (omega arith)
count_inj false true h = absurd (omega arith)
count_inj false false h = refl

by_class :
    (f g : ℕ → Bool)
    → all_below 256 (λ c. count (f c) == count (g c)) ≡ true
    → f (2 ^ 32 - 1) ≡ g (2 ^ 32 - 1)
    → (c : ℕ) → IsArgument c
    → f c ≡ g c
by_class f g table eof c h =
    count_inj (f c) (g c) (by_table (λ c. count (f c)) (λ c. count (g c)) table (ap count eof) c h)

-- The characters that a text lists.
abbrev pub among : List ℕ → ℕ → Bool
among [] c = false
among (x ∷ xs) c = (x == c) || among xs c

abbrev pub upper_letters : List ℕ
upper_letters = codes "ABCDEFGHIJKLMNOPQRSTUVWXYZ"

abbrev pub lower_letters : List ℕ
lower_letters = codes "abcdefghijklmnopqrstuvwxyz"

abbrev pub digits : List ℕ
digits = codes "0123456789"

abbrev pub marks : List ℕ
marks = codes "!#$%&'()*+,-./:;<=>?@[]^_`{|}~" ++ (34 ∷ 92 ∷ [])

-- Space, and horizontal tab to carriage return.
abbrev pub spaces : List ℕ
spaces = 32 ∷ 9 ∷ 10 ∷ 11 ∷ 12 ∷ 13 ∷ []

-- For every unsigned char and EOF, the class functions accept the characters that the C standard lists for the
-- "C" locale and no others: the letters of each case, the digits and hexadecimal digits, the punctuation, the white
-- space and the blanks; graphic characters are the letters, digits and punctuation, printing ones these and the
-- space; `isascii` accepts the values below 128, and control characters are those of them that are not printing.
pub ctype-classes :
    (c : ℕ)
    → IsArgument c
    → (isupper c ≡ among upper_letters c)
      × (islower c ≡ among lower_letters c)
      × (isalpha c ≡ among (upper_letters ++ lower_letters) c)
      × (isdigit c ≡ among digits c)
      × (isxdigit c ≡ among (digits ++ codes "ABCDEFabcdef") c)
      × (isalnum c ≡ among (upper_letters ++ (lower_letters ++ digits)) c)
      × (ispunct c ≡ among marks c)
      × (isspace c ≡ among spaces c)
      × (isblank c ≡ among (32 ∷ 9 ∷ []) c)
      × (isgraph c ≡ among (upper_letters ++ (lower_letters ++ (digits ++ marks))) c)
      × (isprint c ≡ among (32 ∷ (upper_letters ++ (lower_letters ++ (digits ++ marks)))) c)
      × (isascii c ≡ ltb c 128)
      × (iscntrl c
          ≡ ltb c 128
            && not (among (32 ∷ (upper_letters ++ (lower_letters ++ (digits ++ marks)))) c))
unfolding all_below isalpha isdigit isalnum isblank iscntrl isgraph islower isprint ispunct isspace
    isupper isxdigit isascii
ctype-classes c h = (
  by_class isupper (among upper_letters) refl refl c h,
  by_class islower (among lower_letters) refl refl c h,
  by_class isalpha (among (upper_letters ++ lower_letters)) refl refl c h,
  by_class isdigit (among digits) refl refl c h,
  by_class isxdigit (among (digits ++ codes "ABCDEFabcdef")) refl refl c h,
  by_class isalnum (among (upper_letters ++ (lower_letters ++ digits))) refl refl c h,
  by_class ispunct (among marks) refl refl c h,
  by_class isspace (among spaces) refl refl c h,
  by_class isblank (among (32 ∷ 9 ∷ [])) refl refl c h,
  by_class isgraph (among (upper_letters ++ (lower_letters ++ (digits ++ marks)))) refl refl c h,
  by_class isprint (among (32 ∷ (upper_letters ++ (lower_letters ++ (digits ++ marks))))) refl refl
      c h,
  by_class isascii (λ c. ltb c 128) refl refl c h,
  by_class iscntrl
      (λ c.
        ltb c 128 && not (among (32 ∷ (upper_letters ++ (lower_letters ++ (digits ++ marks)))) c))
      refl refl c h,
)

-- For every unsigned char and EOF: a case conversion after the other one is that conversion alone; the
-- results of toupper are upper case, and those of tolower lower case, exactly on letters; and what is
-- no letter is left as it is.
tolower-toupper :
    (c : ℕ)
    → IsArgument c
    → (tolower (toupper c) ≡ tolower c)
      × (toupper (tolower c) ≡ toupper c)
      × (count (isupper (toupper c)) ≡ count (isalpha c))
      × (count (islower (tolower c)) ≡ count (isalpha c))
      × ((if isalpha c then c else tolower c) ≡ c)
      × ((if isalpha c then c else toupper c) ≡ c)
unfolding all_below isalpha islower isupper tolower toupper
tolower-toupper c h = (
  by_table (λ c. tolower (toupper c)) tolower refl refl c h,
  by_table (λ c. toupper (tolower c)) toupper refl refl c h,
  by_table (λ c. count (isupper (toupper c))) (λ c. count (isalpha c)) refl refl c h,
  by_table (λ c. count (islower (tolower c))) (λ c. count (isalpha c)) refl refl c h,
  by_table (λ c. if isalpha c then c else tolower c) (λ c. c) refl refl c h,
  by_table (λ c. if isalpha c then c else toupper c) (λ c. c) refl refl c h,
)
