-- ===== src/Ctype.antt =====
-- src/ctype.c: the classes of characters. An argument of type `int` is its 32 bits, so that EOF is
-- 2 ^ 32 - 1.
pub mod Classes
mod Examples
use Prim.Native.Nat.{bit_and, bit_or}
use libcs.Prelude.{ℕ, ◌+◌, ◌-◌, ◌%◌, ◌^◌, Bool, not, ◌&&◌, ◌||◌, ltb, ◌==◌, if◌then◌else◌}

-- `(unsigned)a - b`.
abbrev pub sub_u32 : ℕ → ℕ → ℕ
sub_u32 a b = (a + (2 ^ 32 - b)) % 2 ^ 32

-- `isspace(c)`.
unfoldable pub isspace : ℕ → Bool
isspace c = (c == 32) || ltb (sub_u32 c 9) 5

unfoldable pub isalpha : ℕ → Bool
isalpha c = ltb (sub_u32 (bit_or c 32) 97) 26

unfoldable pub isdigit : ℕ → Bool
isdigit c = ltb (sub_u32 c 48) 10

unfoldable pub isalnum : ℕ → Bool
isalnum c = isalpha c || isdigit c

unfoldable pub isblank : ℕ → Bool
isblank c = (c == 32) || (c == 9)

unfoldable pub iscntrl : ℕ → Bool
iscntrl c = ltb c 0x20 || (c == 0x7f)

unfoldable pub isgraph : ℕ → Bool
isgraph c = ltb (sub_u32 c 0x21) 0x5e

unfoldable pub islower : ℕ → Bool
islower c = ltb (sub_u32 c 97) 26

unfoldable pub isprint : ℕ → Bool
isprint c = ltb (sub_u32 c 0x20) 0x5f

unfoldable pub ispunct : ℕ → Bool
ispunct c = isgraph c && not (isalnum c)

unfoldable pub isupper : ℕ → Bool
isupper c = ltb (sub_u32 c 65) 26

unfoldable pub isxdigit : ℕ → Bool
isxdigit c = isdigit c || ltb (sub_u32 (bit_or c 32) 97) 6

-- `!(c & ~0x7f)`.
unfoldable pub isascii : ℕ → Bool
isascii c = bit_and c (2 ^ 32 - 1 - 0x7f) == 0

unfoldable pub toascii : ℕ → ℕ
toascii c = bit_and c 0x7f

unfoldable pub tolower : ℕ → ℕ
tolower c = if isupper c then bit_or c 32 else c

unfoldable pub toupper : ℕ → ℕ
toupper c = if islower c then bit_and c 0x5f else c
