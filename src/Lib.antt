-- ===== src/Lib.antt =====
-- libcs: a C library for Linux. This development models the parts of it that compute: each function is
-- translated from the C text into a definition by clauses, and the theorems are about those definitions.
--
-- The parts and their files:
-- - Prelude: what the other modules share. Prelude/Tests has the Boolean tests on numbers, Prelude/Lists
--   lists measured and indexed by native numbers, Prelude/Memory the results of code that may fault,
--   Prelude/Int signed integers and Prelude/Bits the operators `&`, `|` and `^` on the fields of a word.
-- - Multibyte: src/multibyte.c. The conversion state is `MbState`, with the two fields of mbstate_t;
--   `mbrtowc` and `wcrtomb` are the functions of those names, `lead_byte` and `continue` the two halves of
--   mbrtowc, and `mbsrtowcs` and `wcsrtombs` the string conversions, which call them.
--   Multibyte/Decode and Multibyte/Restart are about one character, Multibyte/Strings about strings.
-- - Str: src/string.c, by groups. Str/Mem has the mem functions and the scans by bytes, Str/Copy the
--   copies with their fortified variants, Str/Move memmove inside one memory, Str/Word the scans that read
--   a word at a time, Str/Compare the comparisons, Str/Search memcmp and memmem, which calls the scan of
--   Str/Mem, Str/Span the spans over sets of bytes and the functions that cut strings with them, and
--   Str/Fold the comparisons without regard to case, over tolower of Ctype, and strverscmp.
-- - Ctype: src/ctype.c, every function of it.
-- - Number: src/strtol.c, which calls isspace of Ctype. `strtox` is the function of that name, in the steps
--   it takes (blanks, sign, prefix, digits, range); Number/Pieces is about what stands before
--   the digits, Number/Digits about the digits, Number/Laws about strtoll and strtoull, and Number/Whole
--   about atoi and strtonum, which call strtoll.
-- - Sort: src/qsort.c. `introsort` is the function of that name over a list and indices;
--   Sort/Permute is about swap, Sort/Safety about the sort and Sort/Bisect about bsearch.
-- - Calendar: the calendar helpers of src/tz.c and the conversions of src/timeconv.c that use them.
-- - Search: src/search.c. Search/Avl has the trees of tsearch: `balance`, `tsearch` and `tdelete` are the
--   functions of those names, over trees of keys. Search/Hash has the table of hsearch: `probe` is the loop of
--   `hsearch_r`, Search/Hash/Triangular and Search/Hash/Filled are about where it looks, Search/Hash/Probing
--   and Search/Hash/Stored about the table with one entry more. Search/Linear has lfind, lsearch and queues.
-- - Env: src/env.c. `Env` is the state that the file keeps, `setenv`, `unsetenv`, `putenv` and `clearenv`
--   change it; Env/Lookup is about getenv, Env/Counts, Env/Releases and Env/Ownership about the strings that
--   are freed.
-- - Uchar: src/uchar.c, over mbrtowc and wcrtomb of Multibyte; Uchar/Utf16 and Uchar/Utf8 are about the
--   units of one character.
-- - Pattern: src/fnmatch.c. Pattern/Bracket has the bracket expressions, which call the classes of Ctype,
--   Pattern/Fnmatch the loop, one `round` for each turn of it. Pattern/Length and Pattern/Bound are about its
--   end, Pattern/Meaning says what a pattern matches, and Pattern/Parts, Pattern/Rounds and Pattern/Correct
--   compare the loop with it.
-- - Options: src/getopt.c. `getopt` is the function of that name in the steps it takes; Options/Long has
--   `long_core`, `permute` and `long_permute`, whose flag tells getopt_long_only from getopt_long.
--   Options/Bounds and Options/LongBounds are about where a call leaves the scan, Options/Order about permute,
--   Options/Places and Options/Moved about the words around the option, and Options/Moves about a whole call.
-- - Random: src/random.c. `rand`, `rand_r` and `random` are the generators of those names, `Rs` is the state of
--   arc4random and `rs_refill`, `rs_stir` and `arc4random_buf` change it. Random/Uniform is about
--   arc4random_uniform, Random/Spent and Random/Buffer about the bytes that are handed out, over the sizes of
--   Random/Sizes.
-- - Semaphore: the unnamed semaphores of src/semaphore.c, with one step for each access to shared memory,
--   so that a run is an interleaving of the steps of several threads.
--
-- How C is rendered. A pointer to bytes is the list of the bytes from it to the end of its buffer, and a
-- read or write past that is `fault`, so that a theorem that a function returns is one about bounds too.
-- In Env and Pattern, where the code only reads strings up to their terminator, a string is the list of its
-- bytes before the null byte, and `[]` is a read of that byte.
-- A result through a pointer is a component of the result. `size_t`, `unsigned` and `unsigned long long`
-- are numbers; where the code can wrap around, `% 2 ^ 32` or `% 2 ^ 64` is written out. `int` and
-- `long long` are integers, whose bounds are the ones that the code itself tests. The value of errno is a
-- component of the result where the code sets it.
--
-- Loops are structural recursion on what they consume where there is such a thing. The others count their
-- rounds: `mbs_loop` has one round for each character or source byte, `memmem_loop` one for each place
-- left, `sift` and `partition` one for each element, `down_words` one for each byte left, `scan_up` one for
-- each step to the end of the array and `bsearch_from` one for each element; `run` has one for each turn of
-- the loop of fnmatch, `bracket_loop` one for each byte of the expression, `probe` one for each slot of the
-- table and `grow` one for each bit of a size_t. Running out of rounds is a
-- fault or a wrong answer, never a result that a theorem passes over. `introsort` needs no count: it
-- recurses on the depth that the code itself bounds.
--
-- What is not modelled: floating point, system calls, raw memory (the dynamic linker, the allocator, which
-- is a copy of another project's, and start-up code), and the parts that are still to come, such as the
-- formatted streams, regular expressions and the resolver. In the modelled parts: word-sized accesses are
-- reads of eight bytes, elements of an array are exchanged whole, cancellation points and the queue inside
-- the kernel's futex are left out, and two buffers that a function takes do not overlap, except for memmove.
pub mod Options
pub mod Pattern
pub mod Prelude
pub mod Multibyte
pub mod Str
pub mod Calendar
pub mod Ctype
pub mod Number
pub mod Env
pub mod Uchar
pub mod Random
pub mod Search
pub mod Semaphore
pub mod Sort
