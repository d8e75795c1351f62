-- ===== src/Random.antt =====
-- src/random.c: the generators rand, rand_r and random, and arc4random over ChaCha20. Words have 32 or 64 bits,
-- and the locks are left out. The process id, the bytes of __secure_random and whether the kernel wipes the
-- page on a fork are arguments.
pub mod Uniform
mod Sizes
pub mod Spent
pub mod Buffer
mod Examples
use Prim.Native.Nat.{bit_and, bit_xor}
use libcs.Prelude.{
  ℕ, zero, suc, ◌+◌, ◌-◌, ◌*◌, ◌/◌, ◌%◌, ◌^◌, Bool, true, not, ◌&&◌, ◌||◌, Option, none, some, List,
  [], ◌∷◌, ◌++◌, ltb, leb, ◌==◌, if◌then◌else◌, get_or, set, take, drop, replicate, map,
}

-- `srand(s)`: the new seed.
unfoldable pub srand : ℕ → ℕ
srand s = (s + (2 ^ 32 - 1)) % 2 ^ 32

-- `rand()`: the number and the new seed.
unfoldable pub rand : ℕ → ℕ × ℕ
rand seed = let next = (6364136223846793005 * seed + 1) % 2 ^ 64 in (next / 2 ^ 33, next)

-- `rand_r(&seed)`.
unfoldable pub rand_r : ℕ → ℕ × ℕ
rand_r seed =
    let x0 = (seed * 1103515245 + 12345) % 2 ^ 32 in
    let x1 = bit_xor x0 (x0 / 2 ^ 11) in
    let x2 = bit_xor x1 (bit_and (x1 * 2 ^ 7 % 2 ^ 32) 0x9d2c5680) in
    let x3 = bit_xor x2 (bit_and (x2 * 2 ^ 15 % 2 ^ 32) 0xefc60000) in
    let x4 = bit_xor x3 (x3 / 2 ^ 18) in (x4 / 2, x0)

-- `random()`: the number and the new seed.
unfoldable pub random : ℕ → ℕ × ℕ
random seed =
    let next = (6364136223846793005 * seed + 1442695040888963407) % 2 ^ 64 in (next / 2 ^ 33, next)

-- `ROTL(x, n)`.
unfoldable pub rotl32 : ℕ → ℕ → ℕ
rotl32 x n = x * 2 ^ n % 2 ^ 32 + x / 2 ^ (32 - n)

-- `a += b, d ^= a, d = ROTL(d, n)` for the words at the places `a`, `b` and `d`.
unfoldable pub quarter : (a b d n : ℕ) → List ℕ → List ℕ
quarter a b d n x =
    let sum = (get_or x a 0 + get_or x b 0) % 2 ^ 32 in
    set (set x a sum) d (rotl32 (bit_xor (get_or x d 0) sum) n)

-- `QR(a, b, c, d)`.
unfoldable pub qr : (a b c d : ℕ) → List ℕ → List ℕ
qr a b c d x = quarter c d b 7 (quarter a b d 8 (quarter c d b 12 (quarter a b d 16 x)))

-- The body of the loop of `chacha_block`, and the loop with `rounds` turns left.
unfoldable pub double_round : List ℕ → List ℕ
double_round x = qr 3 4 9 14 (
    qr 2 7 8 13
      (qr 1 6 11 12 (qr 0 5 10 15 (qr 3 7 11 15 (qr 2 6 10 14 (qr 1 5 9 13 (qr 0 4 8 12 x)))))))

unfoldable pub chacha_rounds : ℕ → List ℕ → List ℕ
chacha_rounds zero x = x
chacha_rounds (suc rounds) x = chacha_rounds rounds (double_round x)

-- `out[i] = x[i] + in[i]`.
unfoldable pub add_words : List ℕ → List ℕ → List ℕ
add_words [] ys = []
add_words (x ∷ xs) [] = []
add_words (x ∷ xs) (y ∷ ys) = (x + y) % 2 ^ 32 ∷ add_words xs ys

-- `chacha_block(in, out)`.
unfoldable pub chacha_block : List ℕ → List ℕ
chacha_block input = add_words (chacha_rounds 10 input) input

-- The bytes of words, and the words of bytes, the lowest byte first.
unfoldable pub bytes_of : List ℕ → List ℕ
bytes_of [] = []
bytes_of (w ∷ ws) = w % 2 ^ 8 ∷ w / 2 ^ 8 % 2 ^ 8 ∷ w / 2 ^ 16 % 2 ^ 8 ∷ w / 2 ^ 24 ∷ bytes_of ws

unfoldable pub words_of : List ℕ → List ℕ
words_of (a ∷ b ∷ c ∷ d ∷ bs) = (a + b * 2 ^ 8 + c * 2 ^ 16 + d * 2 ^ 24) ∷ words_of bs
words_of bs = []

-- `struct rs`.
pub record Rs : Type 0 where
  pub ready : Bool
  pub pid : ℕ
  pub have : ℕ
  pub until_reseed : ℕ
  pub input : List ℕ
  pub buf : List ℕ

-- `rs_setkey(kiv)`: the words of "expand 32-byte k", the key, the counter and the nonce.
unfoldable pub rs_setkey : List ℕ → List ℕ
rs_setkey kiv =
    (0x61707865 ∷ 0x3320646e ∷ 0x79622d32 ∷ 0x6b206574 ∷ [])
    ++ (words_of (take 32 kiv) ++ (0 ∷ 0 ∷ words_of (take 8 (drop 32 kiv))))

-- `if (!++in[12]) in[13]++`.
unfoldable pub count_block : List ℕ → List ℕ
count_block input =
    let low = (get_or input 12 0 + 1) % 2 ^ 32 in
    let counted = set input 12 low in
    if low == 0 then set counted 13 ((get_or input 13 0 + 1) % 2 ^ 32) else counted

-- The loop of `rs_refill`, with `blocks` of them left: the bytes.
unfoldable pub fill_blocks : (blocks : ℕ) → List ℕ → List ℕ
fill_blocks zero input = []
fill_blocks (suc blocks) input =
    bytes_of (chacha_block input) ++ fill_blocks blocks (count_block input)

-- `rs_refill()`.
unfoldable pub rs_refill : Rs → Rs
rs_refill rs =
    let bytes = fill_blocks 16 rs.input in
    record rs { input = rs_setkey bytes; buf = replicate 40 0 ++ drop 40 bytes; have = 984 }

-- `in[4 + i] ^= v` for the eight words of the seed.
unfoldable pub mix : ℕ → List ℕ → List ℕ → List ℕ
mix i [] input = input
mix i (v ∷ seed) input = mix (i + 1) seed (set input i (bit_xor (get_or input i 0) v))

-- `rs_stir()` with the bytes `seed`.
unfoldable pub rs_stir : (pid : ℕ) → (seed : List ℕ) → Rs → Rs
rs_stir pid seed rs = rs_refill (record rs {
  input = if rs.ready then mix 4 (words_of (take 32 seed)) rs.input else rs_setkey seed;
  have = 0;
  until_reseed = 1600000;
  ready = true;
  pid = pid;
})

-- `rs_prepare(n)` once `rs` points to a state; the seeds are those of the calls of `rs_stir`.
unfoldable pub rs_prepare : (wipe : Bool) → (pid : ℕ) → (seed seed' : List ℕ) → ℕ → Rs → Rs
rs_prepare wipe pid seed seed' n rs =
    let rs1 =
      if not rs.ready || (not wipe && not (rs.pid == pid)) then rs_stir pid seed rs else rs in
    if leb rs1.until_reseed n
    then rs_stir pid seed' rs1
    else record rs1 { until_reseed = rs1.until_reseed - n }

-- A turn of the loop of `arc4random_buf`: `k` bytes are copied out and erased.
unfoldable pub hand_out : ℕ → Rs → List ℕ × Rs
hand_out k rs =
    let start = 1024 - rs.have in
    (
      take k (drop start rs.buf),
      record rs {
        buf = take start rs.buf ++ (replicate k 0 ++ drop (start + k) rs.buf);
        have = rs.have - k;
      },
    )

abbrev pub refilled : Rs → Rs
refilled rs = if rs.have == 0 then rs_refill rs else rs

-- The loop; each turn hands out at least one byte, so that `n` rounds are enough. `none` is a loop that has not
-- ended.
unfoldable pub hand_out_all : (rounds : ℕ) → ℕ → Rs → Option (List ℕ × Rs)
hand_out_all rounds zero rs = some ([], rs)
hand_out_all zero (suc n) rs = none
hand_out_all (suc rounds) (suc n) rs =
    let full = refilled rs in
    let k = if ltb (suc n) full.have then suc n else full.have in
    let (bytes, rest) = hand_out k full in
    elim (hand_out_all rounds (suc n - k) rest) [
      | none ↦ none
      | some (more, end) ↦ some (bytes ++ more, end)
    ]

-- `arc4random_buf(out, n)`.
unfoldable pub arc4random_buf :
    (wipe : Bool) → (pid : ℕ) → (seed seed' : List ℕ) → ℕ → Rs → Option (List ℕ × Rs)
arc4random_buf wipe pid seed seed' n rs = hand_out_all n n (rs_prepare wipe pid seed seed' n rs)

-- `-bound % bound`.
unfoldable pub uniform_min : ℕ → ℕ
uniform_min bound = (2 ^ 32 - bound) % bound

-- `arc4random_uniform(bound)`, where `draws` are the numbers that `arc4random` gives; `none` if all of them are
-- rejected.
unfoldable pub arc4random_uniform : ℕ → List ℕ → Option ℕ
arc4random_uniform bound [] = if ltb bound 2 then some 0 else none
arc4random_uniform bound (r ∷ draws) =
    let rest = arc4random_uniform bound draws in
    if ltb bound 2 then some 0 else (if leb (uniform_min bound) r then some (r % bound) else rest)
