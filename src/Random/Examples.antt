-- ===== src/Random/Examples.antt =====
-- src/random.c: the quarter round of RFC 8439, draws below a bound, and bytes from a state that has no key yet.
use libcs.Prelude.{ℕ, ◌≡◌, refl, arith, true, false, List, some, none, [], ◌∷◌, replicate}
use libcs.Random.{
  srand, Rs, rs_prepare, arc4random_buf, qr, quarter, rotl32, uniform_min, arc4random_uniform,
}
use libcs.Random.Spent.{IsSpent}
use libcs.Random.Buffer.{Gives, arc4random_buf-Gives}

quarter_round :
    qr 0 1 2 3 (0x11111111 ∷ 0x01020304 ∷ 0x9b8d6f43 ∷ 0x01234567 ∷ [])
    ≡ 0xea2a92f4 ∷ 0xcb1cf8ce ∷ 0x4581472e ∷ 0x5881c4bb ∷ []
unfolding qr quarter rotl32
quarter_round = refl

srand_zero : srand 0 ≡ 4294967295
unfolding srand
srand_zero = refl

draws : (arc4random_uniform 6 (3 ∷ 10 ∷ []) ≡ some 4) × (arc4random_uniform 6 (3 ∷ []) ≡ none)
unfolding arc4random_uniform uniform_min
draws = (refl, refl)

abbrev unseeded : Rs
unseeded = record {
  ready = false;
  pid = 0;
  have = 0;
  until_reseed = 0;
  input = replicate 16 0;
  buf = replicate 1024 0;
}

unseeded-IsSpent : IsSpent unseeded
unseeded-IsSpent = record {
  left = [];
  erased = refl;
  counted = refl;
  within = omega arith;
  words = refl;
}

abbrev seed_bytes : List ℕ
seed_bytes = replicate 40 7

arc4random_buf-Gives_example :
    Gives
      (rs_prepare true 12 seed_bytes seed_bytes 2000 unseeded)
      2000
      (arc4random_buf true 12 seed_bytes seed_bytes 2000 unseeded)
arc4random_buf-Gives_example =
    arc4random_buf-Gives true 12 seed_bytes seed_bytes 2000 unseeded refl refl unseeded-IsSpent
