-- ===== src/Random/Uniform.antt =====
-- src/random.c: arc4random_uniform gives every number below its bound from the same number of draws.
use libcs.Prelude.{ℕ, ◌+◌, ◌*◌, ◌<◌, ◌≡◌, ltb, if◌then◌else◌}
use libcs.Random.{uniform_min}

-- The least draw that is accepted and gives `r`.
abbrev pub first_draw : ℕ → ℕ → ℕ
first_draw bound r = if ltb r (uniform_min bound) then r + bound else r

-- `total` is `low + bound * rounds`; the numbers from `low` to it with the remainder `r`.
module _ (bound low rounds total r : ℕ) (sum : low + bound * rounds ≡ total) (low_lt : low < bound)
    (r_lt : r < bound) where
  abbrev first : ℕ
  first = if ltb r low then r + bound else r
