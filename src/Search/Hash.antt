-- ===== src/Search/Hash.antt =====
-- src/search.c: the hash table of hsearch. A key is its bytes before the null byte; `none` in a slot is a key
-- that is a null pointer. Words have 64 bits, and `a | b` of values with no common bit is `a + b`.
pub mod Probing
pub mod Triangular
pub mod Filled
pub mod Stored
pub mod Laws
pub mod Create
mod Examples
use Prim.Native.Nat.{bit_xor}
use libcs.Prelude.{
  ℕ, zero, suc, ◌+◌, ◌-◌, ◌*◌, ◌/◌, ◌%◌, ◌^◌, Bool, true, false, ◌||◌, Option, none, some, List, [],
  ◌∷◌, ltb, ◌==◌, if◌then◌else◌, length, get_or, set, take, drop, replicate,
}
use libcs.Prelude.Text.{eqb_list}

-- `ENTRY`.
pub record Entry : Type 0 where
  pub key : List ℕ
  pub value : ℕ

-- `struct __htab`.
pub record Htab : Type 0 where
  pub e : List (Option Entry)
  pub mask : ℕ
  pub used : ℕ
  pub k0 : ℕ
  pub k1 : ℕ

-- `rotl(x, b)`.
unfoldable pub rotl : ℕ → ℕ → ℕ
rotl x b = x * 2 ^ b % 2 ^ 64 + x / 2 ^ (64 - b)

-- The four words of SipHash, and `SIPROUND`.
pub record Sip : Type 0 where
  pub v0 : ℕ
  pub v1 : ℕ
  pub v2 : ℕ
  pub v3 : ℕ

unfoldable pub sipround : Sip → Sip
sipround v =
    let a0 = (v.v0 + v.v1) % 2 ^ 64 in
    let a1 = bit_xor (rotl v.v1 13) a0 in
    let b0 = rotl a0 32 in
    let a2 = (v.v2 + v.v3) % 2 ^ 64 in
    let a3 = bit_xor (rotl v.v3 16) a2 in
    let c0 = (b0 + a3) % 2 ^ 64 in
    let c3 = bit_xor (rotl a3 21) c0 in
    let b2 = (a2 + a1) % 2 ^ 64 in
    let b1 = bit_xor (rotl a1 17) b2 in record { v0 = c0; v1 = b1; v2 = rotl b2 32; v3 = c3 }

-- The bytes of a word, the first one lowest.
unfoldable pub le_word : List ℕ → ℕ
le_word [] = 0
le_word (b ∷ bs) = b + le_word bs * 2 ^ 8

-- `v3 ^= m; SIPROUND; v0 ^= m`.
unfoldable pub absorb : ℕ → Sip → Sip
absorb m v = let w = sipround (record v { v3 = bit_xor v.v3 m }) in record w { v0 = bit_xor w.v0 m }

-- The loop over whole words, and what it leaves of the string.
unfoldable pub absorb_words : (words : ℕ) → List ℕ → Sip → Sip × List ℕ
absorb_words zero s v = (v, s)
absorb_words (suc words) s v = absorb_words words (drop 8 s) (absorb (le_word (take 8 s)) v)

-- `keyhash(t, s)`.
unfoldable pub keyhash : Htab → List ℕ → ℕ
keyhash t s =
    let start : Sip = record {
      v0 = bit_xor t.k0 0x736f6d6570736575;
      v1 = bit_xor t.k1 0x646f72616e646f6d;
      v2 = bit_xor t.k0 0x6c7967656e657261;
      v3 = bit_xor t.k1 0x7465646279746573;
    } in
    let (v, rest) = absorb_words (length s / 8) s start in
    let w = absorb (length s % 2 ^ 8 * 2 ^ 56 + le_word rest) v in
    let x = sipround (sipround (sipround (record w { v2 = bit_xor w.v2 0xff }))) in
    bit_xor (bit_xor x.v0 x.v1) (bit_xor x.v2 x.v3)

-- `while (size < nel + nel / 3 + 1) size *= 2`, with a round for each bit of `size_t`.
unfoldable pub grow : (rounds : ℕ) → ℕ → ℕ → ℕ
grow zero size need = size
grow (suc rounds) size need =
    let rest = grow rounds (size * 2) need in if ltb size need then rest else size

-- `hcreate_r(nel, d)`: the table, or `none` with ENOMEM; `room` tells whether both allocations succeed, and
-- the random numbers are arguments.
unfoldable pub hcreate_r : (room : Bool) → (k0 k1 : ℕ) → ℕ → Option Htab
hcreate_r room k0 k1 nel =
    if ltb ((2 ^ 64 - 1) / 2 ^ 3) nel
    then none
    else (if room
        then (let size = grow 64 8 (nel + nel / 3 + 1) in
            some (record { e = replicate size none; mask = size - 1; used = 0; k0 = k0; k1 = k1 }))
        else none)

-- How the probing ends: at the entry with the key, at a free slot, or not within the rounds.
pub data Probe : Type 0 where
  hit : ℕ → Probe
  free : ℕ → Probe
  lost : Probe

-- The loop of `hsearch_r` from the slot `i`, with `mask` one less than a power of two, so that `& mask` is
-- the remainder.
unfoldable pub probe :
    (rounds : ℕ) → List (Option Entry) → (mask : ℕ) → List ℕ → (i step : ℕ) → Probe
probe zero e mask key i step = lost
probe (suc rounds) e mask key i step =
    let next = probe rounds e mask key ((i + step) % (mask + 1)) (step + 1) in
    elim (get_or e i none) [ none ↦ free i | some x ↦ if eqb_list x.key key then hit i else next ]

-- `ACTION`.
pub data Action : Type 0 where
  find_action : Action
  enter_action : Action

-- What `hsearch_r` returns: 1 with the slot in `*ret`, or 0 with errno; `stuck` is a loop that does not end.
pub data HashResult : Type 0 where
  slot : ℕ → HashResult
  esrch : HashResult
  enomem : HashResult
  stuck : HashResult

-- `hsearch_r(item, act, ret, d)`; `none` is a `d` without a table.
unfoldable pub hsearch_r : Entry → Action → Option Htab → HashResult × Option Htab
hsearch_r item act none = (esrch, none)
hsearch_r item act (some t) =
    elim (probe (t.mask + 1) t.e t.mask item.key (keyhash t item.key % (t.mask + 1)) 1) [
      | hit i ↦ (slot i, some t)
      | free i ↦ elim act [
        | find_action ↦ (esrch, some t)
        | enter_action ↦
            if ltb (t.mask - t.mask / 4) (t.used + 1)
            then (enomem, some t)
            else (slot i, some (record t { e = set t.e i (some item); used = t.used + 1 }))
      ]
      | lost ↦ (stuck, some t)
    ]

-- `hdestroy_r(d)`.
abbrev pub hdestroy_r : Option Htab → Option Htab
hdestroy_r d = none
