-- ===== src/Random/Buffer.antt =====
-- src/random.c: the bytes that arc4random hands out are the next of its output, and are erased from its buffer.
use libcs.Prelude.{
  ℕ, zero, suc, ◌-◌, ◌≤◌, ◌≡◌, refl, arith, ap, ◌∙◌, sym, append-nil, append_assoc, Bool, not, ◌&&◌,
  ◌||◌, Option, none, some, List, [], ◌∷◌, ◌++◌, ltb, leb, ◌==◌, if◌then◌else◌, length,
  length-append, take, Bool-cases, inl, inr,
}
use libcs.Random.{
  words_of, Rs, rs_refill, rs_stir, rs_prepare, hand_out, refilled, hand_out_all, arc4random_buf,
}
use libcs.Random.Sizes.{length-rs_setkey, length-mix}
use libcs.Random.Spent.{
  IsSpent, unused, refills, Follows, refill-IsSpent, unused-left, hand_out-IsSpent, hand_out-unused,
}

-- The loop ends within its rounds, with `n` bytes.
abbrev pub Gives : Rs → ℕ → Option (List ℕ × Rs) → Type 0
Gives rs n given =
    (bytes : List ℕ) × (end : Rs) × (given ≡ some (bytes, end))
    × (length bytes ≡ n)
    × IsSpent end
    × Follows rs bytes end

refilled-IsSpent : (rs : Rs) → IsSpent rs → IsSpent (refilled rs) × (1 ≤ (refilled rs).have)
unfolding rs_refill
refilled-IsSpent rs is = elim (Bool-cases (rs.have == 0)) [
  | inl e ↦ rw e (refill-IsSpent rs is.words, omega arith)
  | inr e ↦ rw e (is, ground arith)
]

refilled-Follows :
    (rs : Rs) (bytes : List ℕ) (end : Rs)
    → IsSpent rs
    → Follows (refilled rs) bytes end
    → Follows rs bytes end
unfolding rs_refill
refilled-Follows rs bytes end is f = elim (Bool-cases (rs.have == 0)) [
  | inl e ↦
      let (m, same, key) : Follows (rs_refill rs) bytes end = rw e at f in
      let empty : unused rs ≡ [] =
        unused-left rs is ∙ nothing is.left (ground (arith, is.counted)) in
      (suc m, ap (λ (xs : List ℕ). xs ++ refills (suc m) rs.input) empty ∙ same, key)
  | inr e ↦ rw e at f
]
  where
    nothing : (xs : List ℕ) → length xs ≡ 0 → xs ≡ []
    nothing [] h = refl
    nothing (x ∷ xs) h = absurd (omega arith)

hand_out-Gives :
    (rs : Rs) (k n : ℕ) (given : Option (List ℕ × Rs))
    → IsSpent rs
    → IsSpent (refilled rs)
    → k ≤ n
    → k ≤ (refilled rs).have
    → Gives (hand_out k (refilled rs)).1 (n - k) given
    → Gives rs n (elim given [
      | none ↦ none
      | some (more, end) ↦ some ((hand_out k (refilled rs)).0 ++ more, end)
    ])
unfolding hand_out
hand_out-Gives rs k n given is is1 h l (more, end, e, rest, is2, (m, same, key)) =
    let full = refilled rs in
    let bytes = (hand_out k full).0 in
    let size = (hand_out-IsSpent k full is1 l).1 in
    let split =
      ap (λ (xs : List ℕ). xs ++ refills m full.input) (sym (hand_out-unused k full is1 l))
      ∙ append_assoc bytes (unused (hand_out k full).1) (refills m full.input)
      ∙ ap (λ (xs : List ℕ). bytes ++ xs) same
      ∙ sym (append_assoc bytes more (unused end)) in
    (
      bytes ++ more,
      end,
      rw e refl,
      length-append bytes more ∙ omega (arith, size, rest),
      is2,
      refilled-Follows rs (bytes ++ more) end is (m, split, key),
    )

hand_out_all-Gives :
    (rounds n : ℕ) (rs : Rs) → IsSpent rs → n ≤ rounds → Gives rs n (hand_out_all rounds n rs)
unfolding hand_out_all
hand_out_all-Gives rounds zero rs is h = ([], rs, refl, refl, is, (0, append-nil (unused rs), refl))
hand_out_all-Gives zero (suc n) rs is h = absurd (omega arith)
hand_out_all-Gives (suc rounds) (suc n) rs is h =
    let full = refilled rs in
    let (is1, pos) = refilled-IsSpent rs is in
    let k = if ltb (suc n) full.have then suc n else full.have in
    let (is2, size) = hand_out-IsSpent k full is1 (ground arith) in
    hand_out-Gives rs k (suc n) _ is is1 (ground arith) (ground arith)
      (hand_out_all-Gives rounds (suc n - k) (hand_out k full).1 is2 (ground (arith, pos)))

stir-IsSpent :
    (pid : ℕ) (seed : List ℕ) (rs : Rs)
    → length seed ≡ 40
    → IsSpent rs
    → IsSpent (rs_stir pid seed rs)
unfolding rs_stir
stir-IsSpent pid seed rs h is =
    let fresh = length-rs_setkey seed (omega (arith, h)) in
    let mixed = length-mix 4 (words_of (take 32 seed)) rs.input in
    refill-IsSpent _ (ground (arith, fresh, mixed, is.words))

prepare-IsSpent :
    (wipe : Bool) (pid : ℕ) (seed seed' : List ℕ) (n : ℕ) (rs : Rs)
    → length seed ≡ 40
    → length seed' ≡ 40
    → IsSpent rs
    → IsSpent (rs_prepare wipe pid seed seed' n rs)
unfolding rs_prepare
prepare-IsSpent wipe pid seed seed' n rs h k is =
    let first =
      if not rs.ready || (not wipe && not (rs.pid == pid)) then rs_stir pid seed rs else rs in
    let is1 : IsSpent first =
      elim (Bool-cases (not rs.ready || (not wipe && not (rs.pid == pid)))) [
        | inl e ↦ rw e (stir-IsSpent pid seed rs h is)
        | inr e ↦ rw e is
      ] in
    elim (Bool-cases (leb first.until_reseed n)) [
      | inl e ↦ rw e (stir-IsSpent pid seed' first k is1)
      | inr e ↦ rw e (record {
        left = is1.left;
        erased = is1.erased;
        counted = is1.counted;
        within = is1.within;
        words = is1.words;
      })
    ]

-- `arc4random_buf` for `n` bytes, from a state in which the bytes that were handed out are erased, with seeds of
-- 40 bytes: it ends, gives `n` bytes, and leaves such a state. The bytes given and then those that the buffer keeps
-- are the ones it kept before, or has after the reseeding, followed by the output of some refills, each from the key
-- that the one before has made; the last of these keys is the one that stays. So no byte of the output is given twice
-- or left out.
pub arc4random_buf-Gives :
    (wipe : Bool) (pid : ℕ) (seed seed' : List ℕ) (n : ℕ) (rs : Rs)
    → length seed ≡ 40
    → length seed' ≡ 40
    → IsSpent rs
    → Gives (rs_prepare wipe pid seed seed' n rs) n (arc4random_buf wipe pid seed seed' n rs)
unfolding arc4random_buf
arc4random_buf-Gives wipe pid seed seed' n rs h k is =
    hand_out_all-Gives n n _ (prepare-IsSpent wipe pid seed seed' n rs h k is) (omega arith)
