-- ===== src/Multibyte/Strings/Safety.antt =====
-- `mbsrtowcs` asks `mbrtowc` for up to four bytes at a time, and still reads none past the null byte.
use mathlib.Core.Option
use libcs.Prelude.{
  drop, leb, ℕ, zero, suc, ◌+◌, ◌-◌, ◌%◌, ◌^◌, ◌≤◌, ◌<◌, ◌≡◌, refl, arith, Bool, true, false, ◌&&◌,
  some, List, [], ◌∷◌, ◌++◌, Run, ok, fault, length, ltb, ◌==◌, ◌>>=◌, if◌then◌else◌, inl, inr,
  Bool-cases, length-append, length-drop, Returns,
}
use libcs.Multibyte.{
  MbState, MbCount, count, ilseq, incomplete, MbResult, continue, lead_byte, rejects, second_ok,
  mbrtowc,
}
use libcs.Multibyte.Strings.{mbsrtowcs, prepend, Conversion, mbs_loop, mbs_round}

rejects-nul : (lead : ℕ) → rejects lead 0 ≡ true
unfolding rejects second_ok
rejects-nul lead = ground arith

-- The bytes that a decode has used, if it has found a character.
abbrev Uses : ℕ → ℕ → MbResult → Type 0
Uses lo hi r = (k : ℕ) → r.ret ≡ count k → (lo ≤ k) × (k ≤ hi)

Returns-weaken :
    (m : Run MbResult) (lo hi lo' hi' : ℕ)
    → lo' ≤ lo
    → hi ≤ hi'
    → Returns m (Uses lo hi)
    → Returns m (Uses lo' hi')
Returns-weaken (ok r) lo hi lo' hi' h h' u = λ k e. omega (arith, u k e)
Returns-weaken fault lo hi lo' hi' h h' u = u

continue-Uses :
    (need left : ℕ) (t u : List ℕ) (i c lead : ℕ)
    → Returns (continue need left (t ++ 0 ∷ u) i c lead) (Uses (i + need) (i + length t))
unfolding continue
continue-Uses zero left t u i c lead = λ k e. let e' : i ≡ k = ground arith in omega arith
continue-Uses (suc need) zero t u i c lead = λ k e. absurd (cc)
continue-Uses (suc need) (suc left) [] u i c lead = rw (rejects-nul lead) (λ k e. absurd (cc))
continue-Uses (suc need) (suc left) (b ∷ t) u i c lead = elim (Bool-cases (rejects lead b)) [
  | inl x ↦ rw x (λ k e. absurd (cc))
  | inr x ↦ rw x (
      Returns-weaken _ (i + 1 + need) (i + 1 + length t) (i + suc need) (i + suc (length t))
        (omega arith) (omega arith) (continue-Uses need left t u (i + 1) _ 0))
]

-- A decode that stores a character other than the null character has used a byte, and none but those
-- before the terminator.
abbrev Advances : ℕ → MbResult → Type 0
Advances hi r = (k : ℕ) → r.ret ≡ count k → (Option.get_or r.wc 0 == 0) ≡ false → (1 ≤ k) × (k ≤ hi)

Uses-Advances :
    (m : Run MbResult) (lo hi : ℕ) → 1 ≤ lo → Returns m (Uses lo hi) → Returns m (Advances hi)
Uses-Advances (ok r) lo hi h u = λ k e n. omega (arith, u k e)
Uses-Advances fault lo hi h u = u

lead_byte-Advances :
    (b left : ℕ) (t u : List ℕ) (st : MbState)
    → Returns (lead_byte b left (t ++ 0 ∷ u) st) (Advances (suc (length t)))
unfolding lead_byte
lead_byte-Advances b left t u st = elim (Bool-cases (ltb b 0x80)) [
  | inl x ↦ rw x (λ k e n. ground arith)
  | inr x ↦ elim (Bool-cases (leb 0xc2 b && leb b 0xdf)) [
    | inl y ↦ rw (x, y) (more 1 (b % 2 ^ 5))
    | inr y ↦ elim (Bool-cases (leb 0xe0 b && leb b 0xef)) [
      | inl z ↦ rw (x, y, z) (more 2 (b % 2 ^ 4))
      | inr z ↦ elim (Bool-cases (leb 0xf0 b && leb b 0xf4)) [
        | inl w ↦ rw (x, y, z, w) (more 3 (b % 2 ^ 3))
        | inr w ↦ rw (x, y, z, w) (λ k e n. absurd (cc))
      ]
    ]
  ]
]
  where
    more :
        (need c : ℕ) → Returns (continue need left (t ++ 0 ∷ u) 1 c b) (Advances (suc (length t)))
    more need c = Uses-Advances _ (1 + need) (suc (length t)) (omega arith) (
        Returns-weaken _ (1 + need) (1 + length t) (1 + need) (suc (length t)) (omega arith)
          (omega arith) (continue-Uses need left t u 1 c b))

mbrtowc-Advances :
    (left : ℕ) (t u : List ℕ) (st : MbState)
    → Returns (mbrtowc (some (t ++ 0 ∷ u)) (suc left) st) (Advances (length t))
unfolding mbrtowc
mbrtowc-Advances left t u st = elim (Bool-cases (st.n % 2 ^ 3 == 0)) [
  | inl x ↦ rw x (start t)
  | inr x ↦ rw x (
      Uses-Advances _ (0 + st.n % 2 ^ 3) (length t) (ground arith) (
        Returns-weaken _ (0 + st.n % 2 ^ 3) (0 + length t) (0 + st.n % 2 ^ 3) (length t)
          (omega arith) (omega arith) (continue-Uses (st.n % 2 ^ 3) (suc left) t u 0 _ _)))
]
  where
    start :
        (t : List ℕ)
        → Returns
            (elim (t ++ 0 ∷ u) [ [] ↦ fault | b ∷ rest ↦ lead_byte b left rest st ])
            (Advances (length t))
    start [] = unfold lead_byte in λ k e n. absurd (cc)
    start (b ∷ t) = lead_byte-Advances b left t u st

drop-append_le : (k : ℕ) (t s : List ℕ) → k ≤ length t → drop k (t ++ s) ≡ drop k t ++ s
drop-append_le zero t s h = refl
drop-append_le (suc k) [] s h = absurd (omega arith)
drop-append_le (suc k) (x ∷ t) s h = drop-append_le k t s (omega arith)

-- The run returns, and stores no more than `left` characters.
abbrev pub StoresWithin : Bool → ℕ → Run Conversion → Type 0
StoresWithin to left m = Returns m (λ r. to ≡ true → length r.stored ≤ left)

prepend-StoresWithin :
    (to : Bool) (c left : ℕ) (m : Run Conversion)
    → (to ≡ true → 1 ≤ left)
    → StoresWithin to (left - 1) m
    → StoresWithin to left (prepend (if to then c ∷ [] else []) m)
prepend-StoresWithin true c left (ok r) h s = λ e. omega (arith, h e, s e)
prepend-StoresWithin false c left (ok r) h s = λ e. absurd (cc)
prepend-StoresWithin to c left fault h s = s

mbs_round-StoresWithin :
    (to : Bool) (left off cnt hi : ℕ) (next : ℕ → MbState → Run Conversion) (r : MbResult)
    → (to ≡ true → 1 ≤ left)
    → Advances hi r
    → ((k : ℕ) (st : MbState) → 1 ≤ k → k ≤ hi → StoresWithin to (left - 1) (next k st))
    → StoresWithin to left (mbs_round to off cnt next r)
unfolding mbs_round
mbs_round-StoresWithin to left off cnt hi next r room a rest =
    go r.ret (Option.get_or r.wc 0) room a
  where
    go :
        (ret : MbCount) (c : ℕ)
        → (to ≡ true → 1 ≤ left)
        → ((k : ℕ) → ret ≡ count k → (c == 0) ≡ false → (1 ≤ k) × (k ≤ hi))
        → StoresWithin to left
            (mbs_round to off cnt next (record { ret = ret; wc = some c; state = r.state }))
    go ilseq c room a = λ e. omega arith
    go incomplete c room a = λ e. omega arith
    go (count k) c room a = elim (Bool-cases (c == 0)) [
      | inl z ↦ rw z (λ e. rw e (room e))
      | inr z ↦ rw z (
          prepend-StoresWithin to c left (next k r.state) room
            (rest k r.state (a k refl z).0 (a k refl z).1))
    ]

>>=-StoresWithin :
    (to : Bool) (left hi : ℕ) (m : Run MbResult) (f : MbResult → Run Conversion)
    → Returns m (Advances hi)
    → ((r : MbResult) → Advances hi r → StoresWithin to left (f r))
    → StoresWithin to left (m >>= f)
>>=-StoresWithin to left hi (ok r) f a h = h r a
>>=-StoresWithin to left hi fault f a h = a

mbs_loop-StoresWithin :
    (to : Bool) (left : ℕ) (t u : List ℕ) (off cnt : ℕ) (st : MbState) (fuel : ℕ)
    → length t < fuel
    → StoresWithin to left (mbs_loop to left (t ++ 0 ∷ u) off cnt st fuel)
unfolding mbs_loop
mbs_loop-StoresWithin to left t u off cnt st zero h = absurd (omega arith)
mbs_loop-StoresWithin to left t u off cnt st (suc fuel) h = elim (Bool-cases (to && (left == 0))) [
  | inl x ↦ rw x (λ e. omega arith)
  | inr x ↦ rw x (
      >>=-StoresWithin to left (length t) _ _ (mbrtowc-Advances 3 t u st) λ r a.
        mbs_round-StoresWithin to left off cnt (length t) _ r (λ e. ground arith) a
          λ k st' l l'. rw (drop-append_le k t (0 ∷ u) l') (
            mbs_loop-StoresWithin to (left - 1) (drop k t) u (off + k) (cnt + 1) st' fuel
              (omega (arith, length-drop k t))))
]

-- On a null-terminated source, in any conversion state, with a destination or none, `mbsrtowcs`
-- terminates and reads nothing past the null byte, whatever the bytes; it stores no more than `n`
-- characters.
pub mbsrtowcs-StoresWithin :
    (to : Bool) (t u : List ℕ) (n : ℕ) (st : MbState)
    → StoresWithin to n (mbsrtowcs to (t ++ 0 ∷ u) n st)
unfolding mbsrtowcs
mbsrtowcs-StoresWithin to t u n st =
    mbs_loop-StoresWithin to n t u 0 0 st _ (omega (arith, length-append t (0 ∷ u)))
