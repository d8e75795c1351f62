-- ===== src/Multibyte/Strings/Bounds.antt =====
-- Bounds of the string conversions: nothing is stored past the destination's `n` places.
use libcs.Prelude.{
  ap, ◌∙◌, ℕ, zero, suc, ◌+◌, ◌≤◌, ◌<◌, ◌⊎◌, ◌≡◌, refl, arith, none, get_or, true, false, some,
  List, [], ◌∷◌, Run, ok, fault, length, ltb, ◌==◌, inl, inr, Bool-cases, Option-cases, Returns,
}
use libcs.Multibyte.{MbState, wcrtomb}
use libcs.Multibyte.Strings.{wcsrtombs, prepend, Conversion, kept, null, moved, wcs_loop}

-- Why a run that returns `k` stops: it has stored the terminator, which `k` leaves out; or the bytes of the
-- character at the pointer do not fit behind the `k` bytes stored.
abbrev pub Stops : (whole : List ℕ) → (n cnt k : ℕ) → Conversion → Type 0
Stops whole n cnt k r =
    ((r.src ≡ null) × (k + 1 ≡ cnt + length r.stored))
    ⊎ ((off : ℕ) × (buf : List ℕ) × (r.src ≡ moved off)
        × (k ≡ cnt + length r.stored)
        × (wcrtomb (get_or whole off 0) ≡ some buf)
        × (n < k + length buf))

-- What a run of `wcsrtombs` on `whole` into `n` bytes promises, `cnt` bytes having been stored before.
abbrev pub Fits : (whole : List ℕ) → ℕ → ℕ → Conversion → Type 0
Fits whole n cnt r =
    (cnt + length r.stored ≤ n)
    × (((r.ret ≡ none) × (off : ℕ) × (r.src ≡ moved off) × (wcrtomb (get_or whole off 0) ≡ none))
        ⊎ ((k : ℕ) × (r.ret ≡ some k) × (k ≤ n) × Stops whole n cnt k r))

wcrtomb-zero : (c : ℕ) (buf : List ℕ) → wcrtomb c ≡ some buf → (c == 0) ≡ true → length buf ≡ 1
unfolding wcrtomb
wcrtomb-zero zero buf e h = ground arith
wcrtomb-zero (suc c) buf e h = absurd (ground arith)

-- The run that a length query stands for.
abbrev pub Converts : ℕ → Run Conversion → Type 0
Converts k m = Returns m (λ r. (r.ret ≡ some k) × (r.src ≡ null))

prepend-Converts :
    (k : ℕ) (buf : List ℕ) (m : Run Conversion) → Converts k m → Converts k (prepend buf m)
prepend-Converts k buf (ok r) h = h
prepend-Converts k buf fault h = h

prepend-ok :
    (xs : List ℕ) (m : Run Conversion) {r : Conversion}
    → prepend xs m ≡ ok r
    → (r' : Conversion) × (m ≡ ok r') × (r'.ret ≡ r.ret)
prepend-ok xs fault e = absurd (cc)
prepend-ok xs (ok r') e = (r', refl, cc)

wcs_loop-query :
    (st : MbState) (n : ℕ) (ws : List ℕ) (off cnt k : ℕ) {r : Conversion}
    → wcs_loop st false n ws off cnt ≡ ok r
    → r.ret ≡ some k
    → (cnt ≤ k) × Converts k (wcs_loop st true (k + 1) ws off cnt)
unfolding wcs_loop
wcs_loop-query st n [] off cnt k e f = absurd (cc)
wcs_loop-query st n (c ∷ ws) off cnt k {r} e f = elim (Option-cases (wcrtomb c)) [
  | inl x ↦ absurd (ground arith)
  | inr (buf, x) ↦ elim (Bool-cases (c == 0)) [
    | inl z ↦
        let e' : ok (record { ret = some cnt; stored = []; src = kept; state = st }) ≡ ok r =
          (rw (x, wcs_loop, z) at e) in
        let same : cnt ≡ k = ground arith in
        let small : ltb (k + 1) (cnt + length buf) ≡ false =
          ground (arith, wcrtomb-zero c buf x z) in
        (omega arith, rw (x, wcs_loop, small, z) (ap some same, refl))
    | inr z ↦
        let (r', e', f') = prepend-ok [] _ (rw (x, wcs_loop, z) at e) in
        let ih = wcs_loop-query st n ws (off + 1) (cnt + length buf) k e' (f' ∙ f) in
        let small : ltb (k + 1) (cnt + length buf) ≡ false = ground (arith, ih) in
        (omega (arith, ih), rw (x, wcs_loop, small, z) (prepend-Converts k buf _ ih.1))
  ]
]

-- The count from a call with no destination is the room that the conversion needs, less one for the
-- terminator: with that much room it succeeds, returns the same count and ends at the terminator.
pub wcsrtombs-query :
    (ws : List ℕ) (n k : ℕ) (st : MbState) {r : Conversion}
    → wcsrtombs false ws n st ≡ ok r
    → r.ret ≡ some k
    → Converts k (wcsrtombs true ws (k + 1) st)
unfolding wcsrtombs
wcsrtombs-query ws n k st e f = (wcs_loop-query st n ws 0 0 k e f).1
