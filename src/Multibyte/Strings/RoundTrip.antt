-- ===== src/Multibyte/Strings/RoundTrip.antt =====
-- `mbsrtowcs` gives back the wide string that `wcsrtombs` was given.
use mathlib.Core.List.{append_assoc}
use libcs.Prelude.{
  NoNul, ap, ◌∙◌, drop, ℕ, zero, suc, ◌+◌, ◌-◌, ◌≤◌, ◌<◌, ◌≡◌, refl, ◌≢◌, arith, true, false, some,
  List, [], ◌∷◌, ◌++◌, Run, ok, fault, length, ltb, ◌==◌, inl, inr, Bool-cases, Option-cases,
  length-append,
}
use libcs.Multibyte.{MbState, initial, wcrtomb}
use libcs.Multibyte.Decode.{mbrtowc-wcrtomb}
use libcs.Multibyte.Strings.{
  wcsrtombs, mbsrtowcs, prepend, Conversion, null, wcs_loop, mbs_loop, mbs_round,
}

-- The bytes are the encodings of the characters, one after the other, and a null byte.
abbrev pub EncodesAll : List ℕ → List ℕ → Type 0
EncodesAll [] bs = bs ≡ 0 ∷ []
EncodesAll (c ∷ w) bs =
    (buf : List ℕ) × (bs' : List ℕ) × (wcrtomb c ≡ some buf) × (bs ≡ buf ++ bs') × EncodesAll w bs'

prepend-stored :
    (xs : List ℕ) (m : Run Conversion) {r : Conversion}
    → prepend xs m ≡ ok r
    → (r' : Conversion) × (m ≡ ok r') × (r'.src ≡ r.src) × (r.stored ≡ xs ++ r'.stored)
prepend-stored xs fault e = absurd (cc)
prepend-stored xs (ok r') e = (r', refl, cc, cc)

wcs_loop-EncodesAll :
    (st : MbState) (n : ℕ) (w rest : List ℕ) (off cnt : ℕ) {r : Conversion}
    → NoNul w
    → wcs_loop st true n (w ++ 0 ∷ rest) off cnt ≡ ok r
    → r.src ≡ null
    → EncodesAll w r.stored
unfolding wcs_loop
wcs_loop-EncodesAll st n [] rest off cnt h e f = unfold wcrtomb in ground arith
wcs_loop-EncodesAll st n (c ∷ w) rest off cnt h e f = elim (Option-cases (wcrtomb c)) [
  | inl x ↦ absurd (ground arith)
  | inr (buf, x) ↦ elim (Bool-cases (ltb n (cnt + length buf))) [
    | inl y ↦ absurd (ground arith)
    | inr y ↦
        let nonzero : (c == 0) ≡ false = ground arith in
        let (r', e', f', g) = prepend-stored buf _ (rw (x, wcs_loop, y, nonzero) at e) in
        (
          buf,
          r'.stored,
          x,
          g,
          wcs_loop-EncodesAll st n w rest (off + 1) (cnt + length buf) h.1 e' (f' ∙ f),
        )
  ]
]

drop-append : (xs ys : List ℕ) → drop (length xs) (xs ++ ys) ≡ ys
drop-append [] ys = refl
drop-append (x ∷ xs) ys = drop-append xs ys

wcrtomb-length : (c : ℕ) (buf : List ℕ) → wcrtomb c ≡ some buf → (1 ≤ length buf) × (length buf ≤ 4)
unfolding wcrtomb
wcrtomb-length c buf e = ground arith

mbs_loop-step :
    (c left off cnt fuel : ℕ) (buf s : List ℕ)
    → c ≢ 0
    → wcrtomb c ≡ some buf
    → mbs_loop true (suc left) (buf ++ s) off cnt initial (suc fuel)
      ≡ prepend (c ∷ []) (mbs_loop true left s (off + length buf) (cnt + 1) initial fuel)
unfolding mbs_loop mbs_round
mbs_loop-step c left off cnt fuel buf s h e =
    let nonzero : (c == 0) ≡ false = ground arith in
    let more : (suc left == 0) ≡ false = ground arith in
    let fewer : suc left - 1 ≡ left = omega arith in
    rw (
      mbrtowc-wcrtomb c 4 buf s e (wcrtomb-length c buf e).1,
      nonzero,
      drop-append buf s,
      more,
      fewer,
    )

mbs_loop-end :
    (left off cnt fuel : ℕ) (s : List ℕ)
    → mbs_loop true (suc left) (0 ∷ s) off cnt initial (suc fuel)
      ≡ ok (record { ret = some cnt; stored = 0 ∷ []; src = null; state = initial })
unfolding mbs_loop mbs_round
mbs_loop-end left off cnt fuel s =
    let more : (suc left == 0) ≡ false = ground arith in
    rw (mbrtowc-wcrtomb 0 4 (0 ∷ []) s (unfold wcrtomb in ground arith) (omega arith), more)

mbs_loop-EncodesAll :
    (w bs tail : List ℕ) (left off cnt fuel j : ℕ)
    → NoNul w
    → EncodesAll w bs
    → length w < left
    → length w < fuel
    → cnt + length w ≡ j
    → mbs_loop true left (bs ++ tail) off cnt initial fuel
      ≡ ok (record { ret = some j; stored = w ++ 0 ∷ []; src = null; state = initial })
mbs_loop-EncodesAll w bs tail zero off cnt fuel j h e l l' q = absurd (omega arith)
mbs_loop-EncodesAll w bs tail (suc left) off cnt zero j h e l l' q = absurd (omega arith)
mbs_loop-EncodesAll [] bs tail (suc left) off cnt (suc fuel) j h e l l' q = rw e (
    mbs_loop-end left off cnt fuel tail
    ∙ ap (λ i. ok (record { ret = some i; stored = 0 ∷ []; src = null; state = initial }))
        (omega arith))
mbs_loop-EncodesAll (c ∷ w) bs tail (suc left) off cnt (suc fuel) j h (buf, bs', e, f, g) l l' q =
    rw (f, append_assoc buf bs' tail, mbs_loop-step c left off cnt fuel buf (bs' ++ tail) h.0 e)
      (rw (
        mbs_loop-EncodesAll w bs' tail left (off + length buf) (cnt + 1) fuel j h.1 g (omega arith)
          (omega arith) (omega arith)))

EncodesAll-length : (w bs : List ℕ) → EncodesAll w bs → length w < length bs
EncodesAll-length [] bs e = rw e (omega arith)
EncodesAll-length (c ∷ w) bs (buf, bs', e, f, g) =
    rw (f, length-append buf bs') (omega (arith, wcrtomb-length c buf e, EncodesAll-length w bs' g))

-- What a complete `wcsrtombs` stores is the encodings of the characters, in order and with nothing
-- between them, and the terminator.
pub wcsrtombs-EncodesAll :
    (w rest : List ℕ) (n : ℕ) (st : MbState) {r : Conversion}
    → NoNul w
    → wcsrtombs true (w ++ 0 ∷ rest) n st ≡ ok r
    → r.src ≡ null
    → EncodesAll w r.stored
unfolding wcsrtombs
wcsrtombs-EncodesAll w rest n st h e f = wcs_loop-EncodesAll st n w rest 0 0 h e f

-- Converting a wide string to bytes and back gives the string, whatever follows the bytes: if
-- `wcsrtombs` stores all of it, `mbsrtowcs` into more places than it has characters returns their number
-- and stores them with the terminator.
pub mbsrtowcs-wcsrtombs :
    (w rest tail : List ℕ) (n m : ℕ) (st : MbState) {r : Conversion}
    → NoNul w
    → wcsrtombs true (w ++ 0 ∷ rest) n st ≡ ok r
    → r.src ≡ null
    → length w < m
    → mbsrtowcs true (r.stored ++ tail) m initial
      ≡ ok (record { ret = some (length w); stored = w ++ 0 ∷ []; src = null; state = initial })
unfolding mbsrtowcs
mbsrtowcs-wcsrtombs w rest tail n m st {r} h e f l =
    let all : EncodesAll w r.stored = wcsrtombs-EncodesAll w rest n st h e f in
    mbs_loop-EncodesAll w r.stored tail m 0 0 _ (length w) h all l
      (omega (arith, EncodesAll-length w r.stored all, length-append r.stored tail)) (omega arith)
