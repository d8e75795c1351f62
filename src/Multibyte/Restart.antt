-- ===== src/Multibyte/Restart.antt =====
-- A character that arrives in pieces: `mbrtowc` resumed from the state of an incomplete call.
use native.Mathlib.Nat.{add_assoc, add-zero, zero-add, suc-add}
use libcs.Prelude.{
  ℕ, zero, suc, ◌+◌, ◌*◌, ◌/◌, ◌%◌, ◌^◌, ◌<◌, ◌≡◌, refl, ◌≢◌, arith, ap, sym, ◌∙◌, some, List, [],
  ◌∷◌, ◌++◌, Run, ok, length, ltb, leb, ◌==◌, ◌>>=◌, ◌&&◌, inl, inr, Bool-cases, ap₂,
}
use libcs.Multibyte.{
  MbState, count, ilseq, incomplete, MbResult, rejects, continue, lead_byte, mbrtowc,
}

-- The result with `k` more bytes counted.
abbrev pub rebase : ℕ → Run MbResult → Run MbResult
rebase k m = m >>= λ r. ok (record r {
  ret = elim r.ret [ count j ↦ count (k + j) | ilseq ↦ ilseq | incomplete ↦ incomplete ];
})

-- The loop counts bytes from `i`, whatever `i` is.
continue-rebase :
    (need left : ℕ) (s : List ℕ) (k i c lead : ℕ)
    → continue need left s (k + i) c lead ≡ rebase k (continue need left s i c lead)
unfolding continue
continue-rebase zero left s k i c lead = refl
continue-rebase (suc need) zero s k i c lead = refl
continue-rebase (suc need) (suc left) [] k i c lead = refl
continue-rebase (suc need) (suc left) (b ∷ s) k i c lead = elim (Bool-cases (rejects lead b)) [
  | inl e ↦ rw e
  | inr e ↦
      rw (e, add_assoc k i 1)
        (continue-rebase need left s k (i + 1) (c * 2 ^ 6 % 2 ^ 32 + b % 2 ^ 6) 0)
]

continue-rebase_zero :
    (need left : ℕ) (s : List ℕ) (k c lead : ℕ)
    → continue need left s k c lead ≡ rebase k (continue need left s 0 c lead)
continue-rebase_zero need left s k c lead =
    ap (λ j. continue need left s j c lead) (sym (add-zero k))
    ∙ continue-rebase need left s k 0 c lead

-- The state of a pending character.
abbrev pending : ℕ → ℕ → ℕ → MbState
pending need c lead = record { st = c; n = need + lead * 2 ^ 8 }

resume : ℕ → List ℕ → MbState → Run MbResult
resume n s st = continue (st.n % 2 ^ 3) n s 0 st.st (st.n / 2 ^ 8)

resume-pending :
    (need n : ℕ) (s : List ℕ) (c lead : ℕ)
    → need < 8
    → resume n s (pending need c lead) ≡ continue need n s 0 c lead
unfolding resume
resume-pending need n s c lead h =
    let e : (need + lead * 2 ^ 8) % 2 ^ 3 ≡ need = omega arith in
    let f : (need + lead * 2 ^ 8) / 2 ^ 8 ≡ lead = omega arith in rw (e, f)

-- What an incomplete call leaves pending.
incomplete-pending :
    (need left : ℕ) (s : List ℕ) (i c lead : ℕ) {r : MbResult}
    → need < 8
    → continue need left s i c lead ≡ ok r
    → r.ret ≡ incomplete
    → (need' : ℕ) × (c' : ℕ) × (lead' : ℕ) × (r.state ≡ pending (suc need') c' lead')
      × (suc need' < 8)
unfolding continue
incomplete-pending zero left s i c lead h e f = absurd (cc)
incomplete-pending (suc need) zero s i c lead h e f = (need, c, lead, cc, h)
incomplete-pending (suc need) (suc left) [] i c lead h e f = absurd (cc)
incomplete-pending (suc need) (suc left) (b ∷ s) i c lead h e f =
    elim (Bool-cases (rejects lead b)) [
      | inl x ↦ absurd (ground arith)
      | inr x ↦ incomplete-pending need left s (i + 1) _ 0 (omega arith) (rw x at e) f
    ]

mbrtowc-pending :
    (need n : ℕ) (t : List ℕ) (c lead : ℕ)
    → suc need < 8
    → mbrtowc (some t) n (pending (suc need) c lead) ≡ resume n t (pending (suc need) c lead)
mbrtowc-pending need zero t c lead h =
    rw (resume-pending (suc need) zero t c lead h) (unfold mbrtowc continue in refl)
mbrtowc-pending need (suc n) t c lead h = unfold mbrtowc resume in ground arith

mbrtowc-resume :
    (need left n : ℕ) (s t : List ℕ) (i c lead : ℕ) {r : MbResult}
    → need < 8
    → continue need left s i c lead ≡ ok r
    → r.ret ≡ incomplete
    → mbrtowc (some t) n r.state ≡ resume n t r.state
mbrtowc-resume need left n s t i c lead h e f =
    let (need', c', lead', p, h') = incomplete-pending need left s i c lead h e f in
    rw p (mbrtowc-pending need' n t c' lead' h')

continue-append :
    (need n : ℕ) (s t : List ℕ) (i c lead j : ℕ) {r : MbResult}
    → need < 8
    → continue need (length s) s i c lead ≡ ok r
    → r.ret ≡ incomplete
    → i + length s ≡ j
    → continue need (length s + n) (s ++ t) i c lead ≡ rebase j (resume n t r.state)
unfolding continue
continue-append zero n s t i c lead j h e f g = absurd (cc)
continue-append (suc need) n [] t i c lead j {r} h e f g = rw (zero-add n) (
    continue-rebase_zero (suc need) n t i c lead
    ∙ ap₂ rebase (omega arith)
        (sym (ap (resume n t) state ∙ resume-pending (suc need) n t c lead h)))
  where
    state : r.state ≡ pending (suc need) c lead
    state = cc
continue-append (suc need) n (b ∷ s) t i c lead j h e f g =
    rw (suc-add (length s) n) (elim (Bool-cases (rejects lead b)) [
      | inl x ↦ absurd (ground arith)
      | inr x ↦
          rw x (continue-append need n s t (i + 1) _ 0 j (omega arith) (rw x at e) f (omega arith))
    ])

-- The same, in the words of `mbrtowc`.
continue-mbrtowc :
    (need n : ℕ) (s t : List ℕ) (i c lead j : ℕ) {r : MbResult}
    → need < 8
    → continue need (length s) s i c lead ≡ ok r
    → r.ret ≡ incomplete
    → i + length s ≡ j
    → continue need (length s + n) (s ++ t) i c lead ≡ rebase j (mbrtowc (some t) n r.state)
continue-mbrtowc need n s t i c lead j h e f g =
    continue-append need n s t i c lead j h e f g
    ∙ ap (rebase j) (sym (mbrtowc-resume need (length s) n s t i c lead h e f))

lead_byte-append :
    (b : ℕ) (s t : List ℕ) (n : ℕ) (st : MbState) {r : MbResult}
    → lead_byte b (length s) s st ≡ ok r
    → r.ret ≡ incomplete
    → lead_byte b (length s + n) (s ++ t) st ≡ rebase (suc (length s)) (mbrtowc (some t) n r.state)
unfolding lead_byte
lead_byte-append b s t n st e f = elim (Bool-cases (ltb b 0x80)) [
  | inl x ↦ absurd (ground arith)
  | inr x ↦ elim (Bool-cases (leb 0xc2 b && leb b 0xdf)) [
    | inl y ↦
        rw (x, y) (continue-mbrtowc 1 n s t 1 _ b _ (omega arith) (rw (x, y) at e) f (omega arith))
    | inr y ↦ elim (Bool-cases (leb 0xe0 b && leb b 0xef)) [
      | inl z ↦
          rw (x, y, z)
            (continue-mbrtowc 2 n s t 1 _ b _ (omega arith) (rw (x, y, z) at e) f (omega arith))
      | inr z ↦ elim (Bool-cases (leb 0xf0 b && leb b 0xf4)) [
        | inl w ↦
            rw (x, y, z, w)
              (continue-mbrtowc 3 n s t 1 _ b _ (omega arith) (rw (x, y, z, w) at e) f
                (omega arith))
        | inr w ↦ absurd (ground arith)
      ]
    ]
  ]
]

-- An incomplete call has consumed all its bytes: resuming from its state with the bytes that follow
-- gives what one call on the whole gives, but for the count, which starts anew.
pub mbrtowc-append :
    (s t : List ℕ) (n : ℕ) (st : MbState) {r : MbResult}
    → s ≢ []
    → mbrtowc (some s) (length s) st ≡ ok r
    → r.ret ≡ incomplete
    → mbrtowc (some (s ++ t)) (length s + n) st ≡ rebase (length s) (mbrtowc (some t) n r.state)
unfolding mbrtowc
mbrtowc-append [] t n st ne e f = absurd (ne refl)
mbrtowc-append (b ∷ s) t n st ne e f =
    rw (suc-add (length s) n) (elim (Bool-cases (st.n % 2 ^ 3 == 0)) [
      | inl x ↦ rw x (lead_byte-append b s t n st (rw x at e) f)
      | inr x ↦
          rw (x, ← suc-add (length s) n)
            (continue-mbrtowc (st.n % 2 ^ 3) n (b ∷ s) t 0 st.st (st.n / 2 ^ 8) _ (omega arith)
              (rw x at e) f (omega arith))
    ])
