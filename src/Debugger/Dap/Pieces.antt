-- ===== src/Debugger/Dap/Pieces.antt =====
-- src/core/scripting/debugger/dap/codec.rs: a message that comes in pieces.
use oxigeon.Base.{
  ℕ, zero, suc, ◌+◌, ◌≤◌, true, false, [], ◌∷◌, ◌++◌, Option, none, some, ◌≡◌, refl, arith, ap, ltb,
  Bytes, length, take, drop, is_prefix, Bool-cases, Option-cases, sym, ◌∙◌, ◌⊎◌, inl, inr, ◌==◌,
  ◌&&◌, &&-eq-true,
}
use oxigeon.Base.Utf8.{is_utf8}
use oxigeon.Debugger.Dap.{max_body, Answer, Step, decode_body, decode_header, decode}
use oxigeon.Debugger.Dap.Header.{header_end, find_header_end, content_length}

is_prefix-append :
    (p s more : Bytes) → length p ≤ length s → is_prefix p (s ++ more) ≡ is_prefix p s
is_prefix-append [] s more h = refl
is_prefix-append (c ∷ p) [] more h = absurd (omega arith)
is_prefix-append (c ∷ p) (x ∷ s) more h =
    ap (λ b. (c == x) && b) (is_prefix-append p s more (omega arith))

length-is_prefix : (p s : Bytes) → is_prefix p s ≡ true → length p ≤ length s
length-is_prefix [] s h = omega arith
length-is_prefix (c ∷ p) [] h = cc
length-is_prefix (c ∷ p) (x ∷ s) h =
    omega (arith, length-is_prefix p s (&&-eq-true (c == x) (is_prefix p s) h).1)

-- The end of the header is here, or further on.
find_header_end_step :
    (c : ℕ) (cs : Bytes) (n : ℕ)
    → find_header_end (c ∷ cs) ≡ some n
    → ((is_prefix header_end (c ∷ cs) ≡ true) × (n ≡ 0))
      ⊎ ((m : ℕ) × (is_prefix header_end (c ∷ cs) ≡ false)
          × (find_header_end cs ≡ some m)
          × (n ≡ suc m))
unfolding find_header_end
find_header_end_step c cs n h = elim (Bool-cases (is_prefix header_end (c ∷ cs))) [
  | inl here ↦ inl (here, sym (cc (rw here at h)))
  | inr on ↦ elim (Option-cases (find_header_end cs)) [
    | inl e ↦ absurd (cc (rw (on, e) at h))
    | inr (m, e) ↦ inr (m, on, e, sym (cc (rw (on, e) at h)))
  ]
]

-- The end of the header lies within the text.
find_header_end_bound : (s : Bytes) (n : ℕ) → find_header_end s ≡ some n → n + 4 ≤ length s
unfolding find_header_end
find_header_end_bound [] n h = cc
find_header_end_bound (c ∷ cs) n h = elim (find_header_end_step c cs n h) [
  | inl (here, e) ↦ omega (arith, length-is_prefix header_end (c ∷ cs) here)
  | inr (m, _, e, q) ↦ omega (arith, find_header_end_bound cs m e)
]

-- A longer text has it at the same place.
find_header_end-append :
    (s more : Bytes) (n : ℕ) → find_header_end s ≡ some n → find_header_end (s ++ more) ≡ some n
unfolding find_header_end
find_header_end-append [] more n h = cc
find_header_end-append (c ∷ cs) more n h =
    let long = find_header_end_bound (c ∷ cs) n h in
    let same = is_prefix-append header_end (c ∷ cs) more (omega arith) in
    elim (find_header_end_step c cs n h) [
      | inl (here, e) ↦ rw (same ∙ here, e)
      | inr (m, on, e, q) ↦ rw (same ∙ on, find_header_end-append cs more m e, q)
    ]

take-append_within : (n : ℕ) (s more : Bytes) → n ≤ length s → take n (s ++ more) ≡ take n s
take-append_within zero s more h = refl
take-append_within (suc n) [] more h = absurd (omega arith)
take-append_within (suc n) (c ∷ s) more h = ap (◌∷◌ c) (take-append_within n s more (omega arith))

drop-append_within : (n : ℕ) (s more : Bytes) → n ≤ length s → drop n (s ++ more) ≡ drop n s ++ more
drop-append_within zero s more h = refl
drop-append_within (suc n) [] more h = absurd (omega arith)
drop-append_within (suc n) (c ∷ s) more h = drop-append_within n s more (omega arith)

module _ {V : Type 0} (from_slice : Bytes → Option V) where
  -- A decoder that is left as it was.
  waiting_as :
      {before need : Option ℕ} {src left : Bytes} (more : Bytes)
      → Path (Step V) (before, src, Answer.waiting) (need, left, Answer.waiting)
      → decode from_slice need (left ++ more) ≡ decode from_slice before (src ++ more)
  waiting_as more h =
      let at_once : Step V → Step V = λ p. decode from_slice (p.0) (p.1 ++ more) in
      ap at_once (sym h)

  decode_body-append :
      (len : ℕ) (src more left : Bytes) (need : Option ℕ)
      → decode_body from_slice len src ≡ (need, left, Answer.waiting)
      → decode from_slice need (left ++ more) ≡ decode_body from_slice len (src ++ more)
  unfolding decode_body decode
  decode_body-append len src more left need h = elim (Bool-cases (ltb (length src) len)) [
    | inl short ↦ waiting_as more (rw short at h)
    | inr long ↦ elim (Option-cases (from_slice (take len src))) [
      | inl e ↦ absurd (cc (rw (long, e) at h))
      | inr (v, e) ↦ absurd (cc (rw (long, e) at h))
    ]
  ]

  -- A header that is in order: the loop goes on with what it says.
  pub decode_header-body :
      (end len : ℕ) (src : Bytes)
      → is_utf8 (take end src) ≡ true
      → content_length (take end src) ≡ some len
      → ltb max_body len ≡ false
      → decode_header from_slice end src ≡ decode_body from_slice len (drop (end + 4) src)
  unfolding decode_header
  decode_header-body end len src good e fits = rw (good, e, fits) refl

  decode_header-append :
      (end : ℕ) (src more left : Bytes) (need : Option ℕ)
      → end + 4 ≤ length src
      → decode_header from_slice end src ≡ (need, left, Answer.waiting)
      → decode from_slice need (left ++ more) ≡ decode_header from_slice end (src ++ more)
  unfolding decode_header
  decode_header-append end src more left need b h =
      let same = take-append_within end src more (omega arith) in
      elim (Bool-cases (is_utf8 (take end src))) [
        | inr bad ↦ absurd (cc (rw bad at h))
        | inl good ↦ elim (Option-cases (content_length (take end src))) [
          | inl e ↦ absurd (cc (rw (good, e) at h))
          | inr (len, e) ↦ elim (Bool-cases (ltb max_body len)) [
            | inl over ↦ absurd (cc (rw (good, e, over) at h))
            | inr fits ↦
                decode_body-append len (drop (end + 4) src) more left need
                  (sym (decode_header-body end len src good e fits) ∙ h)
                ∙ ap (decode_body from_slice len) (sym (drop-append_within (end + 4) src more b))
                ∙ sym (
                    decode_header-body end len (src ++ more) (ap is_utf8 same ∙ good)
                      (ap content_length same ∙ e) fits)
          ]
        ]
      ]

  pub decode-header :
      (src : Bytes) (end : ℕ)
      → find_header_end src ≡ some end
      → decode from_slice none src ≡ decode_header from_slice end src
  unfolding decode
  decode-header src end e = rw (decode, e) refl

  -- How the bytes are cut does not matter: a decoder that left off waiting, given what it left of
  -- the buffer and more, does what it had done with all of it at once.
  pub decode-append :
      (before need : Option ℕ) (src more left : Bytes)
      → decode from_slice before src ≡ (need, left, Answer.waiting)
      → decode from_slice need (left ++ more) ≡ decode from_slice before (src ++ more)
  unfolding decode
  decode-append (some len) need src more left h = decode_body-append len src more left need h
  decode-append none need src more left h = elim (Option-cases (find_header_end src)) [
    | inl e ↦ waiting_as more (rw (decode, e) at h)
    | inr (end, e) ↦
        decode_header-append end src more left need (find_header_end_bound src end e)
          (sym (decode-header src end e) ∙ h)
        ∙ sym (decode-header (src ++ more) end (find_header_end-append src more end e))
  ]
