-- ===== src/Debugger/Dap/RoundTrip.antt =====
-- src/core/scripting/debugger/dap/codec.rs: what is encoded is decoded.
use oxigeon.Base.{
  ℕ, zero, suc, ◌+◌, ◌^◌, ◌≤◌, ◌<◌, true, false, [], ◌∷◌, ◌++◌, Option, none, some, ◌≡◌, ◌≢◌, refl,
  arith, ap, ltb, Bytes, length, drop, sym, ◌∙◌, All, take-append, drop-append, append_assoc,
  length-append, All-append, Option-cases, inl, inr,
}
use mathlib.Core.Option.{some-injective}
use oxigeon.Base.Decimal.{IsDigit, digits-IsDigit, digits_some, parse-digits}
use oxigeon.Base.Utf8.{is_utf8, ascii}
use oxigeon.Telnet.Mxp.State.{eq_ignore_ascii_case}
use oxigeon.Debugger.Dap.{max_body, Answer, decode_body, decode, framed, encode}
use oxigeon.Debugger.Dap.Header.{
  header_end, find_header_end, lines, split_once, trim_start_from, trim_end, trim, parse_usize,
  format, field, content_length,
}
use oxigeon.Debugger.Dap.Pieces.{decode_header-body, decode-header}

abbrev IsPrint : ℕ → Type 0
IsPrint c = (0x20 ≤ c) × (c ≤ 0x7E)

All-IsPrint : (s : Bytes) → All IsDigit s → All IsPrint s
All-IsPrint [] h = tt
All-IsPrint (c ∷ cs) (d, e) = ((omega arith, omega arith), All-IsPrint cs e)

trim_start-digit : (c : ℕ) (cs : Bytes) → IsDigit c → trim_start_from 0 (c ∷ cs) ≡ c ∷ cs
unfolding trim_start_from
trim_start-digit c [] h = ground arith
trim_start-digit c (d ∷ []) h = ground arith
trim_start-digit c (d ∷ e ∷ cs) h = ground arith

trim_end-digits : (s : Bytes) → All IsDigit s → trim_end s ≡ s
unfolding trim_end
trim_end-digits [] h = refl
trim_end-digits (c ∷ cs) h = grind (arith, trim_start-digit c cs h.0, trim_end-digits cs h.1)

-- A text with no ends of lines in it.
lines_one : (c : ℕ) (cs : Bytes) → All IsPrint (c ∷ cs) → lines (c ∷ cs) ≡ (c ∷ cs) ∷ []
unfolding lines
lines_one c [] h = ground arith
lines_one c (d ∷ ds) (h, e) = ground (arith, lines_one d ds e)

is_utf8-print : (s : Bytes) → All IsPrint s → is_utf8 s ≡ true
unfolding is_utf8
is_utf8-print [] h = refl
is_utf8-print (c ∷ cs) h = ground (arith, is_utf8-print cs)

find_header_end-print :
    (s rest : Bytes) → All IsPrint s → find_header_end (s ++ (header_end ++ rest)) ≡ some (length s)
unfolding find_header_end
find_header_end-print [] rest h = refl
find_header_end-print (c ∷ cs) rest (h, e) = ground (arith, find_header_end-print cs rest e)

-- A space and digits, trimmed.
trim-digits : (s : Bytes) → s ≢ [] → All IsDigit s → trim (0x20 ∷ s) ≡ s
unfolding trim trim_start_from
trim-digits [] h e = absurd (h refl)
trim-digits (c ∷ []) h e = ap trim_end (trim_start-digit c [] e.0) ∙ trim_end-digits (c ∷ []) e
trim-digits (c ∷ d ∷ ds) h e =
    ap trim_end (trim_start-digit c (d ∷ ds) e.0) ∙ trim_end-digits (c ∷ d ∷ ds) e

abbrev header : ℕ → Bytes
header n = ascii "Content-Length: " ++ format n

header-IsPrint : (n : ℕ) → All IsPrint (header n)
header-IsPrint n =
    All-append IsPrint (ascii "Content-Length: ") (format n) (omega arith)
      (All-IsPrint (format n) (digits-IsDigit 20 n [] tt))

field-header :
    (s : Bytes) → All IsPrint s → field (lines (ascii "Content-Length: " ++ s)) ≡ some (0x20 ∷ s)
unfolding field split_once eq_ignore_ascii_case
field-header s h = ap field (
    lines_one b'C' (ascii "ontent-Length: " ++ s)
      (All-append IsPrint (ascii "Content-Length: ") s (omega arith) h))

content_length-field :
    (s v : Bytes) → field (lines s) ≡ some v → content_length s ≡ parse_usize (trim v)
unfolding content_length
content_length-field s v e = rw (content_length, e) refl

-- The length that is written is the length that is read.
content_length-header : (n : ℕ) → n < 2 ^ 64 → content_length (header n) ≡ some n
content_length-header n h =
    let ds = digits-IsDigit 20 n [] tt in
    let ne = digits_some 19 n in
    content_length-field (header n) (0x20 ∷ format n) (field-header (format n) (All-IsPrint _ ds))
    ∙ ap parse_usize (trim-digits (format n) ne ds)
    ∙ parse-digits (2 ^ 64) 19 n (omega arith) h

drop-header_end : (n : ℕ) (s t : Bytes) → n ≡ length s + 4 → drop n (s ++ (header_end ++ t)) ≡ t
drop-header_end n [] t e = ap (λ k. drop k (header_end ++ t)) e
drop-header_end zero (c ∷ s) t e = absurd (omega arith)
drop-header_end (suc n) (c ∷ s) t e = drop-header_end n s t (omega arith)

module _ {V : Type 0} (from_slice : Bytes → Option V) where
  decode_body-append_body :
      (v : V) (body rest : Bytes)
      → from_slice body ≡ some v
      → decode_body from_slice (length body) (body ++ rest) ≡ (none, rest, Answer.message v)
  unfolding decode_body
  decode_body-append_body v body rest h =
      let long : ltb (length (body ++ rest)) (length body) ≡ false =
        ground (arith, length-append body rest) in
      rw (long, take-append body rest, h, drop-append body rest) refl

  decode-framed :
      (v : V) (body rest : Bytes)
      → from_slice body ≡ some v
      → length body ≤ max_body
      → decode from_slice none (framed body ++ rest) ≡ (none, rest, Answer.message v)
  unfolding framed
  decode-framed v body rest h fits =
      let n = length body in
      let src = header n ++ (header_end ++ (body ++ rest)) in
      let print = header-IsPrint n in
      let taken = take-append (header n) (header_end ++ (body ++ rest)) in
      ap (λ s. decode from_slice none (ascii "Content-Length: " ++ s))
        (append_assoc (format n) (header_end ++ body) rest)
      ∙ decode-header from_slice src (length (header n))
          (find_header_end-print (header n) (body ++ rest) print)
      ∙ decode_header-body from_slice (length (header n)) n src
          (ap is_utf8 taken ∙ is_utf8-print (header n) print)
          (ap content_length taken ∙ content_length-header n (omega arith)) (ground arith)
      ∙ ap (decode_body from_slice n)
          (drop-header_end (length (header n) + 4) (header n) (body ++ rest) refl)
      ∙ decode_body-append_body v body rest h

  -- A message that is encoded is decoded, whatever comes behind it, and just its bytes are taken. The JSON
  -- of this message is read back as it was, and is no longer than `MAX_BODY`.
  pub decode-encode :
      (to_vec : V → Option Bytes) (v : V) (bytes rest : Bytes)
      → ((body : Bytes) → to_vec v ≡ some body → from_slice body ≡ some v)
      → ((body : Bytes) → to_vec v ≡ some body → length body ≤ max_body)
      → encode to_vec v [] ≡ some bytes
      → decode from_slice none (bytes ++ rest) ≡ (none, rest, Answer.message v)
  unfolding encode
  decode-encode to_vec v bytes rest law short h = elim (Option-cases (to_vec v)) [
    | inl e ↦ absurd (cc (rw (encode, e) at h))
    | inr (body, e) ↦
        ap (λ b. decode from_slice none (b ++ rest))
          (sym (some-injective _ _ (rw (encode, e) at h)))
        ∙ decode-framed v body rest (law body e) (short body e)
  ]
