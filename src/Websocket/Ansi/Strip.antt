-- ===== src/Websocket/Ansi/Strip.antt =====
-- src/core/network/websocket/protocol.rs: `to_spans` and `strip_ansi` see the same text.
use oxigeon.Base.{
  ℕ, List, [], ◌∷◌, ◌++◌, ◌==◌, Bytes, All, All-append, ◌≡◌, ◌≢◌, refl, sym, ap, ◌∙◌, arith,
  append_assoc, append-nil, Bool-cases, inl, inr,
}
use oxigeon.Telnet.Constants.{esc}
use oxigeon.Websocket.Ansi.{
  Piece, sgr, text, Place, run, escaped, params, run_piece, step, scan_from, Style, plain, Span,
  apply_sgr, span_of, spans_from, to_spans, texts, strip_ansi,
}

abbrev pub span_texts : List Span → Bytes
span_texts [] = []
span_texts (s ∷ ss) = s.text ++ span_texts ss

abbrev pub IsText : ℕ → Type 0
IsText c = c ≢ esc

span_texts-span_of :
    (style : Style) (t : Bytes) (ss : List Span)
    → span_texts (span_of style t ++ ss) ≡ t ++ span_texts ss
span_texts-span_of style [] ss = refl
span_texts-span_of style (c ∷ cs) ss = refl

spans_from-texts :
    (style : Style) (buf : Bytes) (ps : List Piece)
    → span_texts (spans_from style buf ps) ≡ buf ++ texts ps
unfolding spans_from
spans_from-texts style [] [] = refl
spans_from-texts style (c ∷ cs) [] = refl
spans_from-texts style buf (sgr p ∷ ps) =
    span_texts-span_of style buf _ ∙ ap (◌++◌ buf) (spans_from-texts (apply_sgr p style) [] ps)
spans_from-texts style buf (text t ∷ ps) =
    spans_from-texts style (buf ++ t) ps ∙ append_assoc buf t (texts ps)

abbrev pub HasText : Span → Type 0
HasText s = s.text ≢ []

span_of-HasText : (style : Style) (t : Bytes) → All HasText (span_of style t)
span_of-HasText style [] = tt
span_of-HasText style (c ∷ cs) = ((λ e. cc), tt)

spans_from-HasText :
    (style : Style) (buf : Bytes) (ps : List Piece) → All HasText (spans_from style buf ps)
unfolding spans_from
spans_from-HasText style buf [] = span_of-HasText style buf
spans_from-HasText style buf (sgr p ∷ ps) =
    All-append HasText (span_of style buf) _ (span_of-HasText style buf)
      (spans_from-HasText (apply_sgr p style) [] ps)
spans_from-HasText style buf (text t ∷ ps) = spans_from-HasText style (buf ++ t) ps

-- The spans of a text hold what is left of it when its escape codes are stripped, nothing more and
-- nothing less, and no span is empty.
pub to_spans-strip_ansi :
    (s : Bytes) → (span_texts (to_spans s) ≡ strip_ansi s) × All HasText (to_spans s)
unfolding to_spans strip_ansi
to_spans-strip_ansi s =
    let ps = scan_from (run []) s in (spans_from-texts plain [] ps, spans_from-HasText plain [] ps)

-- What was read of a run holds no ESC.
abbrev IsClean : Place → Type 0
IsClean (run held) = All IsText held
IsClean escaped = Unit {0}
IsClean (params held) = Unit {0}

texts-run_piece : (held : Bytes) → texts (run_piece held) ≡ held
texts-run_piece [] = refl
texts-run_piece (c ∷ cs) = append-nil (c ∷ cs)

texts-append : (ps qs : List Piece) → texts (ps ++ qs) ≡ texts ps ++ texts qs
texts-append [] qs = refl
texts-append (sgr p ∷ ps) qs = texts-append ps qs
texts-append (text t ∷ ps) qs =
    ap (◌++◌ t) (texts-append ps qs) ∙ sym (append_assoc t (texts ps) (texts qs))

abbrev IsCleanStep : List Piece × Place → Type 0
IsCleanStep (ps, place) = All IsText (texts ps) × IsClean place

step-IsClean : (place : Place) (b : ℕ) → IsClean place → IsCleanStep (step place b)
unfolding step
step-IsClean (run held) b c = elim (Bool-cases (b == esc)) [
  | inl e ↦ rw e (rw (texts-run_piece held) c, tt)
  | inr e ↦ rw e (tt, All-append IsText held (b ∷ []) c (ground arith, tt))
]
step-IsClean escaped b c = ground arith
step-IsClean (params held) b c = ground arith

scan_from-IsText :
    (place : Place) (s : Bytes) → IsClean place → All IsText (texts (scan_from place s))
unfolding scan_from
scan_from-IsText (run held) [] c = rw (texts-run_piece held) c
scan_from-IsText escaped [] c = tt
scan_from-IsText (params p) [] c = tt
scan_from-IsText place (b ∷ bs) c =
    let (here, next) = step-IsClean place b c in
    rw (texts-append (step place b).0 (scan_from (step place b).1 bs)) (
      All-append IsText (texts (step place b).0) _ here (scan_from-IsText (step place b).1 bs next))

-- A text without ESC is one run.
pub scan_from-run :
    (held s rest : Bytes)
    → All IsText s
    → scan_from (run held) (s ++ rest) ≡ scan_from (run (held ++ s)) rest
unfolding scan_from step
scan_from-run held [] rest h = ap (λ r. scan_from (run r) rest) (sym (append-nil held))
scan_from-run held (c ∷ cs) rest h = elim (Bool-cases (c == esc)) [
  | inl e ↦ absurd (h.0 (ground arith))
  | inr e ↦
      rw (e, scan_from)
        (scan_from-run (held ++ c ∷ []) cs rest h.1
          ∙ ap (λ r. scan_from (run r) rest) (append_assoc held (c ∷ []) cs))
]

strip_ansi-fixed : (s : Bytes) → All IsText s → strip_ansi s ≡ s
unfolding strip_ansi scan_from
strip_ansi-fixed s h =
    ap (λ t. strip_ansi t) (sym (append-nil s))
    ∙ ap texts (scan_from-run [] s [] h)
    ∙ texts-run_piece s

-- What `strip_ansi` leaves of a text has no ESC in it, and stripping it once more changes nothing.
pub strip_ansi-idempotent :
    (s : Bytes) → All IsText (strip_ansi s) × (strip_ansi (strip_ansi s) ≡ strip_ansi s)
unfolding strip_ansi
strip_ansi-idempotent s =
    let clean = scan_from-IsText (run []) s tt in (clean, strip_ansi-fixed (strip_ansi s) clean)
