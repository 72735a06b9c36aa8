-- ===== src/Websocket/Ansi/Paint.antt =====
-- src/core/network/websocket/protocol.rs: every list of spans can be written with escape codes, and is
-- read back.
use oxigeon.Base.{
  ℕ, ◌≤◌, ◌<◌, Bool, true, false, List, [], ◌∷◌, ◌++◌, Option, none, some, within, Bytes, All,
  All-append, ◌≡◌, ◌≢◌, refl, sym, ap, ◌∙◌, arith, append_assoc, append-nil,
}
use oxigeon.Base.Decimal.{digits, IsDigit, digits-IsDigit, parse-digits}
use oxigeon.Base.Utf8.{ascii}
use oxigeon.Telnet.Constants.{esc}
use oxigeon.Websocket.Ansi.{
  set_colour, min, Piece, sgr, run, params, run_piece, step, scan_from, u16_limit, split, u16_at,
  extended, simple, code, part_step, apply_parts, Style, plain, Span, apply_sgr, span_of,
  spans_from, to_spans,
}
use oxigeon.Websocket.Ansi.Bounds.{InPalette, Below256}
use oxigeon.Websocket.Ansi.Strip.{IsText, scan_from-run}

-- A code, if it is wanted.
abbrev flag : Bool → Bytes → List Bytes
flag true c = c ∷ []
flag false c = []

abbrev colour : Bytes → Option ℕ → List Bytes
colour c none = []
colour c (some n) = c ∷ ascii "5" ∷ digits 3 n [] ∷ []

-- The codes of a style, behind the one for none.
abbrev codes : Style → List Bytes
codes s =
    flag s.bold (ascii "1")
    ++ (flag s.dim (ascii "2")
        ++ (flag s.italic (ascii "3")
            ++ (flag s.underline (ascii "4")
                ++ (flag s.blink (ascii "5")
                    ++ (flag s.inverse (ascii "7")
                        ++ (flag s.strike (ascii "9")
                            ++ (colour (ascii "38") s.fg ++ (colour (ascii "48") s.bg ++ []))))))))

abbrev joined : Bytes → List Bytes → Bytes
joined p [] = p
joined p (q ∷ qs) = p ++ b';' ∷ joined q qs

abbrev pub parameters : Style → Bytes
parameters s = joined (ascii "0") (codes s)

-- Spans, each behind the escape code of its style.
abbrev pub paint : List Span → Bytes
paint [] = []
paint (s ∷ ss) = esc ∷ b'[' ∷ (parameters s.style ++ (b'm' ∷ (s.text ++ paint ss)))

-- What a code is made of: digits, and semicolons between them.
abbrev IsParam : ℕ → Type 0
IsParam c = (b'0' ≤ c) × (c ≤ b';')

split-joined :
    (p : Bytes) (ps : List Bytes)
    → All IsDigit p
    → All (All IsDigit) ps
    → split b';' (joined p ps) ≡ p ∷ ps
unfolding split
split-joined [] [] h hs = refl
split-joined [] (q ∷ qs) h hs = ap (◌∷◌ []) (split-joined q qs hs.0 hs.1)
split-joined (c ∷ cs) [] h hs = ground (arith, split-joined cs [] h.1 hs)
split-joined (c ∷ cs) (q ∷ qs) h hs = ground (arith, split-joined cs (q ∷ qs) h.1 hs)

joined-IsParam :
    (p : Bytes) (ps : List Bytes) → All IsDigit p → All (All IsDigit) ps → All IsParam (joined p ps)
joined-IsParam [] [] h hs = tt
joined-IsParam [] (q ∷ qs) h hs = (omega arith, joined-IsParam q qs hs.0 hs.1)
joined-IsParam (c ∷ cs) [] h hs = ((omega arith, omega arith), joined-IsParam cs [] h.1 hs)
joined-IsParam (c ∷ cs) (q ∷ qs) h hs =
    ((omega arith, omega arith), joined-IsParam cs (q ∷ qs) h.1 hs)

scan_from-params :
    (held p rest : Bytes)
    → All IsParam p
    → scan_from (params held) (p ++ b'm' ∷ rest) ≡ sgr (held ++ p) ∷ scan_from (run []) rest
unfolding scan_from step
scan_from-params held [] rest h = ap (λ q. sgr q ∷ scan_from (run []) rest) (sym (append-nil held))
scan_from-params held (c ∷ cs) rest (h, hs) =
    let no_end : within 0x40 0x7E c ≡ false = ground arith in
    rw no_end (
      scan_from-params (held ++ c ∷ []) cs rest hs
      ∙ ap (λ q. sgr q ∷ scan_from (run []) rest) (append_assoc held (c ∷ []) cs))

-- A style with one field open, whose code sets that field.
apply_parts-flag :
    (b : Bool) (c : Bytes) (rest : List Bytes) (set : Bool → Style)
    → ((qs : List Bytes) → part_step c qs (set false) ≡ (set true, 0))
    → apply_parts 0 (flag b c ++ rest) (set false) ≡ apply_parts 0 rest (set b)
unfolding apply_parts
apply_parts-flag true c rest set h = rw (h rest) refl
apply_parts-flag false c rest set h = refl

u16_at-index :
    (n : ℕ) (qs : List Bytes) → n < 256 → u16_at 1 (ascii "5" ∷ digits 3 n [] ∷ qs) ≡ some n
unfolding u16_at
u16_at-index n qs h = parse-digits u16_limit 2 n (omega arith) (omega arith)

extended-index :
    (is_fg : Bool) (n : ℕ) (qs : List Bytes) (style : Style)
    → n < 256
    → extended is_fg (ascii "5" ∷ digits 3 n [] ∷ qs) style ≡ (set_colour is_fg n style, 2)
unfolding extended
extended-index is_fg n qs style h =
    let least : min n 255 ≡ n = ground arith in
    rw (extended, u16_at-index n qs h) (ap (λ c. (set_colour is_fg c style, 2)) least)

apply_parts-colour :
    (c : Bytes) (o : Option ℕ) (rest : List Bytes) (set : Option ℕ → Style)
    → Below256 o
    → ((n : ℕ) (qs : List Bytes)
        → n < 256
        → part_step c (ascii "5" ∷ digits 3 n [] ∷ qs) (set none) ≡ (set (some n), 2))
    → apply_parts 0 (colour c o ++ rest) (set none) ≡ apply_parts 0 rest (set o)
unfolding apply_parts
apply_parts-colour c none rest set h k = refl
apply_parts-colour c (some n) rest set h k =
    ap (λ (r : Style × ℕ). apply_parts r.1 (ascii "5" ∷ digits 3 n [] ∷ rest) r.0) (k n rest h)

-- The codes of a style, applied one by one.
apply_parts-codes : (s : Style) → InPalette s → apply_parts 0 (codes s) plain ≡ s
unfolding part_step code simple apply_parts
apply_parts-codes s (f, g) =
    apply_parts-flag s.bold (ascii "1") _ (λ b. record plain { bold = b }) (λ qs. refl)
    ∙ apply_parts-flag s.dim (ascii "2") _ (λ b. record plain { bold = s.bold; dim = b })
        (λ qs. refl)
    ∙ apply_parts-flag s.italic (ascii "3") _
        (λ b. record plain { bold = s.bold; dim = s.dim; italic = b }) (λ qs. refl)
    ∙ apply_parts-flag s.underline (ascii "4") _
        (λ b. record plain { bold = s.bold; dim = s.dim; italic = s.italic; underline = b })
        (λ qs. refl)
    ∙ apply_parts-flag s.blink (ascii "5") _
        (λ b. record s { fg = none; bg = none; blink = b; inverse = false; strike = false })
        (λ qs. refl)
    ∙ apply_parts-flag s.inverse (ascii "7") _
        (λ b. record s { fg = none; bg = none; inverse = b; strike = false }) (λ qs. refl)
    ∙ apply_parts-flag s.strike (ascii "9") _ (λ b. record s { fg = none; bg = none; strike = b })
        (λ qs. refl)
    ∙ apply_parts-colour (ascii "38") s.fg _ (λ o. record s { fg = o; bg = none }) f
        (λ n qs h. extended-index true n qs (record s { fg = none; bg = none }) h)
    ∙ apply_parts-colour (ascii "48") s.bg _ (λ o. record s { bg = o }) g
        (λ n qs h. extended-index false n qs (record s { bg = none }) h)

flag-IsDigit : (b : Bool) (c : ℕ) → IsDigit c → All (All IsDigit) (flag b (c ∷ []))
flag-IsDigit true c h = ((h, tt), tt)
flag-IsDigit false c h = tt

colour-IsDigit : (c : Bytes) (o : Option ℕ) → All IsDigit c → All (All IsDigit) (colour c o)
colour-IsDigit c none h = tt
colour-IsDigit c (some n) h = (h, (omega arith, (digits-IsDigit 3 n [] tt, tt)))

codes-IsDigit : (s : Style) → All (All IsDigit) (codes s)
codes-IsDigit s =
    let join = λ (xs ys : List Bytes). All-append (All IsDigit) xs ys in
    join (flag s.bold _) _ (flag-IsDigit s.bold b'1' (omega arith)) (
      join (flag s.dim _) _ (flag-IsDigit s.dim b'2' (omega arith)) (
        join (flag s.italic _) _ (flag-IsDigit s.italic b'3' (omega arith)) (
          join (flag s.underline _) _ (flag-IsDigit s.underline b'4' (omega arith)) (
            join (flag s.blink _) _ (flag-IsDigit s.blink b'5' (omega arith)) (
              join (flag s.inverse _) _ (flag-IsDigit s.inverse b'7' (omega arith)) (
                join (flag s.strike _) _ (flag-IsDigit s.strike b'9' (omega arith)) (
                  join (colour _ s.fg) _ (colour-IsDigit (ascii "38") s.fg (omega arith)) (
                    join (colour _ s.bg) [] (colour-IsDigit (ascii "48") s.bg (omega arith))
                      tt))))))))

-- The parameters begin with a zero.
abbrev zero_joined : List Bytes → Bytes
zero_joined [] = []
zero_joined (q ∷ qs) = b';' ∷ joined q qs

joined_zero : (ps : List Bytes) → joined (ascii "0") ps ≡ b'0' ∷ zero_joined ps
joined_zero [] = refl
joined_zero (q ∷ qs) = refl

apply_sgr-parameters : (s style : Style) → InPalette s → apply_sgr (parameters s) style ≡ s
unfolding apply_sgr apply_parts part_step code simple
apply_sgr-parameters s style h =
    ap (λ p. apply_sgr p style) (joined_zero (codes s))
    ∙ ap (λ ps. apply_parts 0 ps style)
        (ap (split b';') (sym (joined_zero (codes s)))
          ∙ split-joined (ascii "0") (codes s) (omega arith) (codes-IsDigit s))
    ∙ apply_parts-codes s h

parameters-IsParam : (s : Style) → All IsParam (parameters s)
parameters-IsParam s = joined-IsParam (ascii "0") (codes s) (omega arith) (codes-IsDigit s)

-- A span that can stand in a list: it has text, the text has no ESC, and its colours are of the
-- palette.
abbrev pub IsSpan : Span → Type 0
IsSpan s = (s.text ≢ []) × All IsText s.text × InPalette s.style

spans_from-run_piece :
    (style : Style) (held : Bytes) (ps : List Piece)
    → spans_from style [] (run_piece held ++ ps) ≡ spans_from style held ps
unfolding spans_from
spans_from-run_piece style [] ps = refl
spans_from-run_piece style (c ∷ cs) ps = refl

span_of-text :
    (style : Style) (t : Bytes) → t ≢ [] → span_of style t ≡ record { text = t; style = style } ∷ []
span_of-text style [] h = absurd (h refl)
span_of-text style (c ∷ cs) h = refl

spans_from-paint :
    (style : Style) (held : Bytes) (ss : List Span)
    → All IsSpan ss
    → spans_from style [] (scan_from (run held) (paint ss)) ≡ span_of style held ++ ss
unfolding scan_from step spans_from
spans_from-paint style [] [] h = refl
spans_from-paint style (c ∷ cs) [] h = refl
spans_from-paint style held (s ∷ ss) ((some_text, clean, palette), hs) =
    let p = parameters s.style in
    let behind = s.text ++ paint ss in
    ap (λ ps. spans_from style [] (run_piece held ++ ps))
      (scan_from-params [] p behind (parameters-IsParam s.style))
    ∙ spans_from-run_piece style held (sgr p ∷ scan_from (run []) behind)
    ∙ ap (◌++◌ (span_of style held)) (
        ap (λ t. spans_from t [] (scan_from (run []) behind))
          (apply_sgr-parameters s.style style palette)
        ∙ ap (spans_from s.style []) (scan_from-run [] s.text (paint ss) clean)
        ∙ spans_from-paint s.style s.text ss hs
        ∙ ap (λ l. l ++ ss) (span_of-text s.style s.text some_text))

-- Any spans can be painted: their texts behind the escape codes of their styles are read as just these
-- spans. Each has text without ESC, and its colours are of the palette.
pub to_spans-paint : (ss : List Span) → All IsSpan ss → to_spans (paint ss) ≡ ss
unfolding to_spans
to_spans-paint ss h = spans_from-paint plain [] ss h
