-- ===== src/Websocket/Ansi/Bounds.antt =====
-- src/core/network/websocket/protocol.rs: every colour is an index of the palette.
use oxigeon.Base.{
  ℕ, zero, suc, ◌≤◌, ◌<◌, Bool, true, false, List, [], ◌∷◌, ◌++◌, Option, none, some, ◌==◌, ◌||◌,
  Bytes, All, All-append, arith, Option-cases, Bool-cases, inl, inr,
}
use oxigeon.Websocket.Ansi.{
  Piece, sgr, text, scan, nearest_level, nearest_xterm, u16_at, channel, min, set_colour, extended,
  simple, part_step, code, apply_parts, split, Style, plain, Span, apply_sgr, span_of, spans_from,
  to_spans,
}

nearest_level-le : (v : ℕ) → nearest_level v ≤ 5
unfolding nearest_level
nearest_level-le v = ground arith

pub nearest_xterm_bounds :
    (r g b : ℕ)
    → r < 256
    → g < 256
    → b < 256
    → (16 ≤ nearest_xterm r g b) × (nearest_xterm r g b < 256)
unfolding nearest_xterm
nearest_xterm_bounds r g b hr hg hb =
    ground (arith, nearest_level-le r, nearest_level-le g, nearest_level-le b)

abbrev pub Below256 : Option ℕ → Type 0
Below256 none = Unit {0}
Below256 (some n) = n < 256

abbrev pub InPalette : Style → Type 0
InPalette style = Below256 style.fg × Below256 style.bg

set_colour-InPalette :
    (is_fg : Bool) (c : ℕ) (style : Style)
    → c < 256
    → InPalette style
    → InPalette (set_colour is_fg c style)
set_colour-InPalette true c style h p = (h, p.1)
set_colour-InPalette false c style h p = (p.0, h)

channel_bound : (o : Option ℕ) → channel o < 256
channel_bound none = omega arith
channel_bound (some n) = omega arith

indexed-InPalette :
    (is_fg : Bool) (o : Option ℕ) (style : Style)
    → InPalette style
    → InPalette (elim o [ none ↦ style | some v ↦ set_colour is_fg (min v 255) style ])
indexed-InPalette is_fg none style p = p
indexed-InPalette is_fg (some v) style p =
    set_colour-InPalette is_fg (min v 255) style (ground arith) p

extended-InPalette :
    (is_fg : Bool) (parts : List Bytes) (style : Style)
    → InPalette style
    → InPalette (extended is_fg parts style).0
unfolding extended
extended-InPalette is_fg parts style p = elim (Option-cases (u16_at 0 parts)) [
  | inl e ↦ rw (extended, e) p
  | inr (kind, e) ↦ elim (Bool-cases (kind == 5)) [
    | inl k ↦ rw (extended, e, k) (indexed-InPalette is_fg (u16_at 1 parts) style p)
    | inr k ↦ elim (Bool-cases (kind == 2)) [
      | inl l ↦
          rw (extended, e, k, l)
            (set_colour-InPalette is_fg _ style
              (nearest_xterm_bounds _ _ _ (channel_bound (u16_at 1 parts))
                (channel_bound (u16_at 2 parts)) (channel_bound (u16_at 3 parts))).1
              p)
      | inr l ↦ rw (extended, e, k, l) p
    ]
  ]
]

simple-InPalette : (n : ℕ) (style : Style) → InPalette style → InPalette (simple n style)
unfolding simple
simple-InPalette n style p = ground arith

part_step-InPalette :
    (part : Bytes) (parts : List Bytes) (style : Style)
    → InPalette style
    → InPalette (part_step part parts style).0
unfolding part_step
part_step-InPalette part parts style p = elim (Option-cases (code part)) [
  | inl e ↦ rw (part_step, e) p
  | inr (n, e) ↦ elim (Bool-cases ((n == 38) || (n == 48))) [
    | inl x ↦ rw (part_step, e, x) (extended-InPalette (n == 38) parts style p)
    | inr x ↦ rw (part_step, e, x) (simple-InPalette n style p)
  ]
]

apply_parts-InPalette :
    (skip : ℕ) (parts : List Bytes) (style : Style)
    → InPalette style
    → InPalette (apply_parts skip parts style)
unfolding apply_parts
apply_parts-InPalette zero [] style h = h
apply_parts-InPalette (suc skip) [] style h = h
apply_parts-InPalette (suc skip) (p ∷ ps) style h = apply_parts-InPalette skip ps style h
apply_parts-InPalette zero (p ∷ ps) style h =
    apply_parts-InPalette (part_step p ps style).1 ps (part_step p ps style).0
      (part_step-InPalette p ps style h)

apply_sgr-InPalette : (p : Bytes) (style : Style) → InPalette style → InPalette (apply_sgr p style)
unfolding apply_sgr
apply_sgr-InPalette [] style h = (tt, tt)
apply_sgr-InPalette (c ∷ cs) style h = apply_parts-InPalette 0 (split b';' (c ∷ cs)) style h

abbrev pub SpanInPalette : Span → Type 0
SpanInPalette s = InPalette s.style

span_of-InPalette :
    (style : Style) (t : Bytes) → InPalette style → All SpanInPalette (span_of style t)
span_of-InPalette style [] h = tt
span_of-InPalette style (c ∷ cs) h = (h, tt)

spans_from-InPalette :
    (style : Style) (buf : Bytes) (ps : List Piece)
    → InPalette style
    → All SpanInPalette (spans_from style buf ps)
unfolding spans_from
spans_from-InPalette style buf [] h = span_of-InPalette style buf h
spans_from-InPalette style buf (sgr p ∷ ps) h =
    All-append SpanInPalette (span_of style buf) _ (span_of-InPalette style buf h)
      (spans_from-InPalette (apply_sgr p style) [] ps (apply_sgr-InPalette p style h))
spans_from-InPalette style buf (text t ∷ ps) h = spans_from-InPalette style (buf ++ t) ps h

-- Whatever the text: every colour of its spans is one of the 256 of the palette.
pub to_spans-InPalette : (s : Bytes) → All SpanInPalette (to_spans s)
unfolding to_spans
to_spans-InPalette s = spans_from-InPalette plain [] (scan s) (tt, tt)
