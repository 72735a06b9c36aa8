-- ===== src/Websocket/Ansi.antt =====
-- src/core/network/websocket/protocol.rs: escape codes, stripped or read as styles. A text is the list
-- of its bytes; every place where the code cuts one is before or behind an ASCII byte.
pub mod Strip
pub mod Bounds
pub mod Paint
use oxigeon.Base.{
  ℕ, zero, suc, ◌+◌, ◌-◌, ◌*◌, ◌/◌, ◌%◌, Bool, true, false, ◌||◌, List, [], ◌∷◌, ◌++◌, Option, none,
  some, ltb, leb, ◌==◌, within, if◌then◌else◌, Bytes,
}
use oxigeon.Base.Decimal.{parse}
use oxigeon.Telnet.Constants.{esc}

pub data Piece : Type 0 where
  sgr text : Bytes → Piece

-- Where the loop stands: in a run of text, since `run_start`; behind an ESC; or in the inner loop over
-- `j`, with the parameters since `params_start`.
pub data Place : Type 0 where
  run : Bytes → Place
  escaped : Place
  params : Bytes → Place

abbrev pub run_piece : Bytes → List Piece
run_piece [] = []
run_piece (b ∷ bs) = text (b ∷ bs) ∷ []

-- One byte: what it emits, and where the loop stands behind it.
unfoldable pub step : Place → ℕ → List Piece × Place
step (run held) b = if b == esc then (run_piece held, escaped) else ([], run (held ++ b ∷ []))
step escaped b =
    if b == b'[' then ([], params []) else if b == esc then ([], escaped) else ([], run (b ∷ []))
step (params held) b =
    if within 0x40 0x7E b
    then ((if b == b'm' then sgr held ∷ [] else []), run [])
    else ([], params (held ++ b ∷ []))

-- A sequence that the text breaks off emits nothing.
abbrev pub last_pieces : Place → List Piece
last_pieces (run held) = run_piece held
last_pieces escaped = []
last_pieces (params held) = []

unfoldable pub scan_from : Place → Bytes → List Piece
unfolding step
scan_from place [] = last_pieces place
scan_from place (b ∷ bs) = let (out, next) = step place b in out ++ scan_from next bs

abbrev pub scan : Bytes → List Piece
scan = scan_from (run [])

pub record Style : Type 0 where
  pub fg : Option ℕ
  pub bg : Option ℕ
  pub bold : Bool
  pub dim : Bool
  pub italic : Bool
  pub underline : Bool
  pub blink : Bool
  pub inverse : Bool
  pub strike : Bool

abbrev pub plain : Style
plain = record {
  fg = none;
  bg = none;
  bold = false;
  dim = false;
  italic = false;
  underline = false;
  blink = false;
  inverse = false;
  strike = false;
}

-- The fields of a span are its text and those of a style.
pub record Span : Type 0 where
  pub text : Bytes
  pub style : Style

abbrev pub u16_limit : ℕ
u16_limit = 0x10000

abbrev far : ℕ → ℕ → ℕ
far a b = if leb b a then a - b else b - a

-- `min_by_key`: of the levels from the `i`-th on, the first that is nearest to `v`, if it is nearer
-- than the `best`.
abbrev nearest_from : ℕ → ℕ → ℕ → ℕ → List ℕ → ℕ
nearest_from v best least i [] = best
nearest_from v best least i (l ∷ ls) =
    nearest_from v (if ltb (far l v) least then i else best)
      (if ltb (far l v) least then far l v else least) (suc i) ls

-- The index of the level that is nearest to a channel.
unfoldable pub nearest_level : ℕ → ℕ
nearest_level v = nearest_from v 0 (far 0 v) 1 (95 ∷ 135 ∷ 175 ∷ 215 ∷ 255 ∷ [])

abbrev max : ℕ → ℕ → ℕ
max a b = if leb a b then b else a

abbrev pub min : ℕ → ℕ → ℕ
min a b = if leb a b then a else b

unfoldable pub nearest_xterm : ℕ → ℕ → ℕ → ℕ
unfolding nearest_level
nearest_xterm r g b =
    let most = max (max r g) b in
    let least = min (min r g) b in
    if ltb (most - least) 10
    then 232 + (most * 23) / 255
    else (16 + 36 * nearest_level r + 6 * nearest_level g + nearest_level b) % 256

abbrev pub prepend_to : ℕ → List Bytes → List Bytes
prepend_to c [] = (c ∷ []) ∷ []
prepend_to c (p ∷ ps) = (c ∷ p) ∷ ps

-- `split`: one part more than there are separators.
unfoldable pub split : ℕ → Bytes → List Bytes
split sep [] = [] ∷ []
split sep (c ∷ cs) = let rest = split sep cs in if c == sep then [] ∷ rest else prepend_to c rest

-- `parts.get(k).and_then(|p| p.parse::<u16>().ok())`
unfoldable pub u16_at : ℕ → List Bytes → Option ℕ
unfolding parse
u16_at k [] = none
u16_at zero (p ∷ ps) = parse u16_limit p
u16_at (suc k) (p ∷ ps) = u16_at k ps

-- `unwrap_or(0) as u8`
abbrev pub channel : Option ℕ → ℕ
channel none = 0
channel (some n) = n % 256

abbrev pub set_colour : Bool → ℕ → Style → Style
set_colour true c style = record style { fg = some c }
set_colour false c style = record style { bg = some c }

-- The arm of 38 and 48: the style, and how many of the parts behind are taken.
unfoldable pub extended : Bool → List Bytes → Style → Style × ℕ
unfolding u16_at nearest_xterm
extended is_fg parts style = elim (u16_at 0 parts) [
  | none ↦ (style, 0)
  | some kind ↦
      if kind == 5
      then (elim (u16_at 1 parts) [ none ↦ style | some v ↦ set_colour is_fg (min v 255) style ], 2)
      else if kind == 2
      then (
        set_colour is_fg
            (nearest_xterm (channel (u16_at 1 parts)) (channel (u16_at 2 parts))
              (channel (u16_at 3 parts)))
            style,
        4,
      )
      else (style, 0)
]

-- The arms of the other codes.
unfoldable pub simple : ℕ → Style → Style
simple n style =
    if n == 0
    then plain
    else if n == 1
    then record style { bold = true }
    else if n == 2
    then record style { dim = true }
    else if n == 3
    then record style { italic = true }
    else if n == 4
    then record style { underline = true }
    else if within 5 6 n
    then record style { blink = true }
    else if n == 7
    then record style { inverse = true }
    else if n == 9
    then record style { strike = true }
    else if within 21 22 n
    then record style { bold = false; dim = false }
    else if n == 23
    then record style { italic = false }
    else if n == 24
    then record style { underline = false }
    else if n == 25
    then record style { blink = false }
    else if n == 27
    then record style { inverse = false }
    else if n == 29
    then record style { strike = false }
    else if within 30 37 n
    then record style { fg = some (n - 30) }
    else if n == 39
    then record style { fg = none }
    else if within 40 47 n
    then record style { bg = some (n - 40) }
    else if n == 49
    then record style { bg = none }
    else if within 90 97 n
    then record style { fg = some (n - 90 + 8) }
    else if within 100 107 n
    then record style { bg = some (n - 100 + 8) }
    else style

-- An empty parameter is zero.
unfoldable pub code : Bytes → Option ℕ
unfolding parse
code [] = some 0
code (c ∷ cs) = parse u16_limit (c ∷ cs)

-- One turn of the loop over the parts.
unfoldable pub part_step : Bytes → List Bytes → Style → Style × ℕ
unfolding code simple extended
part_step part parts style = elim (code part) [
  | none ↦ (style, 0)
  | some n ↦ if (n == 38) || (n == 48) then extended (n == 38) parts style else (simple n style, 0)
]

-- The loop from the part on that lies behind so many.
unfoldable pub apply_parts : ℕ → List Bytes → Style → Style
unfolding part_step
apply_parts skip [] style = style
apply_parts (suc skip) (p ∷ ps) style = apply_parts skip ps style
apply_parts zero (p ∷ ps) style =
    let (next, skip) = part_step p ps style in apply_parts skip ps next

unfoldable pub apply_sgr : Bytes → Style → Style
unfolding apply_parts split
apply_sgr [] style = plain
apply_sgr (c ∷ cs) style = apply_parts 0 (split b';' (c ∷ cs)) style

abbrev pub span_of : Style → Bytes → List Span
span_of style [] = []
span_of style (b ∷ bs) = record { text = b ∷ bs; style = style } ∷ []

-- The closure of `to_spans` over the pieces, from the style and the `buf` that were reached.
unfoldable pub spans_from : Style → Bytes → List Piece → List Span
unfolding apply_sgr
spans_from style buf [] = span_of style buf
spans_from style buf (sgr p ∷ ps) = span_of style buf ++ spans_from (apply_sgr p style) [] ps
spans_from style buf (text t ∷ ps) = spans_from style (buf ++ t) ps

unfoldable pub to_spans : Bytes → List Span
unfolding scan_from spans_from
to_spans s = spans_from plain [] (scan s)

abbrev pub texts : List Piece → Bytes
texts [] = []
texts (sgr p ∷ ps) = texts ps
texts (text t ∷ ps) = t ++ texts ps

unfoldable pub strip_ansi : Bytes → Bytes
unfolding scan_from
strip_ansi s = texts (scan s)
