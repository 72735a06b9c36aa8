-- ===== src/Telnet/Mxp.antt =====
-- src/core/network/telnet/mxp.rs: line tags, and the two functions that keep a player's out of text.
--
-- A `&str` is here the list of the codes of its characters. A slice that ends inside a character
-- panics, and `none` is that panic: only the two-byte sequence of `escape_sequence` can do so.
pub mod Scan
pub mod Unmarked
pub mod Guard
pub mod Gaps
pub mod State
pub mod Reply
use oxigeon.Base.{
  ℕ, zero, suc, Bool, true, false, not, ◌&&◌, ◌||◌, List, [], ◌∷◌, ◌++◌, Option, none, some, ◌==◌,
  ltb, leb, within, if◌then◌else◌, length, all_of,
}
use oxigeon.Telnet.Constants.{esc}

abbrev pub Text : Type 0
Text = List ℕ

-- The loop over `j` of a CSI sequence: up to the first final byte, or to the end.
unfoldable pub csi_tail : Text → Text × Text
csi_tail [] = ([], [])
csi_tail (b ∷ bs) =
    let (seq, rest) = csi_tail bs in if within 0x40 0x7e b then (b ∷ [], bs) else (b ∷ seq, rest)

-- `escape_sequence(s, i)` at the text from `i` on: the sequence, and the text behind it.
unfoldable pub escape_sequence : Text → Option (Text × Text)
unfolding csi_tail
escape_sequence [] = some ([], [])
escape_sequence (e ∷ []) = some (e ∷ [], [])
escape_sequence (e ∷ b ∷ bs) =
    if b == b'['
    then (let (seq, rest) = csi_tail bs in some (e ∷ b ∷ seq, rest))
    else if ltb b 128
    then some (e ∷ b ∷ [], bs)
    else none

abbrev pub is_digit : ℕ → Bool
is_digit c = within (b'0') (b'9') c

-- The digits, and the `z` behind them.
unfoldable pub is_digits_z : Text → Bool
is_digits_z [] = false
is_digits_z (c ∷ []) = c == b'z'
is_digits_z (c ∷ cs) = is_digit c && is_digits_z cs

unfoldable pub is_line_tag : Text → Bool
unfolding is_digits_z
is_line_tag (e ∷ b ∷ c ∷ d ∷ cs) = (b == b'[') && is_digits_z (c ∷ d ∷ cs)
is_line_tag _ = false

abbrev pub prepend : Text → Option Text → Option Text
prepend s none = none
prepend s (some t) = some (s ++ t)

-- The `ESC` arm of both loops: a line tag is dropped, any other sequence is copied whole.
abbrev pub kept : Text → Text
kept seq = if is_line_tag seq then [] else seq

-- The `while` loops of `strip_line_modes` and of `escape`, which differ in what they write for a
-- character that is not ESC. Fuel that ran out is `none` too.
unfoldable pub scan : (ℕ → Text) → ℕ → Text → Option Text
unfolding escape_sequence is_line_tag
scan write zero s = none
scan write (suc f) [] = some []
scan write (suc f) (b ∷ bs) = elim (b == esc) [
  | false ↦ prepend (write b) (scan write f bs)
  | true ↦ elim (escape_sequence (b ∷ bs)) [
    | none ↦ none
    | some (seq, rest) ↦ prepend (kept seq) (scan write f rest)
  ]
]

abbrev pub contains : ℕ → Text → Bool
contains c [] = false
contains c (b ∷ bs) = (b == c) || contains c bs

abbrev pub itself : ℕ → Text
itself b = b ∷ []

unfoldable pub strip_line_modes : Text → Option Text
unfolding scan
strip_line_modes s = if contains esc s then scan itself (suc (length s)) s else some s

unfoldable pub entity : ℕ → Text
entity b =
    if b == b'<'
    then b'&' ∷ b'l' ∷ b't' ∷ b';' ∷ []
    else if b == b'>'
    then b'&' ∷ b'g' ∷ b't' ∷ b';' ∷ []
    else if b == b'&'
    then b'&' ∷ b'a' ∷ b'm' ∷ b'p' ∷ b';' ∷ []
    else if b == 34
    then b'&' ∷ b'q' ∷ b'u' ∷ b'o' ∷ b't' ∷ b';' ∷ []
    else b ∷ []

unfoldable pub escape : Text → Option Text
unfolding scan entity
escape s = scan entity (suc (length s)) s
