-- ===== src/Debugger/Dap/Header.antt =====
-- src/core/scripting/debugger/dap/codec.rs: the header of a DAP message, and what its reading uses
-- of Rust's texts. A text is the list of its bytes.
use oxigeon.Base.{
  ℕ, zero, suc, ◌^◌, Bool, true, false, ◌&&◌, ◌||◌, List, [], ◌∷◌, Option, none, some, ◌==◌, within,
  if◌then◌else◌, Bytes, is_prefix,
}
use oxigeon.Base.Utf8.{ascii}
use oxigeon.Base.Decimal.{parse, digits}
use oxigeon.Telnet.Mxp.State.{eq_ignore_ascii_case}

abbrev pub header_end : Bytes
header_end = 0x0D ∷ 0x0A ∷ 0x0D ∷ 0x0A ∷ []

-- The first place of four bytes that are the end of a header.
unfoldable pub find_header_end : Bytes → Option ℕ
find_header_end [] = none
find_header_end (c ∷ cs) =
    let rest = find_header_end cs in
    if is_prefix header_end (c ∷ cs)
    then some 0
    else elim rest [ none ↦ none | some n ↦ some (suc n) ]

abbrev prepend : ℕ → List Bytes → List Bytes
prepend c [] = (c ∷ []) ∷ []
prepend c (l ∷ ls) = (c ∷ l) ∷ ls

-- `str::lines`: a line ends before LF or before CR LF.
unfoldable pub lines : Bytes → List Bytes
lines [] = []
lines (c ∷ cs) =
    let rest = lines cs in
    if c == 0x0A
    then [] ∷ rest
    else if (c == 0x0D) && is_prefix (0x0A ∷ []) cs
    then rest
    else prepend c rest

-- `split_once(':')`.
unfoldable pub split_once : Bytes → Option (Bytes × Bytes)
split_once [] = none
split_once (c ∷ cs) =
    let rest = split_once cs in
    if c == b':' then some ([], cs) else elim rest [ none ↦ none | some (k, v) ↦ some (c ∷ k, v) ]

-- How many bytes the white-space character has that a text begins with, or none: the property
-- White_Space of Unicode, in UTF-8.
abbrev is_white1 : ℕ → Bool
is_white1 a = within 0x09 0x0D a || (a == 0x20)

abbrev is_white2 : ℕ → ℕ → Bool
is_white2 a b = (a == 0xC2) && ((b == 0x85) || (b == 0xA0))

abbrev is_white3 : ℕ → ℕ → ℕ → Bool
is_white3 a b c =
    if a == 0xE1
    then (b == 0x9A) && (c == 0x80)
    else if a == 0xE2
    then ((b == 0x80) && (within 0x80 0x8A c || within 0xA8 0xA9 c || (c == 0xAF))
        || (b == 0x81) && (c == 0x9F))
    else (a == 0xE3) && (b == 0x80) && (c == 0x80)

abbrev white_width : Bytes → ℕ
white_width [] = 0
white_width (a ∷ []) = if is_white1 a then 1 else 0
white_width (a ∷ b ∷ []) = if is_white1 a then 1 else if is_white2 a b then 2 else 0
white_width (a ∷ b ∷ c ∷ _) =
    if is_white1 a then 1 else if is_white2 a b then 2 else if is_white3 a b c then 3 else 0

-- The text without so many bytes, nor the white space behind them.
unfoldable pub trim_start_from : ℕ → Bytes → Bytes
trim_start_from k [] = []
trim_start_from (suc k) (c ∷ cs) = trim_start_from k cs
trim_start_from zero (c ∷ cs) = elim (white_width (c ∷ cs)) [
  | zero ↦ c ∷ cs
  | suc k ↦ trim_start_from k cs
]

abbrev is_nil : Bytes → Bool
is_nil [] = true
is_nil (_ ∷ _) = false

unfoldable pub trim_end : Bytes → Bytes
unfolding trim_start_from
trim_end [] = []
trim_end (c ∷ cs) =
    let rest = trim_end cs in if is_nil (trim_start_from 0 (c ∷ cs)) then [] else c ∷ rest

unfoldable pub trim : Bytes → Bytes
trim s = trim_end (trim_start_from 0 s)

abbrev pub parse_usize : Bytes → Option ℕ
parse_usize = parse (2 ^ 64)

-- A `usize` has at most 20 digits.
abbrev pub format : ℕ → Bytes
format n = digits 20 n []

-- The first field of that name is taken, whatever its value.
unfoldable pub field : List Bytes → Option Bytes
unfolding split_once eq_ignore_ascii_case
field [] = none
field (l ∷ ls) =
    let rest = field ls in
    elim (split_once l) [
      | none ↦ rest
      | some (k, v) ↦ if eq_ignore_ascii_case k (ascii "Content-Length") then some v else rest
    ]

unfoldable pub content_length : Bytes → Option ℕ
unfolding field lines trim parse
content_length header = elim (field (lines header)) [ none ↦ none | some v ↦ parse_usize (trim v) ]
