-- ===== src/Telnet/Mxp/Reply.antt =====
-- src/core/network/telnet/mxp.rs: the answers of a client to `<VERSION>` and `<SUPPORT>`.
--
-- `char::is_whitespace` is the property White_Space of Unicode, and a `&str` is the list of the codes
-- of its characters. A slice that panics is `none`.
pub mod Tokens
use oxigeon.Base.{
  ℕ, ◌+◌, Bool, true, false, not, ◌&&◌, ◌||◌, List, [], ◌∷◌, ◌++◌, Option, none, some, ◌==◌, within,
  if◌then◌else◌, map,
}
use oxigeon.Base.Utf8.{ascii}
use oxigeon.Telnet.Constants.{esc}
use oxigeon.Telnet.Capabilities.{ClientCapabilities}
use oxigeon.Telnet.Mxp.{Text, escape_sequence, is_line_tag}
use oxigeon.Telnet.Mxp.State.{eq_ignore_ascii_case, attr, add_supports}

pub data MxpReply : Type 0 where
  version : List (Text × Text) → MxpReply
  supports : List Text → MxpReply

abbrev pub is_whitespace : ℕ → Bool
is_whitespace c =
    within 9 13 c
    || c == 32
    || c == 0x85
    || c == 0xA0
    || c == 0x1680
    || within 0x2000 0x200A c
    || within 0x2028 0x2029 c
    || c == 0x202F
    || c == 0x205F
    || c == 0x3000

abbrev pub is_quote : ℕ → Bool
is_quote c = (c == 39) || (c == 34)

-- The variables of the loop of `tokenize`, but for `out`.
pub record Token : Type 0 where
  pub cur : Text
  pub quote : Option ℕ
  pub started : Bool

abbrev pub is_empty : Text → Bool
is_empty [] = true
is_empty (_ ∷ _) = false

-- What is pushed to `out` at the end of a token.
abbrev pub finish : Token → List Text → List Text
finish t out = if t.started || not (is_empty t.cur) then t.cur ∷ out else out

abbrev pub blank : Token
blank = record { cur = []; quote = none; started = false }

unfoldable pub tokenize_from : Token → Text → List Text
tokenize_from t [] = finish t []
tokenize_from t (c ∷ s) = elim t.quote [
  | some q ↦ elim (c == q) [
    | true ↦ tokenize_from (record t { quote = none }) s
    | false ↦ tokenize_from (record t { cur = t.cur ++ c ∷ [] }) s
  ]
  | none ↦ elim (is_quote c) [
    | true ↦ tokenize_from (record t { quote = some c; started = true }) s
    | false ↦ elim (is_whitespace c) [
      | true ↦ finish t (tokenize_from blank s)
      | false ↦ tokenize_from (record t { cur = t.cur ++ c ∷ [] }) s
    ]
  ]
]

unfoldable pub tokenize : Text → List Text
unfolding tokenize_from
tokenize s = tokenize_from blank s

-- `split_once('=')`, and the bare token.
unfoldable pub split_attr : Text → Text × Text
split_attr [] = ([], [])
split_attr (c ∷ s) = let (k, v) = split_attr s in if c == b'=' then ([], s) else (c ∷ k, v)

unfoldable pub parse_attrs : Text → List (Text × Text)
unfolding tokenize split_attr
parse_attrs s = map split_attr (tokenize s)

unfoldable pub trim_start : Text → Text
trim_start [] = []
trim_start (c ∷ s) = let rest = trim_start s in if is_whitespace c then rest else c ∷ s

unfoldable pub trim_end : Text → Text
trim_end [] = []
trim_end (c ∷ s) =
    let rest = trim_end s in if is_empty rest && is_whitespace c then [] else c ∷ rest

unfoldable pub trim : Text → Text
unfolding trim_start trim_end
trim s = trim_end (trim_start s)

unfoldable pub strip_leading_line_tag : Text → Option Text
unfolding escape_sequence is_line_tag
strip_leading_line_tag [] = some []
strip_leading_line_tag (c ∷ s) = elim (c == esc) [
  | false ↦ some (c ∷ s)
  | true ↦ elim (escape_sequence (c ∷ s)) [
    | none ↦ none
    | some (seq, rest) ↦ if is_line_tag seq then some rest else some (c ∷ s)
  ]
]

-- `strip_suffix('>')` of what is behind the `<`.
unfoldable pub without_close : Text → Option Text
without_close [] = none
without_close (c ∷ []) = if c == b'>' then some [] else none
without_close (c ∷ s) = elim (without_close s) [ none ↦ none | some t ↦ some (c ∷ t) ]

unfoldable pub inner_of : Text → Option Text
unfolding without_close
inner_of [] = none
inner_of (c ∷ s) = if c == b'<' then without_close s else none

-- The name, and the rest from the first white space on.
unfoldable pub split_name : Text → Text × Text
split_name [] = ([], [])
split_name (c ∷ s) =
    let (n, r) = split_name s in if is_whitespace c then ([], c ∷ s) else (c ∷ n, r)

abbrev has_sign : Text → Bool
has_sign [] = false
has_sign (c ∷ _) = (c == b'+') || (c == b'-')

abbrev pub signed_only : List Text → List Text
signed_only [] = []
signed_only (t ∷ ts) = let rest = signed_only ts in if has_sign t then t ∷ rest else rest

unfoldable pub reply_of : Text × Text → Option MxpReply
unfolding parse_attrs tokenize eq_ignore_ascii_case
reply_of (name, rest) =
    if eq_ignore_ascii_case name (ascii "VERSION")
    then some (version (parse_attrs rest))
    else if eq_ignore_ascii_case name (ascii "SUPPORTS")
    then some (supports (signed_only (tokenize rest)))
    else none

-- `none` is a panic, `some none` is no reply.
unfoldable pub parse_reply : Text → Option (Option MxpReply)
unfolding trim strip_leading_line_tag inner_of split_name reply_of
parse_reply line = elim (strip_leading_line_tag (trim line)) [
  | none ↦ none
  | some t ↦ elim (inner_of t) [
    | none ↦ some none
    | some inner ↦ some (reply_of (split_name inner))
  ]
]

abbrev or_empty : Option Text → Text
or_empty none = []
or_empty (some t) = t

unfoldable pub apply : MxpReply → ClientCapabilities → ClientCapabilities
unfolding attr trim add_supports
apply (version attrs) caps =
    let joined =
      trim (
        or_empty (attr attrs (ascii "CLIENT")) ++ b' ' ∷ or_empty (attr attrs (ascii "VERSION"))) in
    record caps {
      mxp_version = attr attrs (ascii "MXP");
      mxp_client = if is_empty joined then caps.mxp_client else some joined;
    }
apply (supports tags) caps = record caps { mxp_supports = add_supports tags caps.mxp_supports }
