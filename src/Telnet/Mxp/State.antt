-- ===== src/Telnet/Mxp/State.antt =====
-- src/core/network/telnet/mxp.rs: the state of MXP on a connection, and the client's replies.
--
-- A `&str` is the list of the codes of its characters; what is sent is ASCII, so that these are its
-- bytes too. Reply, beside this module, is what takes a reply apart.
pub mod Supports
use oxigeon.Base.{
  ℕ, zero, suc, ◌+◌, ◌/◌, ◌%◌, ◌≤◌, Bool, true, false, not, ◌&&◌, ◌||◌, List, [], ◌∷◌, ◌++◌, Option,
  none, some, ◌==◌, ltb, leb, within, if◌then◌else◌, length, ◌≡◌, refl, Bytes, length-append,
}
use oxigeon.Base.Utf8.{ascii}
use oxigeon.Telnet.Constants.{esc, opt_mxp}
use oxigeon.Telnet.Codec.{encode_subnegotiation, encode_text}
use oxigeon.Telnet.Mxp.{Text}
use oxigeon.Telnet.Capabilities.{ClientCapabilities}

abbrev pub mode_secure : ℕ
mode_secure = 1

abbrev pub mode_lock_locked : ℕ
mode_lock_locked = 7

-- A `u8` in decimal.
abbrev pub decimal : ℕ → Text
decimal n =
    if ltb n 10
    then (b'0' + n) ∷ []
    else if ltb n 100
    then (b'0' + n / 10) ∷ (b'0' + n % 10) ∷ []
    else (b'0' + n / 100) ∷ (b'0' + (n / 10) % 10) ∷ (b'0' + n % 10) ∷ []

unfoldable pub line_tag : ℕ → Text
line_tag n = esc ∷ b'[' ∷ (decimal n ++ b'z' ∷ [])

pub record MxpState : Type 0 where
  pub offered : Bool
  pub enabled : Bool

unfoldable pub new : Bool → MxpState
new offered = record { offered = offered; enabled = false }

-- What turns MXP on.
unfoldable pub start_sequence : Bytes
unfolding line_tag encode_subnegotiation encode_text
start_sequence =
    encode_subnegotiation opt_mxp []
    ++ encode_text (
        line_tag mode_lock_locked
        ++ (line_tag mode_secure
            ++ (ascii "<VERSION>\n" ++ (line_tag mode_secure ++ ascii "<SUPPORT>\n"))))

unfoldable pub enable : MxpState → MxpState × Bytes
unfolding start_sequence
enable s = if s.enabled then (s, []) else (record s { enabled = true }, start_sequence)

unfoldable pub disable : MxpState → MxpState
disable s = record s { enabled = false }

abbrev is_empty : Bytes → Bool
is_empty [] = true
is_empty (_ ∷ _) = false

unfoldable pub on_accept : ClientCapabilities → MxpState → ClientCapabilities × MxpState × Bytes
unfolding enable
on_accept caps s =
    let (s', start) = enable s in
    (if is_empty start then caps else record caps { mxp_supported = true }, s', start)

unfoldable pub on_refuse : ClientCapabilities → MxpState → ClientCapabilities × MxpState
unfolding disable
on_refuse caps s = (
  record caps { mxp_supported = false; mxp_version = none; mxp_client = none; mxp_supports = [] },
  disable s,
)

abbrev pub max_supports : ℕ
max_supports = 256

abbrev pub equals : Text → Text → Bool
equals [] [] = true
equals (a ∷ s) (b ∷ t) = (a == b) && equals s t
equals _ _ = false

abbrev pub member : Text → List Text → Bool
member t [] = false
member t (s ∷ ss) = equals s t || member t ss

-- The loop over the tags of `MxpReply::Supports`.
unfoldable pub add_supports : List Text → List Text → List Text
add_supports [] supports = supports
add_supports (t ∷ ts) supports =
    let rest = add_supports ts (if member t supports then supports else supports ++ t ∷ []) in
    if leb max_supports (length supports) then supports else rest

abbrev lower : ℕ → ℕ
lower c = if within b'A' b'Z' c then c + 32 else c

unfoldable pub eq_ignore_ascii_case : Text → Text → Bool
eq_ignore_ascii_case [] [] = true
eq_ignore_ascii_case (a ∷ s) (b ∷ t) = (lower a == lower b) && eq_ignore_ascii_case s t
eq_ignore_ascii_case _ _ = false

unfoldable pub attr : List (Text × Text) → Text → Option Text
unfolding eq_ignore_ascii_case
attr [] key = none
attr ((k, v) ∷ attrs) key = if eq_ignore_ascii_case k key then some v else attr attrs key
