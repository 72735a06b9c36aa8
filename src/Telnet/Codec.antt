-- ===== src/Telnet/Codec.antt =====
-- src/core/network/telnet/codec.rs: line ends, IAC escapes and GMCP payloads.
--
-- A `&str` is the list of its bytes. `decode_line` pushes `b as char` for each byte it keeps, so its
-- result is the list of code points, all below 256; the index `i` of its loop is the rest of the
-- list.
pub mod RoundTrip
use oxigeon.Base.{ℕ, List, [], ◌∷◌, ◌++◌, Option, none, some, ◌==◌, if◌then◌else◌, Bytes}
use oxigeon.Base.Utf8.{from_utf8_lossy}
use oxigeon.Telnet.Constants.{iac, se, sb, opt_gmcp, cr, lf, nul}

unfoldable pub encode_text : Bytes → Bytes
encode_text [] = []
encode_text (b ∷ bs) =
    (if b == lf then cr ∷ lf ∷ [] else if b == iac then iac ∷ iac ∷ [] else b ∷ [])
    ++ encode_text bs

unfoldable pub decode_line : Bytes → List ℕ
decode_line [] = []
decode_line (b ∷ []) = b ∷ []
decode_line (b ∷ c ∷ bs) =
    let one = decode_line (c ∷ bs) in
    let two = decode_line bs in
    if b == cr
    then if c == lf then lf ∷ two else if c == nul then cr ∷ two else cr ∷ one
    else b ∷ one

unfoldable pub encode_negotiate : ℕ → ℕ → Bytes
encode_negotiate verb option = iac ∷ verb ∷ option ∷ []

-- The loop over `data`.
unfoldable pub escape_iac : Bytes → Bytes
escape_iac [] = []
escape_iac (b ∷ bs) = b ∷ (if b == iac then iac ∷ [] else []) ++ escape_iac bs

unfoldable pub encode_subnegotiation : ℕ → Bytes → Bytes
unfolding escape_iac
encode_subnegotiation option payload = iac ∷ sb ∷ option ∷ escape_iac payload ++ iac ∷ se ∷ []

abbrev pub gmcp_payload : Bytes → Option Bytes → Bytes
gmcp_payload pack none = pack
gmcp_payload pack (some json) = pack ++ b' ' ∷ json

unfoldable pub encode_gmcp : Bytes → Option Bytes → Bytes
unfolding encode_subnegotiation
encode_gmcp pack json = encode_subnegotiation opt_gmcp (gmcp_payload pack json)

-- The bytes before the first space, and those behind it, if there is one.
abbrev pub split_space : Bytes → Bytes × Option Bytes
split_space [] = ([], none)
split_space (b ∷ bs) =
    let (before, after) = split_space bs in if b == b' ' then ([], some bs) else (b ∷ before, after)

-- A payload that ends with its space has no JSON.
abbrev json_of : Bytes → Option Bytes
json_of [] = none
json_of (b ∷ bs) = some (from_utf8_lossy (b ∷ bs))

abbrev json_after : Option Bytes → Option Bytes
json_after none = none
json_after (some bs) = json_of bs

-- The source's `Option` is never `None`.
unfoldable pub parse_gmcp : Bytes → Option (Bytes × Option Bytes)
parse_gmcp payload =
    let (before, after) = split_space payload in some (from_utf8_lossy before, json_after after)
