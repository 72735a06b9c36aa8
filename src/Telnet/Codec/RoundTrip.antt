-- ===== src/Telnet/Codec/RoundTrip.antt =====
-- Line ends and GMCP payloads of codec.rs, read back.
use oxigeon.Base.{true, [], ◌∷◌, ◌++◌, Option, none, some, ◌≡◌, ◌≢◌, refl, arith, Bytes, All}
use oxigeon.Base.Utf8.{is_utf8, from_utf8_lossy-is_utf8}
use oxigeon.Telnet.Constants.{iac, cr, nul}
use oxigeon.Telnet.Codec.{encode_text, decode_line, gmcp_payload, split_space, parse_gmcp}

-- Nowhere does NUL follow CR.
abbrev pub NoCrNul : Bytes → Type 0
NoCrNul [] = Unit {0}
NoCrNul (b ∷ []) = Unit {0}
NoCrNul (b ∷ c ∷ bs) = (b ≡ cr → c ≢ nul) × NoCrNul (c ∷ bs)

-- Text without IAC and without CR NUL comes back from its line ends as it was.
pub decode_line-encode_text :
    (t : Bytes) → All (λ b. b ≢ iac) t → NoCrNul t → decode_line (encode_text t) ≡ t
unfolding decode_line encode_text
decode_line-encode_text [] a n = refl
decode_line-encode_text (b ∷ []) a n = ground arith
decode_line-encode_text (b ∷ c ∷ bs) a n = ground (arith, decode_line-encode_text (c ∷ bs) a.1 n.1)

split_space-append :
    (pack json : Bytes)
    → All (λ b. b ≢ b' ') pack
    → split_space (pack ++ b' ' ∷ json) ≡ (pack, some json)
split_space-append [] json h = refl
split_space-append (b ∷ pack) json h = ground (arith, split_space-append pack json)

split_space-none : (pack : Bytes) → All (λ b. b ≢ b' ') pack → split_space pack ≡ (pack, none)
split_space-none [] h = refl
split_space-none (b ∷ pack) h = ground (arith, split_space-none pack)

-- A GMCP payload is taken apart into the package and the JSON it was made of: the package has no
-- space, the JSON, if there is any, is not empty, and both are UTF-8.
parse_gmcp-gmcp_payload :
    (pack : Bytes) (json : Option Bytes)
    → All (λ b. b ≢ b' ') pack
    → is_utf8 pack ≡ true
    → json ≢ some []
    → ((j : Bytes) → json ≡ some j → is_utf8 j ≡ true)
    → parse_gmcp (gmcp_payload pack json) ≡ some (pack, json)
unfolding parse_gmcp
parse_gmcp-gmcp_payload pack none sp up ne uj =
    ground (arith, split_space-none pack, from_utf8_lossy-is_utf8 pack)
parse_gmcp-gmcp_payload pack (some []) sp up ne uj = absurd (ne refl)
parse_gmcp-gmcp_payload pack (some (b ∷ j)) sp up ne uj = ground (
  arith,
  split_space-append pack (b ∷ j),
  from_utf8_lossy-is_utf8 pack,
  from_utf8_lossy-is_utf8 (b ∷ j),
  uj (b ∷ j),
)
