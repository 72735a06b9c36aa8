-- ===== src/Tests/Dap.antt =====
-- Tests and witnesses for src/core/scripting/debugger/dap/codec.rs. A value is one byte, written as
-- it is.
use oxigeon.Base.{ℕ, ◌≤◌, [], ◌∷◌, ◌++◌, Option, none, some, ◌≡◌, refl, arith, Bytes, length}
use oxigeon.Base.Decimal.{digits}
use oxigeon.Base.Utf8.{ascii, is_utf8}
use oxigeon.Debugger.Dap.{Answer, decode, encode, Failure, max_body}
use oxigeon.Debugger.Dap.Header.{header_end, content_length, find_header_end, trim, trim_end}
use oxigeon.Debugger.Dap.Pieces.{decode-append}
use oxigeon.Debugger.Dap.RoundTrip.{decode-encode}

abbrev from_one : Bytes → Option ℕ
from_one (c ∷ []) = some c
from_one _ = none

abbrev to_one : ℕ → Option Bytes
to_one c = some (c ∷ [])

abbrev one_framed : Bytes
one_framed = ascii "Content-Length: 1" ++ (header_end ++ b'7' ∷ [])

one_encoded : encode to_one b'7' [] ≡ some one_framed
unfolding encode digits
one_encoded = refl

any_case :
    content_length (0x0A ∷ ascii "X:1" ++ 0x0D ∷ 0x0A ∷ ascii "content-LENGTH:  +12 ") ≡ some 12
unfolding content_length trim_end
any_case = refl

no_break_space : trim (0xC2 ∷ 0xA0 ∷ 0x31 ∷ 0xE2 ∷ 0x80 ∷ 0xAF ∷ []) ≡ 0x31 ∷ []
unfolding trim trim_end
no_break_space = refl

-- The first field of that name counts, even when its value is no number.
first_field : content_length (ascii "Content-Length: x" ++ 0x0A ∷ ascii "Content-Length: 1") ≡ none
unfolding content_length trim_end
first_field = refl

over_limit :
    decode from_one none (ascii "Content-Length: 8388609" ++ (header_end ++ b'7' ∷ []))
    ≡ (none, b'7' ∷ [], Answer.failed (Failure.too_long 8388609))
unfolding decode find_header_end is_utf8 content_length trim_end
over_limit = refl

one_read : (body : Bytes) → to_one b'7' ≡ some body → from_one body ≡ some b'7'
one_read [] e = cc
one_read (c ∷ []) e = cc
one_read (c ∷ d ∷ ds) e = cc

one_short : (body : Bytes) → to_one b'7' ≡ some body → length body ≤ max_body
one_short [] e = omega arith
one_short (c ∷ []) e = omega arith
one_short (c ∷ d ∷ ds) e = cc

decode-encode_example :
    decode from_one none (one_framed ++ ascii "Con") ≡ (none, ascii "Con", Answer.message b'7')
unfolding encode digits
decode-encode_example =
    decode-encode from_one to_one b'7' one_framed (ascii "Con") one_read one_short refl

decode-append_example :
    decode from_one (some 1) ([] ++ b'7' ∷ [])
    ≡ decode from_one none ((ascii "Content-Length: 1" ++ header_end) ++ b'7' ∷ [])
unfolding decode find_header_end is_utf8 content_length trim_end
decode-append_example =
    decode-append from_one none (some 1) (ascii "Content-Length: 1" ++ header_end) (b'7' ∷ []) []
      refl
