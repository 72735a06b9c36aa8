-- ===== src/Telnet/Parser/Spec.antt =====
-- What the parser of parser.rs means, with no data buffer: a machine that gives each data byte when
-- it is read. The buffered parser is held to it, and from it comes that chunks do not matter.
use oxigeon.Base.{ℕ, ◌&&◌, List, [], ◌∷◌, ◌++◌, map, ◌==◌, if◌then◌else◌, Bytes}
use oxigeon.Telnet.Constants.{iac, se, sb}
use oxigeon.Telnet.Parser.{
  TelnetEvent, text, command, negotiate, subnegotiation, ParserState, normal, in_iac,
  in_negotiation, in_subnegotiation, in_subnegotiation_iac, TelnetParser, is_empty, is_verb,
}

-- One byte of game text, or one event that is no text.
pub data Item : Type 0 where
  byte_in : ℕ → Item
  event_in : TelnetEvent → Item

-- Where the machine stands: the state and the payload of an open subnegotiation.
pub record Place : Type 0 where
  pub at : ParserState
  pub payload : Bytes

abbrev stay : Place → ParserState → Place × List Item
stay s st = (record s { at = st }, [])

give : Place → Item → Place × List Item
give s item = (record s { at = normal }, item ∷ [])

spec_in_iac : Place → ℕ → Place × List Item
unfolding give
spec_in_iac s b =
    if b == iac
    then give s (byte_in 255)
    else if is_verb b
    then stay s (in_negotiation b)
    else if b == sb
    then (record { at = in_subnegotiation 0; payload = [] }, [])
    else if b == se
    then stay s normal
    else give s (event_in (command b))

spec_in_sub : ℕ → Place → ℕ → Place × List Item
spec_in_sub o s b =
    if o == 0 && is_empty s.payload
    then stay s (in_subnegotiation b)
    else if b == iac
    then stay s (in_subnegotiation_iac o)
    else (record s { payload = s.payload ++ b ∷ [] }, [])

spec_in_sub_iac : ℕ → Place → ℕ → Place × List Item
spec_in_sub_iac o s b =
    if b == se
    then (record { at = normal; payload = [] }, event_in (subnegotiation o s.payload) ∷ [])
    else if b == iac
    then (record { at = in_subnegotiation o; payload = s.payload ++ 255 ∷ [] }, [])
    else stay s (in_subnegotiation o)

unfoldable pub spec_step : ParserState → Place → ℕ → Place × List Item
unfolding give spec_in_iac spec_in_sub spec_in_sub_iac
spec_step normal s b = if b == iac then stay s in_iac else (s, byte_in b ∷ [])
spec_step in_iac s b = spec_in_iac s b
spec_step (in_negotiation v) s b = give s (event_in (negotiate v b))
spec_step (in_subnegotiation o) s b = spec_in_sub o s b
spec_step (in_subnegotiation_iac o) s b = spec_in_sub_iac o s b

unfoldable pub spec_run : Place → Bytes → Place × List Item
unfolding spec_step
spec_run s [] = (s, [])
spec_run s (b ∷ bs) =
    let (t, out) = spec_step s.at s b in let (u, rest) = spec_run t bs in (u, out ++ rest)

-- What events say, byte for byte: the text of a data event is spread out.
abbrev pub item_of : TelnetEvent → List Item
item_of (text bs) = map byte_in bs
item_of (command c) = event_in (command c) ∷ []
item_of (negotiate v o) = event_in (negotiate v o) ∷ []
item_of (subnegotiation o d) = event_in (subnegotiation o d) ∷ []

abbrev pub items : List TelnetEvent → List Item
items [] = []
items (e ∷ es) = item_of e ++ items es

abbrev pub place : TelnetParser → Place
place p = record { at = p.state; payload = p.sub_buffer }

abbrev pub pending : TelnetParser → List Item
pending p = map byte_in p.data_buffer
