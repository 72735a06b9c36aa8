-- ===== src/Telnet/Parser.antt =====
-- src/core/network/telnet/parser.rs: the byte-level telnet parser of RFC 854.
--
-- `TelnetParser` is the record of the source's three fields. A method that takes `&mut self` returns
-- the parser it leaves, and `feed` also the event, if one is complete. The `match` on
-- `self.state.clone()` is a function by clauses for each state, and `feed` dispatches.
pub mod Spec
pub mod Buffered
pub mod RoundTrip
use oxigeon.Base.{
  ℕ, Bool, true, false, ◌&&◌, ◌||◌, List, [], ◌∷◌, ◌++◌, Option, none, some, ◌==◌, if◌then◌else◌,
  Bytes,
}
use oxigeon.Telnet.Constants.{iac, se, sb, will, wont, do_verb, dont}

pub data TelnetEvent : Type 0 where
  text : Bytes → TelnetEvent
  command : ℕ → TelnetEvent
  negotiate : ℕ → ℕ → TelnetEvent
  subnegotiation : ℕ → Bytes → TelnetEvent

pub data ParserState : Type 0 where
  normal in_iac : ParserState
  in_negotiation : ℕ → ParserState
  in_subnegotiation : ℕ → ParserState
  in_subnegotiation_iac : ℕ → ParserState

pub record TelnetParser : Type 0 where
  pub state : ParserState
  pub data_buffer : Bytes
  pub sub_buffer : Bytes

abbrev pub is_empty : Bytes → Bool
is_empty [] = true
is_empty (_ ∷ _) = false

abbrev pub is_verb : ℕ → Bool
is_verb b = b == will || b == wont || b == do_verb || b == dont

unfoldable pub new : TelnetParser
new = record { state = normal; data_buffer = []; sub_buffer = [] }

unfoldable pub flush_data : TelnetParser → TelnetParser × Option TelnetEvent
flush_data p =
    if is_empty p.data_buffer
    then (p, none)
    else (record p { data_buffer = [] }, some (text p.data_buffer))

-- `ParserState::Normal`
feed_normal : TelnetParser → ℕ → TelnetParser × Option TelnetEvent
feed_normal p byte =
    if byte == iac
    then (let (q, data_event) = flush_data p in (record q { state = in_iac }, data_event))
    else (record p { data_buffer = p.data_buffer ++ byte ∷ [] }, none)

-- `ParserState::InIac`
feed_in_iac : TelnetParser → ℕ → TelnetParser × Option TelnetEvent
feed_in_iac p byte =
    if byte == iac
    then (record p { state = normal; data_buffer = p.data_buffer ++ 255 ∷ [] }, none)
    else if is_verb byte
    then (record p { state = in_negotiation byte }, none)
    else if byte == sb
    then (record p { state = in_subnegotiation 0; sub_buffer = [] }, none)
    else if byte == se
    then (record p { state = normal }, none)
    else (record p { state = normal }, some (command byte))

-- `ParserState::InSubnegotiation(option)`
feed_in_sub : ℕ → TelnetParser → ℕ → TelnetParser × Option TelnetEvent
feed_in_sub option p byte =
    if option == 0 && is_empty p.sub_buffer
    then (record p { state = in_subnegotiation byte }, none)
    else if byte == iac
    then (record p { state = in_subnegotiation_iac option }, none)
    else (record p { sub_buffer = p.sub_buffer ++ byte ∷ [] }, none)

-- `ParserState::InSubnegotiationIac(option)`
feed_in_sub_iac : ℕ → TelnetParser → ℕ → TelnetParser × Option TelnetEvent
feed_in_sub_iac option p byte =
    if byte == se
    then (record p { state = normal; sub_buffer = [] }, some (subnegotiation option p.sub_buffer))
    else if byte == iac
    then (
      record p { state = in_subnegotiation option; sub_buffer = p.sub_buffer ++ 255 ∷ [] },
      none,
    )
    else (record p { state = in_subnegotiation option }, none)

unfoldable pub feed_in : ParserState → TelnetParser → ℕ → TelnetParser × Option TelnetEvent
unfolding flush_data feed_normal feed_in_iac feed_in_sub feed_in_sub_iac
feed_in normal p byte = feed_normal p byte
feed_in in_iac p byte = feed_in_iac p byte
feed_in (in_negotiation verb) p byte = (record p { state = normal }, some (negotiate verb byte))
feed_in (in_subnegotiation option) p byte = feed_in_sub option p byte
feed_in (in_subnegotiation_iac option) p byte = feed_in_sub_iac option p byte

abbrev pub feed : TelnetParser → ℕ → TelnetParser × Option TelnetEvent
feed p byte = feed_in p.state p byte

-- `events.push(event)` for `Some(event)`.
abbrev pub emit : Option TelnetEvent → List TelnetEvent → List TelnetEvent
emit none events = events
emit (some e) events = e ∷ events

-- The `for` loop of `feed_bytes`: the parser after the bytes, and the events in their order.
unfoldable pub feed_each : TelnetParser → Bytes → TelnetParser × List TelnetEvent
feed_each p [] = (p, [])
feed_each p (byte ∷ bytes) =
    let (q, event) = feed p byte in let (r, events) = feed_each q bytes in (r, emit event events)

unfoldable pub feed_bytes : TelnetParser → Bytes → TelnetParser × List TelnetEvent
unfolding feed_each flush_data
feed_bytes p bytes =
    let (q, events) = feed_each p bytes in
    let (r, rest) = flush_data q in (r, events ++ emit rest [])

abbrev pub flush : TelnetParser → TelnetParser × Option TelnetEvent
flush = flush_data
