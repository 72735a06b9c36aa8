-- ===== src/Telnet/Relay.antt =====
-- src/core/network/telnet/relay.rs: what the relay makes of negotiations and subnegotiations.
--
-- The bytes that go out and the message to the Lua thread are results. The `version` of the package
-- is set by the build, and `from_str` is serde_json's, with its `Value::Null`: both are parameters.
pub mod Agree
pub mod Connection
pub mod Loop
use oxigeon.Base.{
  ℕ, ◌+◌, ◌*◌, Bool, true, false, ◌&&◌, ◌||◌, List, [], ◌∷◌, ◌++◌, Option, none, some, ◌==◌,
  if◌then◌else◌, Bytes,
}
use oxigeon.Base.Utf8.{ascii, from_utf8_lossy}
use oxigeon.Telnet.Constants.{
  will, wont, do_verb, dont, opt_gmcp, opt_mccp2, opt_mxp, opt_ttype, opt_naws,
}
use oxigeon.Telnet.Codec.{encode_gmcp, parse_gmcp}
use oxigeon.Telnet.Option.{
  NegotiationCommand, to_bytes, OptionNegotiator, receive_will, receive_wont, receive_do,
  receive_dont,
}
use oxigeon.Telnet.Capabilities.{ClientCapabilities}
use oxigeon.Telnet.Mxp.State.{MxpState, on_accept, on_refuse}

-- The parts of the connection that a negotiation changes.
pub record Conn : Type 0 where
  pub negotiator : OptionNegotiator
  pub capabilities : ClientCapabilities
  pub mxp : MxpState

unfoldable pub response : ℕ → ℕ → OptionNegotiator → OptionNegotiator × Option NegotiationCommand
response verb option n =
    if verb == will
    then (let r = receive_will n option in (r.0, r.1))
    else if verb == wont
    then (let r = receive_wont n option in (r.0, r.1))
    else if verb == do_verb
    then (let r = receive_do n option in (r.0, r.1))
    else if verb == dont
    then (let r = receive_dont n option in (r.0, r.1))
    else (n, none)

abbrev pub reply_bytes : Option NegotiationCommand → Bytes
unfolding to_bytes
reply_bytes none = []
reply_bytes (some c) = to_bytes c

abbrev hello_json : Bytes → Bytes
hello_json version = ascii "{\"client\":\"Oxigeon\",\"version\":\"" ++ (version ++ ascii "\"}")

-- The `match option`.
unfoldable pub policy :
    Bytes → ℕ → ℕ → ClientCapabilities → MxpState → ClientCapabilities × MxpState × Bytes
unfolding on_accept on_refuse encode_gmcp
policy version verb option caps s =
    if (option == opt_gmcp) && ((verb == do_verb) || (verb == will))
    then (
      record caps { gmcp_supported = true },
      s,
      encode_gmcp (ascii "Core.Hello") (some (hello_json version)),
    )
    else if (option == opt_mccp2) && (verb == do_verb)
    then (record caps { mccp2_supported = true }, s, [])
    else if (option == opt_mxp) && ((verb == do_verb) || (verb == will))
    then on_accept caps s
    else if (option == opt_mxp) && ((verb == dont) || (verb == wont))
    then (let (caps', s') = on_refuse caps s in (caps', s', []))
    else (caps, s, [])

unfoldable pub on_negotiate : Bytes → ℕ → ℕ → Conn → Conn × Bytes
unfolding response policy
on_negotiate version verb option c =
    let (n, r) = response verb option c.negotiator in
    let (caps, s, out) = policy version verb option c.capabilities c.mxp in
    (record { negotiator = n; capabilities = caps; mxp = s }, reply_bytes r ++ out)

-- `u16::from_be_bytes`, twice, if there are four bytes.
unfoldable pub naws : Bytes → ClientCapabilities → ClientCapabilities
naws (a ∷ b ∷ c ∷ d ∷ _) caps = record caps {
  window_width = some (a * 256 + b);
  window_height = some (c * 256 + d);
}
naws _ caps = caps

unfoldable pub ttype : Bytes → ClientCapabilities → ClientCapabilities
unfolding from_utf8_lossy
ttype [] caps = caps
ttype (b ∷ payload) caps =
    if b == 0 then record caps { terminal_type = some (from_utf8_lossy payload) } else caps

module _ {J : Type 0} (from_str : Bytes → Option J) (null : J) where
  abbrev pub json_value : Option Bytes → J
  json_value none = null
  json_value (some j) = elim (from_str j) [ none ↦ null | some v ↦ v ]

  abbrev pub on_gmcp : Bytes → Option (Bytes × J)
  unfolding parse_gmcp
  on_gmcp payload = elim (parse_gmcp payload) [
    | none ↦ none
    | some (pack, json) ↦ some (pack, json_value json)
  ]

  -- The capabilities, and `LuaCommand::OnGmcp`.
  unfoldable pub handle_subnegotiation :
      ℕ → Bytes → ClientCapabilities → ClientCapabilities × Option (Bytes × J)
  unfolding ttype naws
  handle_subnegotiation option payload caps =
      if option == opt_ttype
      then (ttype payload caps, none)
      else if option == opt_naws
      then (naws payload caps, none)
      else if option == opt_gmcp
      then (caps, on_gmcp payload)
      else (caps, none)
